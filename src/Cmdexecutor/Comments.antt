-- ===== src/Cmdexecutor/Comments.antt =====
-- The comments of a command file, in cmp/cmp_cmdexecutor.c, and the end of the interpreter.
use ntrt.Prelude.{
  ℕ, zero, suc, ◌+◌, ◌*◌, ◌%◌, ◌^◌, ◌≤◌, ◌<◌, ◌≡◌, refl, ap, subst, ◌∙◌, Bool, true, false, Option,
  some, List, [], ◌∷◌, ◌++◌, arith, length,
}
use ntrt.Cmdexecutor.{
  rounds, command_interpreter_process, Scanner, Executed, is_comment, read_block,
  cmdinterpreter_loop, cmdinterpreter_main_proc,
}

module _ {Line : Type 0} (s : Scanner Line) where
  -- The lines that do not begin with '#'.
  abbrev pub uncommented : List Line → List Line
  uncommented [] = []
  uncommented (line ∷ lines) = elim (is_comment s line) [
    | true ↦ uncommented lines
    | false ↦ line ∷ uncommented lines
  ]

  skipped :
      (line : Line) (lines : List Line)
      → is_comment s line ≡ true
      → uncommented (line ∷ lines) ≡ uncommented lines
  skipped line lines e = cc

  kept :
      (line : Line) (lines : List Line)
      → is_comment s line ≡ false
      → uncommented (line ∷ lines) ≡ line ∷ uncommented lines
  kept line lines e = cc

  block_takes :
      (n : ℕ) (line : Line) (lines : List Line) (x : Executed Line)
      → is_comment s line ≡ false
      → read_block s (suc n) (line ∷ lines) x
        ≡ read_block s n lines (command_interpreter_process s line x)
  unfolding read_block
  block_takes n line lines x e = cc

  block_skips :
      (n : ℕ) (line : Line) (lines : List Line) (x : Executed Line)
      → is_comment s line ≡ true
      → read_block s (suc n) (line ∷ lines) x ≡ read_block s (suc n) lines x
  unfolding read_block
  block_skips n line lines x e = cc

  -- What a block leaves of a file without its comments.
  abbrev without : List Line × Bool × Executed Line → List Line × Bool × Executed Line
  without (rest, ended, x) = (uncommented rest, ended, x)

  block_stops :
      (lines : List Line) (x : Executed Line)
      → read_block s zero (uncommented lines) x ≡ without (read_block s zero lines x)
  unfolding read_block
  block_stops lines x = refl

  block_ends :
      (n : ℕ) (x : Executed Line) → read_block s (suc n) [] x ≡ without (read_block s (suc n) [] x)
  unfolding read_block
  block_ends n x = refl

  block_line :
      (n : ℕ) (line : Line) (lines : List Line) (x : Executed Line) (b : Bool)
      → is_comment s line ≡ b
      → read_block s (suc n) (uncommented lines) x ≡ without (read_block s (suc n) lines x)
      → (let x' = command_interpreter_process s line x in
          read_block s n (uncommented lines) x' ≡ without (read_block s n lines x'))
      → read_block s (suc n) (uncommented (line ∷ lines)) x
        ≡ without (read_block s (suc n) (line ∷ lines) x)
  block_line n line lines x true e h k =
      let a = skipped line lines e in let b = block_skips n line lines x e in cc
  block_line n line lines x false e h k =
      let a = kept line lines e in
      let b = block_takes n line lines x e in
      let c = block_takes n line (uncommented lines) x e in cc

  block_uncommented :
      (n : ℕ) (lines : List Line) (x : Executed Line)
      → read_block s n (uncommented lines) x ≡ without (read_block s n lines x)
  block_uncommented zero lines x = block_stops lines x
  block_uncommented (suc n) [] x = block_ends n x
  block_uncommented (suc n) (line ∷ lines) x =
      block_line n line lines x (is_comment s line) refl (block_uncommented (suc n) lines x)
        (block_uncommented n lines (command_interpreter_process s line x))

  block_length :
      (n : ℕ) (lines : List Line) (x : Executed Line)
      → length ((read_block s n lines x).0) ≤ length lines
  unfolding read_block
  block_length zero lines x = ground arith
  block_length (suc n) [] x = ground arith
  block_length (suc n) (line ∷ lines) x = ground (
    arith,
    block_length (suc n) lines x,
    block_length n lines (command_interpreter_process s line x),
  )

  -- The thread is asked to go on at the end of every turn.
  abbrev pub always : ℕ → Bool
  always k = true

  turn_skips :
      (fuel k : ℕ) (line : Line) (lines : List Line) (numbers : ℕ × ℕ) (x : Executed Line)
      → is_comment s line ≡ true
      → cmdinterpreter_loop s (suc fuel) always k (line ∷ lines) numbers x
        ≡ cmdinterpreter_loop s fuel always (k + 1) lines numbers x
  unfolding cmdinterpreter_loop
  turn_skips fuel k line lines numbers x e = cc

  -- What a turn makes of the block it has read.
  abbrev go_on : ℕ → ℕ → ℕ × ℕ → List Line × Bool × Executed Line → Option (Executed Line)
  go_on fuel k numbers block =
      let (rest, ended, x) = block in
      elim ended [
        | true ↦ some x
        | false ↦
            cmdinterpreter_loop s fuel always (k + 1) rest numbers
              (record x { sleeps = x.sleeps ++ (numbers.1 * 1000 % 2 ^ 16) ∷ [] })
      ]

  turn_takes :
      (fuel k : ℕ) (line : Line) (lines : List Line) (numbers : ℕ × ℕ) (x : Executed Line)
      → is_comment s line ≡ false
      → cmdinterpreter_loop s (suc fuel) always k (line ∷ lines) numbers x ≡ (
          let next = s.scan_header line numbers in
          go_on fuel k next (read_block s (rounds (next.0)) lines x))
  unfolding cmdinterpreter_loop
  turn_takes fuel k line lines numbers x e = rw (cmdinterpreter_loop, e)

  -- Both runs end, in the same state.
  abbrev pub Together : Option (Executed Line) → Option (Executed Line) → Type 0
  Together a b = (x : Executed Line) × (a ≡ some x) × (b ≡ some x)

  abbrev Agrees : ℕ → Type 0
  Agrees fuel =
      (fuel' k k' : ℕ) (lines : List Line) (numbers : ℕ × ℕ) (x : Executed Line)
      → length lines < fuel
      → length (uncommented lines) < fuel'
      → Together (cmdinterpreter_loop s fuel always k lines numbers x)
          (cmdinterpreter_loop s fuel' always k' (uncommented lines) numbers x)

  go_on-Agrees :
      (fuel fuel' k k' : ℕ) (numbers : ℕ × ℕ) (block : List Line × Bool × Executed Line)
      → Agrees fuel
      → length (block.0) < fuel
      → length (uncommented (block.0)) < fuel'
      → Together (go_on fuel k numbers block) (go_on fuel' k' numbers (without block))
  go_on-Agrees fuel fuel' k k' numbers (rest, true, x) ih h h' = (x, refl, refl)
  go_on-Agrees fuel fuel' k k' numbers (rest, false, x) ih h h' =
      ih fuel' (k + 1) (k' + 1) rest numbers
        (record x { sleeps = x.sleeps ++ (numbers.1 * 1000 % 2 ^ 16) ∷ [] }) h h'

  line-Agrees :
      (fuel fuel' k k' : ℕ) (line : Line) (lines : List Line) (numbers : ℕ × ℕ) (x : Executed Line)
      (b : Bool)
      → is_comment s line ≡ b
      → Agrees fuel
      → length lines < fuel
      → length (uncommented (line ∷ lines)) < suc fuel'
      → Together
          (cmdinterpreter_loop s (suc fuel) always k (line ∷ lines) numbers x)
          (cmdinterpreter_loop s (suc fuel') always k' (uncommented (line ∷ lines)) numbers x)
  line-Agrees fuel fuel' k k' line lines numbers x true e ih h h' =
      let a = skipped line lines e in
      let (y, p, q) =
        ih (suc fuel') (k + 1) k' lines numbers x h (subst (λ l. length l < suc fuel') a h') in
      (
        y,
        turn_skips fuel k line lines numbers x e ∙ p,
        ap (λ l. cmdinterpreter_loop s (suc fuel') always k' l numbers x) a ∙ q,
      )
  line-Agrees fuel fuel' k k' line lines numbers x false e ih h h' =
      let a = kept line lines e in
      let next = s.scan_header line numbers in
      let block = read_block s (rounds (next.0)) lines x in
      let same = block_uncommented (rounds (next.0)) lines x in
      let shorter = subst (λ l. length l < suc fuel') a h' in
      let left : length (uncommented (block.0)) ≤ length (uncommented lines) =
        subst (λ (b : List Line × Bool × Executed Line). length (b.0) ≤ length (uncommented lines))
          same (block_length (rounds (next.0)) (uncommented lines) x) in
      let (y, p, q) =
        go_on-Agrees fuel fuel' k k' next block ih
          (let f = block_length (rounds (next.0)) lines x in omega arith) (omega arith) in
      (
        y,
        turn_takes fuel k line lines numbers x e ∙ p,
        ap (λ l. cmdinterpreter_loop s (suc fuel') always k' l numbers x) a
            ∙ turn_takes fuel' k' line (uncommented lines) numbers x e
            ∙ ap (go_on fuel' k' next) same
            ∙ q,
      )

  end-Agrees :
      (fuel fuel' k k' : ℕ) (numbers : ℕ × ℕ) (x : Executed Line)
      → Together
          (cmdinterpreter_loop s (suc fuel) always k [] numbers x)
          (cmdinterpreter_loop s (suc fuel') always k' [] numbers x)
  unfolding cmdinterpreter_loop
  end-Agrees fuel fuel' k k' numbers x = (x, refl, refl)

  loop-Agrees : (fuel : ℕ) → Agrees fuel
  loop-Agrees zero fuel' k k' lines numbers x h h' = absurd (omega arith)
  loop-Agrees (suc fuel) zero k k' lines numbers x h h' = absurd (omega arith)
  loop-Agrees (suc fuel) (suc fuel') k k' [] numbers x h h' = end-Agrees fuel fuel' k k' numbers x
  loop-Agrees (suc fuel) (suc fuel') k k' (line ∷ lines) numbers x h h' =
      line-Agrees fuel fuel' k k' line lines numbers x (is_comment s line) refl (loop-Agrees fuel)
        (omega arith) h'

  -- A thread that is let run executes the commands of its file to the end, in as many turns as there
  -- are lines at most, and does what it would do on the file without its comment lines.
  pub cmdinterpreter_main_proc_lem :
      (lines : List Line) (x : Executed Line)
      → Together
          (cmdinterpreter_main_proc s always lines x)
          (cmdinterpreter_main_proc s always (uncommented lines) x)
  unfolding cmdinterpreter_main_proc
  cmdinterpreter_main_proc_lem lines x =
      loop-Agrees (suc (length lines)) (suc (length (uncommented lines))) 0 0 lines (0, 0) x
        (omega arith) (omega arith)
