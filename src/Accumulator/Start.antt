-- ===== src/Accumulator/Start.antt =====
-- `_accumulator_start` over the listener table: the windows of the listeners begin empty.
use ntrt.Prelude.{
  zero, suc, ltb, ltb→lt, Bool-cases, inl, inr, ℕ, ◌+◌, ◌≤◌, ◌<◌, ◌≡◌, ◌∙◌, refl, ap, sym, subst,
  Option, none, some, List, [], ◌∷◌, arith, length, get_or, set, length-replicate,
  get_or-replicate_same,
}
use ntrt.Record.{zero_record, max_features_num}
use ntrt.Listener.{Listener}
use ntrt.Puffer
use ntrt.Puffer.Holds
use ntrt.Dmap.{Row, visit_all}
use ntrt.Dmap.Walk.{entries, visit_all_lem}
use ntrt.Dmap.Update.{AllItems, update, updated, update_lem}
use ntrt.Accumulator.{Accumulator}
use ntrt.Accumulator.Window.{Window}
use ntrt.Accumulator.Sound.{Sound, holding, AllSound, zero_accumulator-Sound}
use ntrt.Accumulator.Component.{
  CmpAccumulator, zero_accumulator, start_one, start_loop, accumulator_start,
}

pub start_one-Window :
    (i : ℕ) (l : Listener)
    → 0 < l.puffer_size
    → l.feature_num ≤ max_features_num
    → Window (start_one i l) [] []
unfolding start_one zero_record
start_one-Window i l h k = record {
  puffer = Puffer.ctor l.puffer_size;
  kept = refl;
  holds = Holds.ctor_lem l.puffer_size h;
  result_wide = subst (λ n. l.feature_num ≤ n) (sym (length-replicate {A = ℕ} 64 0)) k;
  total_wide = subst (λ n. l.feature_num ≤ n) (sym (length-replicate {A = ℕ} 64 0)) k;
  wide = tt;
  result_sum = λ j _. get_or-replicate_same 64 0 j;
  total_sum = λ j _. get_or-replicate_same 64 0 j;
}

started : ℕ → Listener → Accumulator → Accumulator
started i l a = start_one i l

start_step :
    (o : Option Listener) (rows : List (ℕ × Row Listener)) (i : ℕ) (xs : List Accumulator)
    → ((ys : List Accumulator) → start_loop rows ys ≡ update started zero_accumulator rows ys)
    → elim o [ none ↦ none | some l ↦ start_loop rows (set xs i (start_one i l)) ] ≡ elim o [
      | none ↦ none
      | some l ↦
          update started zero_accumulator rows
            (set xs i (started i l (get_or xs i zero_accumulator)))
    ]
unfolding started
start_step none rows i xs h = refl
start_step (some l) rows i xs h = h (set xs i (start_one i l))

start_loop-update :
    (rows : List (ℕ × Row Listener)) (xs : List Accumulator)
    → start_loop rows xs ≡ update started zero_accumulator rows xs
unfolding start_loop update
start_loop-update [] xs = refl
start_loop-update ((i, row) ∷ rows) xs = start_step row.item rows i xs (start_loop-update rows)

-- The start ended, and listener `l` at index `i` has a fresh accumulator.
pub record Started (time : ℕ) (rows : List (Option (Row Listener))) (c : CmpAccumulator) (i : ℕ)
    (l : Listener) : Type 0 where
  pub next : CmpAccumulator
  pub runs : accumulator_start time (visit_all rows) c ≡ some next
  pub same_time : next.accumulation_time ≡ time
  pub same_length : length next.accumulators ≡ length c.accumulators
  pub window : Window (get_or next.accumulators i zero_accumulator) [] []
  pub features : (get_or next.accumulators i zero_accumulator).length ≡ l.feature_num

run_start :
    (time : ℕ) (rows : List (ℕ × Row Listener)) (c : CmpAccumulator) (xs : List Accumulator)
    → start_loop rows c.accumulators ≡ some xs
    → accumulator_start time rows c ≡ some (record { accumulators = xs; accumulation_time = time })
unfolding accumulator_start
run_start time rows c xs e = cc

zero_plus : (n : ℕ) → 0 + n ≡ n
zero_plus n = omega arith

started_cell :
    (i : ℕ) (row : Row Listener) (l : Listener) (a : Accumulator)
    → row.item ≡ some l
    → updated started zero_accumulator i (some row) a ≡ start_one i l
unfolding started
started_cell i row l a e = cc

start_one-length : (i : ℕ) (l : Listener) → (start_one i l).length ≡ l.feature_num
unfolding start_one
start_one-length i l = refl

-- On a table of listeners without a NULL item, no longer than the array, the start ends without a
-- fault; a listener of the table whose puffer has room and that has at most 64 features begins with
-- an empty window, zero sums, and the number of its features.
pub accumulator_start_lem :
    (time : ℕ) (rows : List (Option (Row Listener))) (c : CmpAccumulator) (i : ℕ)
    (row : Row Listener) (l : Listener)
    → AllItems rows
    → length rows ≤ length c.accumulators
    → i < length rows
    → get_or rows i none ≡ some row
    → row.item ≡ some l
    → 0 < l.puffer_size
    → l.feature_num ≤ max_features_num
    → Started time rows c i l
accumulator_start_lem time rows c i row d h l k e f p n =
    let u = update_lem started zero_accumulator 0 rows c.accumulators h (omega arith) in
    let cell : get_or u.final i zero_accumulator ≡ start_one i d =
      ap (λ j. get_or u.final j zero_accumulator) (sym (zero_plus i))
      ∙ u.cells i k
      ∙ ap
          (λ j.
            updated started zero_accumulator j (get_or rows i none)
              (get_or c.accumulators j zero_accumulator))
          (zero_plus i)
      ∙ ap (λ r. updated started zero_accumulator i r (get_or c.accumulators i zero_accumulator)) e
      ∙ started_cell i row d (get_or c.accumulators i zero_accumulator) f in
    record {
      next = record { accumulators = u.final; accumulation_time = time };
      runs = run_start time (visit_all rows) c u.final (
          ap (λ v. start_loop v c.accumulators) (visit_all_lem rows)
          ∙ start_loop-update (entries 0 rows) c.accumulators
          ∙ u.runs);
      same_time = refl;
      same_length = u.same_length;
      window = subst (λ a. Window a [] []) (sym cell) (start_one-Window i d p n);
      features = ap (λ a. a.length) cell ∙ start_one-length i d;
    }

-- Every listener of the table has a puffer with room and at most 64 features.
abbrev pub AllFit : List (Option (Row Listener)) → Type 0
AllFit [] = Unit
AllFit (none ∷ rows) = AllFit rows
AllFit (some r ∷ rows) =
    ((l : Listener) × (r.item ≡ some l) × (0 < l.puffer_size) × (l.feature_num ≤ max_features_num))
    × AllFit rows

pub AllFit-AllItems : (rows : List (Option (Row Listener))) → AllFit rows → AllItems rows
AllFit-AllItems [] h = tt
AllFit-AllItems (none ∷ rows) h = AllFit-AllItems rows h
AllFit-AllItems (some r ∷ rows) ((l, e, p, n), h) = ((l, e), AllFit-AllItems rows h)

updated-Sound :
    (j i : ℕ) (rows : List (Option (Row Listener))) (a : Accumulator)
    → AllFit rows
    → Sound a
    → Sound (updated started zero_accumulator j (get_or rows i none) a)
unfolding started
updated-Sound j i [] a h s = s
updated-Sound j zero (none ∷ rows) a h s = s
updated-Sound j zero (some r ∷ rows) a ((l, e, p, n), h) s =
    subst Sound (sym (started_cell j r l a e)) (holding [] [] (start_one-Window j l p n))
updated-Sound j (suc i) (none ∷ rows) a h s = updated-Sound j i rows a h s
updated-Sound j (suc i) (some r ∷ rows) a (f, h) s = updated-Sound j i rows a h s

past_end : (xs : List Accumulator) (i : ℕ) → length xs ≤ i → Sound (get_or xs i zero_accumulator)
past_end [] i h = zero_accumulator-Sound
past_end (x ∷ xs) zero h = absurd (omega arith)
past_end (x ∷ xs) (suc i) h = past_end xs i (omega arith)

-- The start over a table as long as the array leaves a sound component.
pub accumulator_start-AllSound :
    (time : ℕ) (rows : List (Option (Row Listener))) (c next : CmpAccumulator)
    → AllFit rows
    → length rows ≡ length c.accumulators
    → AllSound c.accumulators
    → accumulator_start time (visit_all rows) c ≡ some next
    → AllSound next.accumulators
accumulator_start-AllSound time rows c next f l h e =
    let u =
      update_lem started zero_accumulator 0 rows c.accumulators (AllFit-AllItems rows f)
        (omega arith) in
    let runs : accumulator_start time (visit_all rows) c
        ≡ some (record { accumulators = u.final; accumulation_time = time }) =
      run_start time (visit_all rows) c u.final (
        ap (λ v. start_loop v c.accumulators) (visit_all_lem rows)
        ∙ start_loop-update (entries 0 rows) c.accumulators
        ∙ u.runs) in
    let same : u.final ≡ next.accumulators =
      ap (λ o. elim o [ none ↦ u.final | some x ↦ x.accumulators ]) (sym runs ∙ e) in
    subst AllSound same (record {
      each = λ i. elim (Bool-cases (ltb i (length rows))) [
        | inl k ↦ subst Sound (ap (λ j. get_or u.final j zero_accumulator) (zero_plus i)) (
            subst Sound (sym (u.cells i (ltb→lt i (length rows) k))) (
              updated-Sound (0 + i) i rows (get_or c.accumulators (0 + i) zero_accumulator) f
                (h.each (0 + i))))
        | inr k ↦ past_end u.final i (ground (arith, u.same_length, l))
      ];
    })
