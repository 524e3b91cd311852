-- ===== src/Accumulator/Obsolate.antt =====
-- `_obsolate_records`: what it sends back, what it keeps, and that it ends.
use ntrt.Prelude.{
  plus_zero, shift, ℕ, zero, suc, ◌+◌, ◌<◌, ◌≡◌, ◌∙◌, refl, ap, subst, Bool, true, false, some,
  List, [], ◌∷◌, ◌++◌, arith, length, Bool-cases, inl, inr,
}
use ntrt.Clock.{Mtime, diffmtime_fromnow, ltb_ℤ}
use ntrt.Record.{Record}
use ntrt.Puffer
use ntrt.Puffer.{Puffer}
use ntrt.Puffer.Holds
use ntrt.Puffer.Holds.{Holds}
use ntrt.Accumulator.{Accumulator, Step, drop_first, obsolate_loop, obsolate_records}
use ntrt.Accumulator.Window.{Window, drop_first_lem}

-- The record is older than `time` at a reading of the clock.
abbrev pub is_old : ℕ → Mtime → Record → Bool
is_old time now r = ltb_ℤ time (diffmtime_fromnow now r.timestamp)

-- The records are old, each at the reading of its round, from reading `k` on.
abbrev pub AllOld : ℕ → (ℕ → Mtime) → ℕ → List Record → Type 0
AllOld time now k [] = Unit
AllOld time now k (r ∷ rs) = (is_old time (now k) r ≡ true) × AllOld time now (k + 1) rs

-- The first of the records, if there is one, is not old at reading `k`.
abbrev pub FirstNew : ℕ → (ℕ → Mtime) → ℕ → List Record → Type 0
FirstNew time now k [] = Unit
FirstNew time now k (r ∷ rs) = is_old time (now k) r ≡ false

-- A run returned: it sent the old records at the front of the window and kept the rest.
pub record Obsolated (run : Step) (time : ℕ) (now : ℕ → Mtime) (k : ℕ) (a : Accumulator)
    (q pushed : List Record) : Type 0 where
  pub sent : List Record
  pub next : Accumulator
  pub kept : List Record
  pub runs : run ≡ some (sent, next)
  pub conserved : sent ++ kept ≡ q
  pub old : AllOld time now k sent
  pub new : FirstNew time now (k + length sent) kept
  pub same_length : next.length ≡ a.length
  pub window : Window next kept pushed

empty_puffer : (p : Puffer Record) → Holds p [] → Puffer.is_empty p ≡ true
empty_puffer p h = (Holds.is_empty_lem p [] h).1 refl

nonempty_puffer :
    (p : Puffer Record) (x : Record) (q : List Record) → Holds p (x ∷ q) → Puffer.is_empty p ≡ false
nonempty_puffer p x q h = ground (arith, Holds.is_empty_lem p (x ∷ q) h)

module _ (time : ℕ) (now : ℕ → Mtime) where
  loop_empty :
      (n k : ℕ) (a : Accumulator) (p : Puffer Record)
      → Puffer.is_empty p ≡ true
      → obsolate_loop (suc n) time now k a p ≡ some ([], a)
  unfolding obsolate_loop
  loop_empty n k a p e = cc

  loop_new :
      (n k : ℕ) (a : Accumulator) (p : Puffer Record) (x : Record)
      → Puffer.is_empty p ≡ false
      → Puffer.peek_first p ≡ some x
      → is_old time (now k) x ≡ false
      → obsolate_loop (suc n) time now k a p ≡ some ([], a)
  unfolding obsolate_loop
  loop_new n k a p x e f o = cc

  loop_old :
      (n k : ℕ) (a b c : Accumulator) (p p' : Puffer Record) (x : Record) (sent : List Record)
      → Puffer.is_empty p ≡ false
      → Puffer.peek_first p ≡ some x
      → is_old time (now k) x ≡ true
      → drop_first a p ≡ some (x, b)
      → b.records ≡ some p'
      → obsolate_loop n time now (k + 1) b p' ≡ some (sent, c)
      → obsolate_loop (suc n) time now k a p ≡ some (x ∷ sent, c)
  unfolding obsolate_loop
  loop_old n k a b c p p' x sent e f o d r i = cc

  obsolate_started :
      (a : Accumulator) (p : Puffer Record)
      → a.records ≡ some p
      → obsolate_records time now a ≡ obsolate_loop (suc p.count) time now 0 a p
  unfolding obsolate_records
  obsolate_started a p e = cc

  obsolate_loop_lem :
      (n k : ℕ) (a : Accumulator) (q pushed : List Record) (w : Window a q pushed)
      → length q < n
      → Obsolated (obsolate_loop n time now k a w.puffer) time now k a q pushed
  obsolate_loop_lem zero k a q pushed w l = absurd (omega arith)
  obsolate_loop_lem (suc n) k a [] pushed w l = record {
    sent = [];
    next = a;
    kept = [];
    runs = loop_empty n k a w.puffer (empty_puffer w.puffer w.holds);
    conserved = refl;
    old = tt;
    new = tt;
    same_length = refl;
    window = w;
  }
  obsolate_loop_lem (suc n) k a (x ∷ q) pushed w l = elim (Bool-cases (is_old time (now k) x)) [
    | inr o ↦ record {
      sent = [];
      next = a;
      kept = x ∷ q;
      runs =
          loop_new n k a w.puffer x (nonempty_puffer w.puffer x q w.holds)
            (Holds.peek_first_lem w.puffer x q w.holds) o;
      conserved = refl;
      old = tt;
      new = subst (λ j. is_old time (now j) x ≡ false) (plus_zero k) o;
      same_length = refl;
      window = w;
    }
    | inl o ↦
        let d = drop_first_lem a x q pushed w in
        let i = obsolate_loop_lem n (k + 1) d.next q pushed d.window (omega arith) in
        record {
          sent = x ∷ i.sent;
          next = i.next;
          kept = i.kept;
          runs =
              loop_old n k a d.next i.next w.puffer d.window.puffer x i.sent
                (nonempty_puffer w.puffer x q w.holds) (Holds.peek_first_lem w.puffer x q w.holds) o
                d.runs d.window.kept i.runs;
          conserved = ap (λ t. x ∷ t) i.conserved;
          old = (o, i.old);
          new = subst (λ j. FirstNew time now j i.kept) (shift k (length i.sent)) i.new;
          same_length = i.same_length ∙ d.same_length;
          window = i.window;
        }
  ]

  -- On an accumulator that holds the records `q`, `_obsolate_records` returns; it sends the old
  -- records at the front back, each old when it was looked at, keeps the others in their order, the
  -- first of which was not old, and the sums are those of the records kept.
  pub obsolate_records_lem :
      (a : Accumulator) (q pushed : List Record)
      → Window a q pushed
      → Obsolated (obsolate_records time now a) time now 0 a q pushed
  obsolate_records_lem a q pushed w =
      let i =
        obsolate_loop_lem (suc w.puffer.count) 0 a q pushed w (omega (arith, w.holds.counted)) in
      record {
        sent = i.sent;
        next = i.next;
        kept = i.kept;
        runs = obsolate_started a w.puffer w.kept ∙ i.runs;
        conserved = i.conserved;
        old = i.old;
        new = i.new;
        same_length = i.same_length;
        window = i.window;
      }
