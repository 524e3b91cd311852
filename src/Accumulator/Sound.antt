-- ===== src/Accumulator/Sound.antt =====
-- The invariant of the accumulator component, kept by each of its entry points, none of which faults.
use ntrt.Prelude.{
  ℕ, zero, suc, ◌+◌, ◌<◌, ◌≡◌, refl, ◌∙◌, ap, sym, subst, none, some, List, [], ◌∷◌, ◌++◌, arith,
  length, get_elem?, get_or, set, get_or-set_self, get_or-set_ne, inl, inr, ◌==◌, Bool-cases, ==→eq,
}
use ntrt.Clock.{Mtime}
use ntrt.Record.{Record}
use ntrt.Accumulator.{Accumulator, obsolate_records}
use ntrt.Accumulator.Window.{Window}
use ntrt.Accumulator.Obsolate.{obsolate_records_lem}
use ntrt.Accumulator.Component.{zero_accumulator, obsolate_all}

-- An accumulator is not started, or its sums are those of the records that it holds and was given.
pub data Sound (a : Accumulator) : Type 0 where
  stopped : a.records ≡ none → Sound a
  holding : (q pushed : List Record) → Window a q pushed → Sound a

-- Every accumulator of the component is sound.
pub record AllSound (xs : List Accumulator) : Type 0 where
  pub each : (i : ℕ) → Sound (get_or xs i zero_accumulator)

pub zero_accumulator-Sound : Sound zero_accumulator
unfolding zero_accumulator
zero_accumulator-Sound = stopped refl

pub set-AllSound :
    (xs : List Accumulator) (i : ℕ) (a : Accumulator)
    → AllSound xs
    → Sound a
    → i < length xs
    → AllSound (set xs i a)
set-AllSound xs i a h s l = record {
  each = λ j. elim (Bool-cases (i == j)) [
    | inl e ↦
        subst (λ k. Sound (get_or (set xs i a) k zero_accumulator)) (==→eq i j e)
          (subst Sound (sym (get_or-set_self xs i a zero_accumulator l)) s)
    | inr e ↦
        subst Sound (sym (get_or-set_ne xs i j a zero_accumulator (λ k. ground arith))) (h.each j)
  ];
}

pub get_elem?-get_or :
    (xs : List Accumulator) (i : ℕ)
    → i < length xs
    → get_elem? xs i ≡ some (get_or xs i zero_accumulator)
get_elem?-get_or [] i l = absurd (omega arith)
get_elem?-get_or (x ∷ xs) zero l = refl
get_elem?-get_or (x ∷ xs) (suc i) l = get_elem?-get_or xs i (omega arith)

-- Dropping the old records of a sound accumulator ends, and leaves it sound.
pub record Obsolates (time : ℕ) (now : ℕ → Mtime) (a : Accumulator) : Type 0 where
  pub sent : List Record
  pub next : Accumulator
  pub runs : obsolate_records time now a ≡ some (sent, next)
  pub sound : Sound next

obsolate_records-none :
    (time : ℕ) (now : ℕ → Mtime) (a : Accumulator)
    → a.records ≡ none
    → obsolate_records time now a ≡ some ([], a)
unfolding obsolate_records
obsolate_records-none time now a e = cc

pub obsolate_records-Sound :
    (time : ℕ) (now : ℕ → Mtime) (a : Accumulator) → Sound a → Obsolates time now a
obsolate_records-Sound time now a (stopped e) = record {
  sent = [];
  next = a;
  runs = obsolate_records-none time now a e;
  sound = stopped e;
}
obsolate_records-Sound time now a (holding q pushed w) =
    let d = obsolate_records_lem time now a q pushed w in
    record { sent = d.sent; next = d.next; runs = d.runs; sound = holding d.kept pushed d.window }

pub record AllObsolates (time : ℕ) (now : ℕ → ℕ → Mtime) (i : ℕ) (xs : List Accumulator)
    : Type 0 where
  pub sent : List Record
  pub final : List Accumulator
  pub runs : obsolate_all time now i xs ≡ some (sent, final)
  pub sound : AllSound final
  pub same_length : length final ≡ length xs
  pub each_runs :
      (k : ℕ)
      → k < length xs
      → (s : List Record) × (obsolate_records time (now (i + k)) (get_or xs k zero_accumulator)
          ≡ some (s, get_or final k zero_accumulator))

plus_zero : (i : ℕ) → i + 0 ≡ i
plus_zero i = omega arith

plus_suc : (i k : ℕ) → i + suc k ≡ i + 1 + k
plus_suc i k = omega arith

obsolate_all-runs :
    (time : ℕ) (now : ℕ → ℕ → Mtime) (i : ℕ) (a b : Accumulator) (xs ys : List Accumulator)
    (sent rest : List Record)
    → obsolate_records time (now i) a ≡ some (sent, b)
    → obsolate_all time now (i + 1) xs ≡ some (rest, ys)
    → obsolate_all time now i (a ∷ xs) ≡ some (sent ++ rest, b ∷ ys)
unfolding obsolate_all
obsolate_all-runs time now i a b xs ys sent rest e f = cc

cons_runs :
    (time : ℕ) (now : ℕ → ℕ → Mtime) (i : ℕ) (a b : Accumulator) (xs ys : List Accumulator)
    (sent : List Record)
    → obsolate_records time (now i) a ≡ some (sent, b)
    → ((k : ℕ)
        → k < length xs
        → (s : List Record) × (obsolate_records time
              (now (i + 1 + k))
              (get_or xs k zero_accumulator)
            ≡ some (s, get_or ys k zero_accumulator)))
    → (k : ℕ) → k < length (a ∷ xs)
    → (s : List Record) × (obsolate_records time (now (i + k)) (get_or (a ∷ xs) k zero_accumulator)
        ≡ some (s, get_or (b ∷ ys) k zero_accumulator))
cons_runs time now i a b xs ys sent e f zero l =
    (sent, ap (λ n. obsolate_records time (now n) a) (plus_zero i) ∙ e)
cons_runs time now i a b xs ys sent e f (suc k) l =
    let (s, g) = f k (omega arith) in
    (s, ap (λ n. obsolate_records time (now n) (get_or xs k zero_accumulator)) (plus_suc i k) ∙ g)

cons_cell :
    (a : Accumulator) (xs : List Accumulator)
    → Sound a
    → AllSound xs
    → (i : ℕ) → Sound (get_or (a ∷ xs) i zero_accumulator)
cons_cell a xs s h zero = s
cons_cell a xs s h (suc i) = h.each i

cons-AllSound :
    (a : Accumulator) (xs : List Accumulator) → Sound a → AllSound xs → AllSound (a ∷ xs)
cons-AllSound a xs s h = record { each = cons_cell a xs s h }

tail-AllSound : (a : Accumulator) (xs : List Accumulator) → AllSound (a ∷ xs) → AllSound xs
tail-AllSound a xs h = record { each = λ i. h.each (suc i) }

pub obsolate_all-AllObsolates :
    (time : ℕ) (now : ℕ → ℕ → Mtime) (i : ℕ) (xs : List Accumulator)
    → AllSound xs
    → AllObsolates time now i xs
unfolding obsolate_all
obsolate_all-AllObsolates time now i [] h = record {
  sent = [];
  final = [];
  runs = refl;
  sound = h;
  same_length = refl;
  each_runs = λ k l. absurd (omega arith);
}
obsolate_all-AllObsolates time now i (a ∷ xs) h =
    let d = obsolate_records-Sound time (now i) a (h.each 0) in
    let rest = obsolate_all-AllObsolates time now (i + 1) xs (tail-AllSound a xs h) in
    record {
      sent = d.sent ++ rest.sent;
      final = d.next ∷ rest.final;
      runs = obsolate_all-runs time now i a d.next xs rest.final d.sent rest.sent d.runs rest.runs;
      sound = cons-AllSound d.next rest.final d.sound rest.sound;
      same_length = ap suc rest.same_length;
      each_runs = cons_runs time now i a d.next xs rest.final d.sent d.runs rest.each_runs;
    }
