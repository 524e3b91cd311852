-- ===== src/Accumulator.antt =====
-- cmp/cmp_accumulator.c: per listener, a puffer of the records of the accumulation time, their sum,
-- and the sum of all records. `none` is a fault: a NULL puffer or record is read, or a listener
-- index is out of range. Records that leave the window are sent back to be recycled. The mutex, which
-- makes each entry point one step, is left out.
pub mod Sums
pub mod Window
pub mod Push
pub mod Obsolate
pub mod Component
pub mod History
pub mod Sound
pub mod Requests
pub mod Impulse
pub mod Start
pub mod Sample
mod Tests
use ntrt.Prelude.{
  ℕ, zero, suc, ◌+◌, Bool, true, false, Option, none, some, List, [], ◌∷◌, ◌++◌, if◌then◌else◌,
}
use ntrt.Prelude.Word.{add32, sub32}
use ntrt.Clock.{Mtime, diffmtime_fromnow, ltb_ℤ}
use ntrt.Record.{Record, zero_record}
use ntrt.Puffer
use ntrt.Puffer.{Puffer}

-- `accumulator_t`.
pub record Accumulator : Type 0 where
  pub records : Option (Puffer Record)
  pub result : Record
  pub length : ℕ
  pub total : Record

-- `for(i=0; i<length; ++i) xs[i] += ys[i]`, on uint32_t cells. A loop past the end of an array, which
-- the source does not check, stops there.
unfoldable pub add_items : ℕ → List ℕ → List ℕ → List ℕ
add_items zero xs ys = xs
add_items (suc n) [] ys = []
add_items (suc n) (x ∷ xs) [] = x ∷ xs
add_items (suc n) (x ∷ xs) (y ∷ ys) = add32 x y ∷ add_items n xs ys

-- `for(i=0; i<length; ++i) xs[i] -= ys[i]`.
unfoldable pub sub_items : ℕ → List ℕ → List ℕ → List ℕ
sub_items zero xs ys = xs
sub_items (suc n) [] ys = []
sub_items (suc n) (x ∷ xs) [] = x ∷ xs
sub_items (suc n) (x ∷ xs) (y ∷ ys) = sub32 x y ∷ sub_items n xs ys

-- `_records_subtract`.
unfoldable pub records_subtract : Record → Record → ℕ → Record
records_subtract result subtraction n = record result {
  items = sub_items n result.items subtraction.items;
}

-- `_records_addition`.
unfoldable pub records_addition : Record → Record → ℕ → Record
records_addition result addition n = record result {
  items = add_items n result.items addition.items;
}

-- What a step sends back, and the accumulator that it leaves.
abbrev pub Step : Type 0
Step = Option (List Record × Accumulator)

-- The oldest record is read from the puffer, subtracted, and sent.
unfoldable pub drop_first : Accumulator → Puffer Record → Option (Record × Accumulator)
unfolding records_subtract
drop_first a p =
    let (item, p') = Puffer.read p in
    elim item [
      | none ↦ none
      | some r ↦
          some (r, record a { records = some p'; result = records_subtract a.result r a.length })
    ]

-- The end of `_push_record`, where there is room.
unfoldable pub append_record : Accumulator → Record → Option Accumulator
unfolding records_addition
append_record a r = elim a.records [
  | none ↦ none
  | some p ↦ some (record a {
    result = records_addition a.result r a.length;
    total = records_addition a.total r a.length;
    records = some (Puffer.write p r);
  })
]

-- The step of `_push_record` on a full puffer.
unfoldable pub make_room : Accumulator → Puffer Record → Step
unfolding drop_first
make_room a p =
    if Puffer.is_full p
    then elim (drop_first a p) [ none ↦ none | some (r, a') ↦ some (r ∷ [], a') ]
    else some ([], a)

-- `_push_record`.
unfoldable pub push_record : Accumulator → Record → Step
push_record a r = elim a.records [
  | none ↦ none
  | some p ↦ elim (make_room a p) [
    | none ↦ none
    | some (sent, a') ↦ elim (append_record a' r) [ none ↦ none | some a'' ↦ some (sent, a'') ]
  ]
]

-- The loop of `_obsolate_records`; round `k` takes reading `k` of the clock. Each round that goes on
-- takes a record from the puffer, so a count above the number of records is enough rounds.
unfoldable pub obsolate_loop : ℕ → ℕ → (ℕ → Mtime) → ℕ → Accumulator → Puffer Record → Step
obsolate_loop zero time now k a p = none
obsolate_loop (suc n) time now k a p =
    if Puffer.is_empty p then some ([], a) else elim (Puffer.peek_first p) [
      | none ↦ none
      | some r ↦ elim (ltb_ℤ time (diffmtime_fromnow (now k) r.timestamp)) [
        | false ↦ some ([], a)
        | true ↦ elim (drop_first a p) [
          | none ↦ none
          | some (r', a') ↦ elim a'.records [
            | none ↦ none
            | some p' ↦ elim (obsolate_loop n time now (k + 1) a' p') [
              | none ↦ none
              | some (sent, a'') ↦ some (r' ∷ sent, a'')
            ]
          ]
        ]
      ]
    ]

-- `_obsolate_records`; an accumulator that is not started has nothing to drop.
unfoldable pub obsolate_records : ℕ → (ℕ → Mtime) → Accumulator → Step
unfolding obsolate_loop
obsolate_records time now a = elim a.records [
  | none ↦ some ([], a)
  | some p ↦ obsolate_loop (suc p.count) time now 0 a p
]
