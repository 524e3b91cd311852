-- ===== src/Accumulator/Component.antt =====
-- cmp/cmp_accumulator.c, the entry points on the array of accumulators, one for each listener.
-- `none` is a fault. Reading `k` of the clock in the loop of accumulator `i` is `now i k`.
use ntrt.Prelude.{
  ℕ, ◌+◌, Option, none, some, List, [], ◌∷◌, ◌++◌, map, get_elem?, get_or, set, replicate,
}
use ntrt.Clock.{Mtime}
use ntrt.Record.{Record, zero_record}
use ntrt.Puffer
use ntrt.Puffer.{Puffer}
use ntrt.Dmap.{Row}
use ntrt.Listener.{Listener, max_pcapls_num}
use ntrt.Accumulator.{Accumulator, push_record, obsolate_records}

-- `cmp_accumulator_t`.
pub record CmpAccumulator : Type 0 where
  pub accumulators : List Accumulator
  pub accumulation_time : ℕ

-- An accumulator after `memset`.
unfoldable pub zero_accumulator : Accumulator
unfolding zero_record
zero_accumulator = record { records = none; result = zero_record; length = 0; total = zero_record }

-- The body of the loop of `_accumulator_start`, for the listener at `index`.
unfoldable pub start_one : ℕ → Listener → Accumulator
unfolding zero_record
start_one index l = record {
  records = some (Puffer.ctor l.puffer_size);
  result = record zero_record { listener_id = index };
  total = zero_record;
  length = l.feature_num;
}

-- The loop of `_accumulator_start` over the rows that the iteration of the table visits.
unfoldable pub start_loop : List (ℕ × Row Listener) → List Accumulator → Option (List Accumulator)
unfolding start_one
start_loop [] accumulators = some accumulators
start_loop ((i, row) ∷ rows) accumulators = elim row.item [
  | none ↦ none
  | some l ↦ start_loop rows (set accumulators i (start_one i l))
]

-- `_accumulator_start`, with the accumulation time of the system data.
unfoldable pub accumulator_start :
    ℕ → List (ℕ × Row Listener) → CmpAccumulator → Option CmpAccumulator
unfolding start_loop
accumulator_start time rows c = elim (start_loop rows c.accumulators) [
  | none ↦ none
  | some accumulators ↦ some (record { accumulators = accumulators; accumulation_time = time })
]

-- `_accumulator_stop`: the puffers given to their destructor, and the accumulators, all cleared.
unfoldable pub accumulator_stop :
    List (ℕ × Row Listener) → CmpAccumulator → List (Option (Puffer Record)) × CmpAccumulator
unfolding zero_accumulator
accumulator_stop rows c = (
  map (λ (i, row). (get_or c.accumulators i zero_accumulator).records) rows,
  record c { accumulators = replicate max_pcapls_num zero_accumulator },
)

-- `_accumulator_restart`.
unfoldable pub accumulator_restart :
    ℕ
    → List (ℕ × Row Listener)
    → CmpAccumulator
    → List (Option (Puffer Record)) × Option CmpAccumulator
unfolding accumulator_stop accumulator_start
accumulator_restart time rows c =
    let (gone, c') = accumulator_stop rows c in (gone, accumulator_start time rows c')

-- The loop of `_accumulator_record_receiver` for an impulse, from accumulator `i` on.
unfoldable pub obsolate_all :
    ℕ → (ℕ → ℕ → Mtime) → ℕ → List Accumulator → Option (List Record × List Accumulator)
unfolding obsolate_records
obsolate_all time now i [] = some ([], [])
obsolate_all time now i (a ∷ rest) = elim (obsolate_records time (now i) a) [
  | none ↦ none
  | some (sent, a') ↦ elim (obsolate_all time now (i + 1) rest) [
    | none ↦ none
    | some (sents, rest') ↦ some (sent ++ sents, a' ∷ rest')
  ]
]

-- `_accumulator_record_receiver`: the records sent back, and the component; NULL is the impulse.
unfoldable pub record_receiver :
    (ℕ → ℕ → Mtime) → CmpAccumulator → Option Record → Option (List Record × CmpAccumulator)
unfolding obsolate_all push_record
record_receiver now c none = elim (obsolate_all c.accumulation_time now 0 c.accumulators) [
  | none ↦ none
  | some (sent, accumulators) ↦ some (sent, record c { accumulators = accumulators })
]
record_receiver now c (some r) = elim (get_elem? c.accumulators r.listener_id) [
  | none ↦ none
  | some a ↦ elim (push_record a r) [
    | none ↦ none
    | some (sent, a') ↦ some (sent, record c { accumulators = set c.accumulators r.listener_id a' })
  ]
]

-- What `_accumulator_features_requester` gives: the copies of the sums, the records sent back, and
-- the component.
pub record Answer : Type 0 where
  pub result : Record
  pub total : Record
  pub sent : List Record
  pub next : CmpAccumulator

-- `_accumulator_features_requester`.
unfoldable pub features_requester : (ℕ → Mtime) → CmpAccumulator → ℕ → Option Answer
unfolding obsolate_records
features_requester now c listener_id = elim (get_elem? c.accumulators listener_id) [
  | none ↦ none
  | some a ↦ elim (obsolate_records c.accumulation_time now a) [
    | none ↦ none
    | some (sent, a') ↦ some (record {
      result = a'.result;
      total = a'.total;
      sent = sent;
      next = record c { accumulators = set c.accumulators listener_id a' };
    })
  ]
]
