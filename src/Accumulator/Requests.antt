-- ===== src/Accumulator/Requests.antt =====
-- The entry points of the accumulator component keep its invariant, and what a request answers.
use ntrt.Prelude.{
  ℕ, ◌+◌, ◌%◌, ◌^◌, ◌≤◌, ◌<◌, ◌≡◌, ◌≢◌, refl, ap, Option, none, some, List, [], ◌∷◌, ◌++◌, arith,
  length, get_elem?, get_or, set, length-set, get_or-set_ne,
}
use ntrt.Clock.{Mtime}
use ntrt.Record.{Record}
use ntrt.Accumulator.{Accumulator, push_record, obsolate_records}
use ntrt.Accumulator.Sums.{item, sum_at}
use ntrt.Accumulator.Window.{Window}
use ntrt.Accumulator.Push.{push_record_lem}
use ntrt.Accumulator.Obsolate.{AllOld, FirstNew, obsolate_records_lem}
use ntrt.Accumulator.Component.{
  CmpAccumulator, zero_accumulator, record_receiver, Answer, features_requester,
}
use ntrt.Accumulator.Sound.{
  holding, AllSound, set-AllSound, get_elem?-get_or, obsolate_all-AllObsolates,
}

abbrev pub at : CmpAccumulator → ℕ → Accumulator
at c i = get_or c.accumulators i zero_accumulator

-- A record receiver's run: no fault, and a sound component of as many accumulators.
pub record Receives (now : ℕ → ℕ → Mtime) (c : CmpAccumulator) (input : Option Record)
    : Type 0 where
  pub sent : List Record
  pub next : CmpAccumulator
  pub runs : record_receiver now c input ≡ some (sent, next)
  pub sound : AllSound next.accumulators
  pub same_length : length next.accumulators ≡ length c.accumulators

pub receive_runs :
    (now : ℕ → ℕ → Mtime) (c : CmpAccumulator) (r : Record) (id : ℕ) (a b : Accumulator)
    (sent : List Record)
    → r.listener_id ≡ id
    → get_elem? c.accumulators id ≡ some a
    → push_record a r ≡ some (sent, b)
    → record_receiver now c (some r)
      ≡ some (sent, record c { accumulators = set c.accumulators id b })
unfolding record_receiver
receive_runs now c r id a b sent i e f = cc

-- An impulse makes every accumulator of a sound component drop its old records, without a fault,
-- whatever the clock reads, and the component stays sound.
pub record_receiver-impulse :
    (now : ℕ → ℕ → Mtime) (c : CmpAccumulator) → AllSound c.accumulators → Receives now c none
unfolding record_receiver
record_receiver-impulse now c h =
    let d = obsolate_all-AllObsolates c.accumulation_time now 0 c.accumulators h in
    record {
      sent = d.sent;
      next = record c { accumulators = d.final };
      runs =
          ap
            (λ t. elim t [
              | none ↦ none
              | some (sent, xs) ↦ some (sent, record c { accumulators = xs })
            ])
            d.runs;
      sound = d.sound;
      same_length = d.same_length;
    }

-- A record of a started listener is received without a fault, and the component stays sound.
pub record_receiver-record :
    (now : ℕ → ℕ → Mtime) (c : CmpAccumulator) (r : Record) (q pushed : List Record)
    → AllSound c.accumulators
    → r.listener_id < length c.accumulators
    → Window (at c r.listener_id) q pushed
    → (at c r.listener_id).length ≤ length r.items
    → Receives now c (some r)
record_receiver-record now c r q pushed h l w v =
    let p = push_record_lem (at c r.listener_id) r q pushed w v in
    record {
      sent = p.sent;
      next = record c { accumulators = set c.accumulators r.listener_id p.next };
      runs =
          receive_runs now c r r.listener_id (at c r.listener_id) p.next p.sent refl
            (get_elem?-get_or c.accumulators r.listener_id l) p.runs;
      sound =
          set-AllSound c.accumulators r.listener_id p.next h
            (holding p.kept (pushed ++ r ∷ []) p.window) l;
      same_length = length-set c.accumulators r.listener_id p.next;
    }

-- What a request for a listener answers and leaves, where its accumulator held the records `q`.
pub record Requested (now : ℕ → Mtime) (c : CmpAccumulator) (id other : ℕ) (q pushed : List Record)
    : Type 0 where
  pub answer : Answer
  pub kept : List Record
  pub runs : features_requester now c id ≡ some answer
  pub conserved : answer.sent ++ kept ≡ q
  pub old : AllOld c.accumulation_time now 0 answer.sent
  pub new : FirstNew c.accumulation_time now (0 + length answer.sent) kept
  pub result : (i : ℕ) → i < (at c id).length → item i answer.result ≡ sum_at i kept % 2 ^ 32
  pub total : (i : ℕ) → i < (at c id).length → item i answer.total ≡ sum_at i pushed % 2 ^ 32
  pub sound : AllSound answer.next.accumulators
  pub others : at answer.next other ≡ at c other

pub request_runs :
    (now : ℕ → Mtime) (c : CmpAccumulator) (id : ℕ) (a b : Accumulator) (sent : List Record)
    → get_elem? c.accumulators id ≡ some a
    → obsolate_records c.accumulation_time now a ≡ some (sent, b)
    → features_requester now c id
      ≡ some (record {
        result = b.result;
        total = b.total;
        sent = sent;
        next = record c { accumulators = set c.accumulators id b };
      })
unfolding features_requester
request_runs now c id a b sent e f = cc

-- A request for a started listener is answered, with the sums of the records of the accumulation
-- time and of all records, item by item modulo 2^32: the records at the front that are too old are
-- sent back first. Any other listener is left alone and the component stays sound.
pub features_requester_lem :
    (now : ℕ → Mtime) (c : CmpAccumulator) (id other : ℕ) (q pushed : List Record)
    → AllSound c.accumulators
    → id < length c.accumulators
    → id ≢ other
    → Window (at c id) q pushed
    → Requested now c id other q pushed
features_requester_lem now c id other q pushed h l ne w =
    let d = obsolate_records_lem c.accumulation_time now (at c id) q pushed w in
    record {
      answer = record {
        result = d.next.result;
        total = d.next.total;
        sent = d.sent;
        next = record c { accumulators = set c.accumulators id d.next };
      };
      kept = d.kept;
      runs =
          request_runs now c id (at c id) d.next d.sent (get_elem?-get_or c.accumulators id l)
            d.runs;
      conserved = d.conserved;
      old = d.old;
      new = d.new;
      result = λ i k. d.window.result_sum i (omega (arith, d.same_length));
      total = λ i k. d.window.total_sum i (omega (arith, d.same_length));
      sound = set-AllSound c.accumulators id d.next h (holding d.kept pushed d.window) l;
      others = get_or-set_ne c.accumulators id other d.next zero_accumulator ne;
    }
