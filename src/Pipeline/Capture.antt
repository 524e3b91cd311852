-- ===== src/Pipeline/Capture.antt =====
-- A packet on its way through the evaluator and the accumulator.
use ntrt.Prelude.{
  ℕ, ◌≤◌, ◌<◌, ◌≡◌, sym, subst, ap, Option, some, List, [], ◌∷◌, ◌++◌, arith, length, get_elem?,
  set, get_or-set_self, ◌∙◌, refl, length-set,
}
use ntrt.Prelude.Word.{ByteOrder}
use ntrt.Clock.{Mtime}
use ntrt.Record.{Record, max_features_num}
use ntrt.Puffer.{Puffer}
use ntrt.Sniff.{Sniff}
use ntrt.Sniff.Packet.{IsBytes}
use ntrt.Sniff.Memo.{IsValid}
use ntrt.Accumulator.{Accumulator}
use ntrt.Accumulator.Window.{Window}
use ntrt.Accumulator.Component.{CmpAccumulator, zero_accumulator, record_receiver}
use ntrt.Accumulator.Sound.{AllSound, holding, set-AllSound, get_elem?-get_or}
use ntrt.Accumulator.Push.{push_record_lem}
use ntrt.Accumulator.Requests.{at, receive_runs}
use ntrt.Evaluator.{
  CmpEvaluator, CmpEvaluatorItem, evaluator_process, recycle_receiver, recycle_supplier,
}
use ntrt.Evaluator.Recycle.{Stocked, recycle_receiver_lem}
use ntrt.Evaluator.Process.{Evaluated, evaluator_process_lem}
use ntrt.Pipeline.{System, recycle_all, send}

-- What comes back to the puffer keeps it stocked with zero records.
pub record Restocked (p : Puffer Record) (rs : List Record) : Type 0 where
  pub count : ℕ
  pub stocked : Stocked (recycle_all p rs) count

pub recycle_all_lem : (rs : List Record) (p : Puffer Record) (n : ℕ) → Stocked p n → Restocked p rs
unfolding recycle_all
recycle_all_lem [] p n h = record { count = n; stocked = h }
recycle_all_lem (r ∷ rs) p n h =
    let one = recycle_receiver_lem p r n h in
    let rest = recycle_all_lem rs (recycle_receiver p r).1 one.count one.stocked in
    record { count = rest.count; stocked = rest.stocked }

-- The system after the packet.
pub record Captured (o : ByteOrder) (m : ℕ → ℕ) (bytes : IsBytes m) (stamp : Mtime)
    (now : ℕ → ℕ → Mtime) (y : System) (s : Sniff) (e : CmpEvaluatorItem) (q pushed : List Record)
    : Type 0 where
  pub next : System
  pub new : Record
  pub memo : Sniff
  pub item : CmpEvaluatorItem
  pub sent : List Record
  pub kept : List Record
  pub count : ℕ
  pub runs : send o stamp now y (some s) ≡ some (next, some memo)
  pub evaluated : Evaluated o m bytes 0 e.evaluators item.evaluators new.items
  pub memo_valid : IsValid o m memo
  pub same_holders : next.holders ≡ y.holders
  pub same_time : next.accumulator.accumulation_time ≡ y.accumulator.accumulation_time
  pub same_size : length next.accumulator.accumulators ≡ length y.accumulator.accumulators
  pub sound : AllSound y.accumulator.accumulators → AllSound next.accumulator.accumulators
  pub same_width :
      (at next.accumulator s.listener_id).length ≡ (at y.accumulator s.listener_id).length
  pub stamped : new.timestamp ≡ stamp
  pub conserved : sent ++ kept ≡ q ++ new ∷ []
  pub window : Window (at next.accumulator s.listener_id) kept (pushed ++ new ∷ [])
  pub stored : get_elem? next.evaluator.evaluators s.listener_id ≡ some item
  pub recycled : next.evaluator.recycle ≡ recycle_all (recycle_supplier y.evaluator.recycle).1 sent
  pub stocked : Stocked next.evaluator.recycle count

send_runs :
    (o : ByteOrder) (stamp : Mtime) (now : ℕ → ℕ → Mtime) (y : System) (s : Sniff)
    (message : Option Record) (e : CmpEvaluator) (memo : Option Sniff) (sent : List Record)
    (a : CmpAccumulator)
    → evaluator_process o stamp y.evaluator (some s) ≡ some (message, e, memo)
    → record_receiver now y.accumulator message ≡ some (sent, a)
    → send o stamp now y (some s)
      ≡ some (
        record y { evaluator = record e { recycle = recycle_all e.recycle sent }; accumulator = a },
        memo,
      )
unfolding send
send_runs o stamp now y s message e memo sent a f g = cc

-- A packet of a started listener goes through the evaluator and the accumulator without a fault. A
-- record whose cells are what the listener's features mean for the packet joins the listener's
-- window, whose sums are those of its records and of all records ever. The records that leave the
-- window are the oldest; they are given to the recycle puffer, which still holds zero records only.
pub send_lem :
    (o : ByteOrder) (m : ℕ → ℕ) (bytes : IsBytes m) (stamp : Mtime) (now : ℕ → ℕ → Mtime)
    (y : System) (s : Sniff) (e : CmpEvaluatorItem) (n : ℕ) (q pushed : List Record)
    → IsValid o m s
    → Stocked y.evaluator.recycle n
    → get_elem? y.evaluator.evaluators s.listener_id ≡ some e
    → length e.evaluators ≤ max_features_num
    → s.listener_id < length y.accumulator.accumulators
    → Window (at y.accumulator s.listener_id) q pushed
    → (at y.accumulator s.listener_id).length ≤ max_features_num
    → Captured o m bytes stamp now y s e q pushed
send_lem o m bytes stamp now y s e n q pushed v h g l k w f =
    let p = evaluator_process_lem o m bytes stamp y.evaluator s e n v h g l in
    let a : Accumulator = at y.accumulator s.listener_id in
    let r = push_record_lem a p.sent q pushed w (omega (arith, p.wide)) in
    let back = recycle_all_lem r.sent p.next.recycle p.count p.stocked in
    record {
      memo = p.memo;
      memo_valid = p.memo_valid;
      next = record y {
        evaluator = record p.next { recycle = recycle_all p.next.recycle r.sent };
        accumulator = record y.accumulator {
          accumulators = set y.accumulator.accumulators s.listener_id r.next;
        };
      };
      new = p.sent;
      item = p.item;
      sent = r.sent;
      kept = r.kept;
      count = back.count;
      runs =
          send_runs o stamp now y s (some p.sent) p.next (some p.memo) r.sent
            (record y.accumulator {
              accumulators = set y.accumulator.accumulators s.listener_id r.next;
            })
            p.runs
            (receive_runs now y.accumulator p.sent s.listener_id a r.next r.sent p.listener
              (get_elem?-get_or y.accumulator.accumulators s.listener_id k) r.runs);
      evaluated = p.evaluated;
      same_holders = refl;
      same_time = refl;
      same_size = length-set y.accumulator.accumulators s.listener_id r.next;
      sound = λ z.
          set-AllSound y.accumulator.accumulators s.listener_id r.next z
            (holding r.kept (pushed ++ p.sent ∷ []) r.window) k;
      same_width =
          ap (λ b. b.length)
            (get_or-set_self y.accumulator.accumulators s.listener_id r.next zero_accumulator k)
          ∙ r.same_length;
      stamped = p.stamp;
      conserved = r.conserved;
      window =
          subst (λ b. Window b r.kept (pushed ++ p.sent ∷ []))
            (sym
              (get_or-set_self y.accumulator.accumulators s.listener_id r.next zero_accumulator k))
            r.window;
      stored = p.stored;
      recycled = ap (λ t. recycle_all t r.sent) p.supplied;
      stocked = back.stocked;
    }
