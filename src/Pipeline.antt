-- ===== src/Pipeline.antt =====
-- fsm/fsm_cmpactions.c, the components as `_cmps_ntrt_ctor` connects them: the sniffer's packets go
-- to the evaluator, its records to the accumulator, and the records that leave the window back to
-- the evaluator's recycle puffer. With the loop of a sniffer's thread, cmp/cmp_sniffer.c, and the start
-- of these components. Each call runs to its end before the next, as the calls do.
pub mod Capture
pub mod Traffic
pub mod Impulse
pub mod Totals
pub mod Sample
pub mod Start
mod Tests
use ntrt.Prelude.{ℕ, Option, none, some, List, [], ◌∷◌, ltb, if◌then◌else◌}
use ntrt.Prelude.Word.{ByteOrder}
use ntrt.Clock.{Mtime}
use ntrt.Record.{Record}
use ntrt.Puffer.{Puffer}
use ntrt.Sniff.{Sniff, setup_sniff}
use ntrt.Group.{Groupcounter}
use ntrt.Group.Component.{groupcounter_start, groupcounter_sniff_receiver}
use ntrt.Dmap.{Row, visit_all}
use ntrt.Listener.{EvaluatorItem, Listener}
use ntrt.Accumulator.Component.{CmpAccumulator, accumulator_start, record_receiver}
use ntrt.Evaluator.{CmpEvaluator, evaluator_start, recycle_receiver, evaluator_process}

pub record System : Type 0 where
  pub evaluator : CmpEvaluator
  pub accumulator : CmpAccumulator
  pub holders : List (List Groupcounter)

-- The calls of `send_record`, one after the other.
unfoldable pub recycle_all : Puffer Record → List Record → Puffer Record
unfolding recycle_receiver
recycle_all p [] = p
recycle_all p (r ∷ rs) = recycle_all (recycle_receiver p r).1 rs

-- A call of the sniffer's `send`: `stamp` is the evaluator's reading of the clock, `now` are those of
-- the accumulators. The sniff comes back with the memo that the evaluator has left in it.
unfoldable pub send :
    ByteOrder → Mtime → (ℕ → ℕ → Mtime) → System → Option Sniff → Option (System × Option Sniff)
unfolding evaluator_process record_receiver recycle_all
send o stamp now y sniff = elim (evaluator_process o stamp y.evaluator sniff) [
  | none ↦ none
  | some (message, e, memo) ↦ elim (record_receiver now y.accumulator message) [
    | none ↦ none
    | some (sent, a) ↦ some (
      record y { evaluator = record e { recycle = recycle_all e.recycle sent }; accumulator = a },
      memo,
    )
  ]
]

-- The readings of the clock that the components take for a packet.
pub record Readings : Type 0 where
  pub stamp : Mtime
  pub windows : ℕ → ℕ → Mtime
  pub flows : ℕ → Mtime

-- A round of the loop of `_thr_listener_proc_main` for the listener `listener_id`, with a packet, or
-- none of pcap_next, which makes an impulse. The group counter gets the sniff that the evaluator has
-- asked, if the listener has a group counter.
unfoldable pub capture : ByteOrder → Readings → System → ℕ → ℕ → Option (ℕ → ℕ) → Option System
unfolding send setup_sniff groupcounter_sniff_receiver
capture o t y listener_id groupcounter_num none = elim (send o t.stamp t.windows y none) [
  | none ↦ none
  | some (y', _) ↦ some y'
]
capture o t y listener_id groupcounter_num (some packet) =
    elim (send o t.stamp t.windows y (some (setup_sniff packet listener_id))) [
      | none ↦ none
      | some (y', sniff) ↦
          if ltb 0 groupcounter_num
          then some (record y' {
            holders = (groupcounter_sniff_receiver o t.flows y'.holders sniff listener_id).0;
          })
          else some y'
    ]

-- The loop, as long as the thread runs.
unfoldable pub capture_all :
    ByteOrder → System → ℕ → ℕ → List (Readings × Option (ℕ → ℕ)) → Option System
unfolding capture
capture_all o y listener_id groupcounter_num [] = some y
capture_all o y listener_id groupcounter_num ((t, packet) ∷ rest) =
    elim (capture o t y listener_id groupcounter_num packet) [
      | none ↦ none
      | some y' ↦ capture_all o y' listener_id groupcounter_num rest
    ]

-- The calls of `start` in `_sys_start` that fill the arrays of the listeners: accumulator, evaluator
-- and group counter, with the accumulation time of the system data.
unfoldable pub start_all :
    ℕ → (ℕ → List EvaluatorItem) → List (Option (Row Listener)) → System → Option System
unfolding accumulator_start evaluator_start groupcounter_start visit_all
start_all time junk rows y = elim (accumulator_start time (visit_all rows) y.accumulator) [
  | none ↦ none
  | some a ↦ elim (evaluator_start junk (visit_all rows) y.evaluator.evaluators) [
    | none ↦ none
    | some items ↦ elim (groupcounter_start time (visit_all rows) y.holders) [
      | none ↦ none
      | some holders ↦ some (record {
        evaluator = record y.evaluator { evaluators = items };
        accumulator = a;
        holders = holders;
      })
    ]
  ]
]
