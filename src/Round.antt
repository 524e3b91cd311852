-- ===== src/Round.antt =====
-- cmp/cmp_recorder.c, what the relaying thread does for a listener, across the components: it asks
-- the accumulator and the group counter, and fills the record with their answers. The records that
-- the accumulator drops go back to the evaluator's recycle puffer.
pub mod Report
pub mod Printed
mod Tests
use ntrt.Prelude.{ℕ, Option, none, some, List, ltb, if◌then◌else◌}
use ntrt.Clock.{Mtime}
use ntrt.Record.{Record, zero_record}
use ntrt.Dmap
use ntrt.Listener.{Listener}
use ntrt.Accumulator.Component.{features_requester}
use ntrt.Group.Component.{groupcounter_record_requester}
use ntrt.Pipeline.{System, recycle_all}
use ntrt.Recorder.{MxRecord, MappedVar, Answers, relay}

-- The readings of the clock for a listener: those of the expiry, the stamp of the group counts, and
-- those of each counter.
pub record Readings : Type 0 where
  pub window : ℕ → Mtime
  pub stamp : Mtime
  pub flows : ℕ → ℕ → Mtime

-- The calls of `features_requester` and, if the listener has a group counter, of
-- `groupcounter_requester`, whose answer is not looked at otherwise.
unfoldable pub request : Readings → System → ℕ → Listener → Option (Answers × System)
unfolding features_requester groupcounter_record_requester recycle_all
request t y listener_id l = elim (features_requester t.window y.accumulator listener_id) [
  | none ↦ none
  | some a ↦
      let e = record y.evaluator { recycle = recycle_all y.evaluator.recycle a.sent } in
      let (counts, holders) = groupcounter_record_requester t.stamp t.flows y.holders listener_id in
      if ltb 0 l.groupcounter_num
      then some (
        record { features = a.result; aggregations = a.total; groupcounters = counts },
        record { evaluator = e; accumulator = a.next; holders = holders },
      )
      else some (
        record { features = a.result; aggregations = a.total; groupcounters = zero_record },
        record y { evaluator = e; accumulator = a.next },
      )
]

-- The body of the loop over the listeners, up to the writing.
unfoldable pub report :
    Readings
    → List (Option (Dmap.Row MappedVar))
    → System
    → ℕ
    → Listener
    → MxRecord
    → Option (MxRecord × Listener × System)
unfolding request relay
report t vars y listener_id l m = elim (request t y listener_id l) [
  | none ↦ none
  | some (answers, y') ↦ elim (relay vars answers l m) [
    | none ↦ none
    | some (m', l') ↦ some (m', l', y')
  ]
]
