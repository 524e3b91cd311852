-- ===== src/Round/Printed.antt =====
-- The row that a round prints for a listener.
use ntrt.Prelude.{ℕ, ◌≤◌, ◌≡◌, true, Option, some, List, [], ◌++◌, arith, length, get_or}
use ntrt.Record.{Record, max_features_num}
use ntrt.Dmap
use ntrt.Listener.{Listener, max_mapped_vars}
use ntrt.Accumulator.Requests.{at}
use ntrt.Evaluator.{CmpEvaluatorItem}
use ntrt.Pipeline.{System}
use ntrt.Pipeline.Traffic.{Running}
use ntrt.Recorder.{MxRecord, clean_mxrecord, MappedVar, Answers, relay}
use ntrt.Recorder.Output.{features_row}
use ntrt.Recorder.Row.{take, line}
use ntrt.Recorder.Relay.{Reads, relay_lem}
use ntrt.Round.{Readings, request, report}
use ntrt.Round.Report.{Answered, request_lem}

module _ (t : Readings) (vars : List (Option (Dmap.Row MappedVar))) (y : System) (id : ℕ) where
  -- The record filled for the listener, and what its row says.
  pub record Printed (l : Listener) (e : CmpEvaluatorItem) (q pushed : List Record) (vs : List ℕ)
      : Type 0 where
    pub answered : Answered t y id l e q pushed
    pub filled : MxRecord
    pub runs :
        report t vars y id l clean_mxrecord
        ≡ some (filled, record l { append_output = true }, answered.next)
    pub row :
        features_row filled
        ≡ some (
            line (
              take l.feature_num answered.answers.features.items
              ++ take l.groupcounter_num answered.answers.groupcounters.items
              ++ vs))

  report_runs :
      (l l' : Listener) (m m' : MxRecord) (a : Answers) (y' : System)
      → request t y id l ≡ some (a, y')
      → relay vars a l m ≡ some (m', l')
      → report t vars y id l m ≡ some (m', l', y')
  unfolding report
  report_runs l l' m m' a y' e f = cc

  -- For a running listener of at most 64 group counters and mapped variables, whose mapped variables
  -- have the values `vs`, a cleaned record is filled without a fault. Its row is one line: for each
  -- feature the sum of the records that are young enough, for each group counter the number of its
  -- flows that are, and the values. The listener is running as before.
  pub report_lem :
      (l : Listener) (e : CmpEvaluatorItem) (pushed : List Record) (vs : List ℕ)
      (h : Running y id e pushed)
      → length (get_or y.holders id []) ≤ max_features_num
      → l.feature_num ≡ (at y.accumulator id).length
      → l.groupcounter_num ≤ max_features_num
      → l.mapped_vars_num ≡ length vs
      → l.mapped_vars_num ≤ max_mapped_vars
      → Reads vars l.mapped_var_ids 0 vs
      → Printed l e h.q pushed vs
  report_lem l e pushed vs h c n g k few r =
      let a = request_lem t y id l e pushed h c in
      let f =
        relay_lem vars a.answers l vs (omega (arith, a.wide)) (omega (arith, a.wide_counts)) k few
          r in
      record {
        answered = a;
        filled = f.filled;
        runs =
            report_runs l (record l { append_output = true }) clean_mxrecord f.filled a.answers
              a.next a.runs f.runs;
        row = f.row;
      }
