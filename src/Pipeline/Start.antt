-- ===== src/Pipeline/Start.antt =====
-- A system after the start is ready for the packets of each listener.
use ntrt.Prelude.{ℕ, ◌≡◌, Option, some, List, []}
use ntrt.Dmap.{Row}
use ntrt.Listener.{EvaluatorItem, Listener}
use ntrt.Accumulator.Start as Windows
use ntrt.Evaluator.Start as Items
use ntrt.Group.Start as Counters
use ntrt.Pipeline.{System, start_all}
use ntrt.Pipeline.Traffic.{Running}

module _ (time : ℕ) (junk : ℕ → List EvaluatorItem) (rows : List (Option (Row Listener)))
    (y : System) where
  -- The start ended, and the listener `l` at index `i` is running, with no records yet.
  pub record Ready (i : ℕ) (l : Listener) : Type 0 where
    pub next : System
    pub runs : start_all time junk rows y ≡ some next
    pub running : Running next i (Items.copied junk i l) []
