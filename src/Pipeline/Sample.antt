-- ===== src/Pipeline/Sample.antt =====
-- A system that runs one listener, for the tests.
use ntrt.Prelude.{refl, [], ◌∷◌, arith}
use ntrt.Evaluator.Sample
use ntrt.Accumulator.Sample as Loaded
use ntrt.Group.{init_flowcounter, src_tcp_flows}
use ntrt.Pipeline.{System}
use ntrt.Pipeline.Traffic.{Running}

abbrev pub system : System
system = record { evaluator = Sample.component; accumulator = Loaded.component; holders = [] }

-- The system with a group counter of TCP flows.
abbrev pub running : System
running = record system { holders = (init_flowcounter 1000 src_tcp_flows ∷ []) ∷ [] }

pub running-Running : Running running 0 Sample.items (Loaded.early ∷ [])
unfolding init_flowcounter
running-Running = record {
  count = 0;
  q = Loaded.early ∷ [];
  stocked = Sample.fresh_puffer-Stocked;
  stored = refl;
  few = omega arith;
  started = omega arith;
  sound = Loaded.component-AllSound;
  window = Loaded.loaded-Window;
  wide = omega arith;
  held = omega arith;
  valid = (record { distinct = tt; counted = refl }, tt);
}
