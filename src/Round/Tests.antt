-- ===== src/Round/Tests.antt =====
-- A sample listener in a round.
use ntrt.Prelude.{refl, some, true, List, Option, [], ◌∷◌, arith}
use ntrt.Dmap
use ntrt.Listener.{Listener, pcap_listener_ctor}
use ntrt.Accumulator.Sample as Loaded
use ntrt.Evaluator.Sample
use ntrt.Pipeline.Sample.{running, running-Running}
use ntrt.Recorder.{MappedVar, mapped_var_evaluator}
use ntrt.Recorder.Relay.{Reads}
use ntrt.Round.{Readings}
use ntrt.Round.Printed.{Printed, report_lem}

abbrev readings : Readings
readings = record {
  window = λ _. Loaded.seconds 12;
  stamp = Loaded.seconds 12;
  flows = λ _ _. Loaded.seconds 12;
}

abbrev vars : List (Option (Dmap.Row MappedVar))
vars = some (record { item = some (record { identifier = 9; value = 70 }); has_dtor = true }) ∷ []

-- Two features, a group counter and a mapped variable.
abbrev listener : Listener
listener = record pcap_listener_ctor {
  feature_num = 2;
  groupcounter_num = 1;
  mapped_vars_num = 1;
  mapped_var_ids = 9 ∷ [];
}

report_lem_example :
    Printed readings vars running 0 listener Sample.items running-Running.q
      (Loaded.early ∷ [])
      (70 ∷ [])
unfolding Reads mapped_var_evaluator
report_lem_example =
    report_lem readings vars running 0 listener Sample.items (Loaded.early ∷ []) (70 ∷ [])
      running-Running (omega arith) refl (omega arith) refl (omega arith) ((9, refl, refl), tt)
