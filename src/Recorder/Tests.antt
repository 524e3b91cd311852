-- ===== src/Recorder/Tests.antt =====
-- Sample listeners, relayed and written.
use Prim.Native.String.{String}
use text.Mathlib.Text as Text
use ntrt.Prelude.{
  ℕ, ◌≡◌, refl, Bool, true, false, not, replicate, Option, none, some, List, [], ◌∷◌, arith,
}
use ntrt.Prelude.Int.{pos, negsuc}
use ntrt.Record.{zero_record}
use ntrt.Dmap
use ntrt.Dmap.{visit_all}
use ntrt.Listener.{Listener, pcap_listener_ctor}
use ntrt.Recorder.{
  MxRecord, clean_mxrecord, MappedVar, mapped_var_evaluator, Answers, fill, relay, mapped_loop,
}
use ntrt.Recorder.Output.{comma, newline, as_int, features_row, Files, relays, writes, take_turns}
use ntrt.Recorder.Row.{line, numbers, features_row_lem}
use ntrt.Recorder.Relay.{Reads}
use ntrt.Recorder.Turns.{IsReady, AllReady, prompt, listeners, deliver_all, sharing, prompt_lem}
use ntrt.Recorder.Late.{IsBehind, Late, mixed, late_lem}

abbrev var : Dmap.Row MappedVar
var = record { item = some (record { identifier = 9; value = 70 }); has_dtor = true }

abbrev vars : List (Option (Dmap.Row MappedVar))
vars = none ∷ some var ∷ []

abbrev answers : Answers
answers = record {
  features = record zero_record { items = 5 ∷ 6 ∷ [] };
  aggregations = record zero_record { items = 50 ∷ 60 ∷ [] };
  groupcounters = record zero_record { items = 3 ∷ [] };
}

-- A listener with two features, a group counter, and a variable that is found.
abbrev first : Listener
first = record pcap_listener_ctor {
  feature_num = 2;
  output = "first.csv";
  save_aggregation = true;
  aggregation_path = "sums.csv";
  groupcounter_num = 1;
  mapped_vars_num = 1;
  mapped_var_ids = 9 ∷ [];
}

-- A listener with two features only, which appends to its output.
abbrev second : Listener
second = record pcap_listener_ctor {
  feature_num = 2;
  output = "second.csv";
  append_output = true;
  aggregation_path = "none.csv";
}

-- The first, without the file of the sums.
abbrev third : Listener
third = record first { save_aggregation = false }

abbrev opens : String → Bool
opens p = not (Text.◌==◌ p "")

abbrev no_files : Files
no_files _ = []

abbrev filled : MxRecord
filled = fill answers first (70 ∷ []) clean_mxrecord

features_row_lem_example : features_row filled ≡ some (line (numbers filled))
unfolding fill
features_row_lem_example = features_row_lem filled (omega arith) (omega arith) (omega arith)

features_row_run :
    features_row filled
    ≡ some ((pos 5, comma) ∷ (pos 6, comma) ∷ (pos 3, comma) ∷ (pos 70, newline) ∷ [])
unfolding features_row fill
features_row_run = refl

-- A sum of 2^31 is printed with a minus sign.
as_int_run : as_int 2147483648 ≡ negsuc 2147483647
unfolding as_int
as_int_run = refl

first-IsReady : IsReady opens vars answers first (70 ∷ [])
unfolding Reads mapped_var_evaluator
first-IsReady = record {
  features = omega arith;
  aggregations = omega arith;
  groupcounters = omega arith;
  mapped = refl;
  few = omega arith;
  reads = ((9, refl, refl), tt);
  output = refl;
  path = refl;
}

second-IsReady : IsReady opens vars answers second []
unfolding Reads pcap_listener_ctor
second-IsReady = record {
  features = omega arith;
  aggregations = omega arith;
  groupcounters = omega arith;
  mapped = refl;
  few = omega arith;
  reads = tt;
  output = refl;
  path = refl;
}

abbrev round : List (Answers × Listener × List ℕ)
round = (answers, first, 70 ∷ []) ∷ (answers, second, []) ∷ []

round-AllReady : AllReady opens vars round
unfolding AllReady
round-AllReady = (first-IsReady, (second-IsReady, tt))

prompt_lem_example :
    take_turns opens vars
      (prompt opens vars round)
      (listeners opens vars round)
      (sharing opens vars clean_mxrecord 0 5 no_files)
    ≡ some (sharing opens vars clean_mxrecord 0 7 (deliver_all no_files round))
prompt_lem_example = prompt_lem opens vars round no_files 5 round-AllReady (omega arith)

-- The group counter and the variable of the second listener's row are those that the first left.
second-IsBehind :
    IsBehind vars answers third answers second (70 ∷ replicate 63 0) (70 ∷ replicate 63 0)
unfolding mapped_loop mapped_var_evaluator clean_mxrecord pcap_listener_ctor
second-IsBehind = record {
  first = refl;
  second = refl;
  features = omega arith;
  groups = omega arith;
  groups' = omega arith;
  mapped = omega arith;
  mapped' = omega arith;
  unsaved = refl;
  unsaved' = refl;
}

late_lem_example : Late opens vars no_files 5 answers third answers second (70 ∷ replicate 63 0)
late_lem_example =
    late_lem opens vars no_files 5 answers third answers second (70 ∷ replicate 63 0)
      (70 ∷ replicate 63 0) (omega arith) second-IsBehind refl refl

mixed_run : mixed answers third answers second (70 ∷ replicate 63 0) ≡ 5 ∷ 6 ∷ 3 ∷ 70 ∷ []
unfolding pcap_listener_ctor
mixed_run = refl

-- Where the recycle puffer is full the record is freed, and the next listener is relayed to it.
freed_run :
    take_turns opens vars
      (relays ∷ writes ∷ relays ∷ [])
      ((answers, third) ∷ (answers, second) ∷ [])
      (sharing opens vars clean_mxrecord 0 128 no_files)
    ≡ none
unfolding take_turns relay fill mapped_var_evaluator features_row clean_mxrecord mapped_loop
    pcap_listener_ctor
freed_run = refl
