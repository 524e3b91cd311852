-- ===== src/Recorder.antt =====
-- cmp/cmp_recorder.c, the record of one listener that the relaying thread fills for the output. `none` is a fault: NULL, or an index out of range.
pub mod Output
pub mod Row
pub mod Relay
pub mod Turns
pub mod Late
mod Tests
use Prim.Native.String.{String}
use text.Mathlib.Text as Text
use ntrt.Prelude.{
  ℕ, zero, suc, ◌+◌, ◌-◌, ◌^◌, Bool, true, false, ◌||◌, Option, none, some, List, [], ◌∷◌, ◌++◌,
  ltb, ◌==◌, if◌then◌else◌, get_or, get_elem?, set, replicate,
}
use ntrt.Prelude.Int.{ℤ, pos, negsuc}
use ntrt.Record.{Record, zero_record}
use ntrt.Listener.{Listener, max_mapped_vars}
use ntrt.Dmap
use ntrt.Dmap.{visit_all}

-- `mxrecord_t`.
pub record MxRecord : Type 0 where
  pub features_num : ℕ
  pub features : Record
  pub groupcounters_num : ℕ
  pub groupcounters : Record
  pub save_aggregations : Bool
  pub aggregations : Record
  pub append_output : Bool
  pub features_output : String
  pub aggregation_path : String
  pub mapped_vars_num : ℕ
  pub mapped_var_values : List ℕ

-- `_mxrecord_ctor`, and what `_clean_mxrecord` leaves.
unfoldable pub clean_mxrecord : MxRecord
unfolding zero_record
clean_mxrecord = record {
  features_num = 0;
  features = zero_record;
  groupcounters_num = 0;
  groupcounters = zero_record;
  save_aggregations = false;
  aggregations = zero_record;
  append_output = false;
  features_output = "";
  aggregation_path = "";
  mapped_vars_num = 0;
  mapped_var_values = replicate max_mapped_vars 0;
}

-- `mapped_var_t`.
pub record MappedVar : Type 0 where
  pub identifier : ℕ
  pub value : ℕ

-- `dmap_get_mapped_var_by_var_id` on the rows that the iteration visits: a variable, if one has the
-- identifier.
unfoldable pub get_mapped_var : ℕ → List (ℕ × Dmap.Row MappedVar) → Option (Option MappedVar)
get_mapped_var map_id [] = some none
get_mapped_var map_id ((_, row) ∷ rows) =
    let rest : Option (Option MappedVar) = get_mapped_var map_id rows in
    elim row.item [ none ↦ none | some v ↦ if v.identifier == map_id then some (some v) else rest ]

-- `_mapped_var_evaluator`, 0 for a variable that is not found.
unfoldable pub mapped_var_evaluator : List (Option (Dmap.Row MappedVar)) → ℕ → Option ℕ
unfolding get_mapped_var visit_all
mapped_var_evaluator vars map_id = elim (get_mapped_var map_id (visit_all vars)) [
  | none ↦ none
  | some none ↦ some 0
  | some (some v) ↦ some v.value
]

-- The loop over the mapped variables of `_thr_recordsrelayer_main_proc`, `n` more rounds from `i` on.
unfoldable pub mapped_loop :
    List (Option (Dmap.Row MappedVar)) → List ℕ → ℕ → ℕ → List ℕ → Option (List ℕ)
unfolding mapped_var_evaluator
mapped_loop vars ids zero i values = some values
mapped_loop vars ids (suc n) i values = elim (get_elem? ids i) [
  | none ↦ none
  | some map_id ↦ elim (mapped_var_evaluator vars map_id) [
    | none ↦ none
    | some v ↦ mapped_loop vars ids n (i + 1) (set values i v)
  ]
]

-- The answers of the other components for one listener: `features_requester` and
-- `groupcounter_requester`.
pub record Answers : Type 0 where
  pub features : Record
  pub aggregations : Record
  pub groupcounters : Record

-- What the body of that loop leaves in the record, where the values of the mapped variables are
-- `values`: a part of the record that the listener has no use for is left as it was.
unfoldable pub fill : Answers → Listener → List ℕ → MxRecord → MxRecord
fill a l values m =
    let groups : Bool = ltb 0 l.groupcounter_num in
    let mapped : Bool = ltb 0 l.mapped_vars_num in
    record {
      features = a.features;
      aggregations = a.aggregations;
      features_num = l.feature_num;
      groupcounters = if groups then a.groupcounters else m.groupcounters;
      groupcounters_num = if groups then l.groupcounter_num else m.groupcounters_num;
      append_output = l.append_output;
      features_output = l.output;
      mapped_vars_num = if mapped then l.mapped_vars_num else m.mapped_vars_num;
      mapped_var_values = values;
      save_aggregations = if l.save_aggregation then true else m.save_aggregations;
      aggregation_path = if l.save_aggregation then l.aggregation_path else m.aggregation_path;
    }

-- The body of the loop of `_thr_recordsrelayer_main_proc`: the record, and the listener, whose next
-- row is appended.
unfoldable pub relay :
    List (Option (Dmap.Row MappedVar))
    → Answers
    → Listener
    → MxRecord
    → Option (MxRecord × Listener)
unfolding mapped_loop fill
relay vars a l m =
    elim (mapped_loop vars l.mapped_var_ids l.mapped_vars_num 0 m.mapped_var_values) [
      | none ↦ none
      | some values ↦ some (fill a l values m, record l { append_output = true })
    ]
