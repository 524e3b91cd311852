-- ===== src/Recorder/Relay.antt =====
-- What the relaying thread makes of a listener, and what the writing thread leaves in the files.
use Prim.Native.String.{String}
use ntrt.Prelude.{
  Bool, ltb, lt→ltb, ap₂, ℕ, zero, suc, ◌+◌, ◌≤◌, ◌<◌, ◌≡◌, refl, sym, ap, ◌∙◌, true, false, Option,
  some, List, [], ◌∷◌, ◌++◌, arith, if◌then◌else◌, length, get_elem?, set, length-set,
}
use ntrt.Slist.{append_step, append_nil}
use ntrt.Record.{Record, zero_record}
use ntrt.Dmap
use ntrt.Listener.{Listener, max_mapped_vars}
use ntrt.Recorder.{
  MxRecord, clean_mxrecord, MappedVar, mapped_var_evaluator, mapped_loop, Answers, fill, relay,
}
use ntrt.Recorder.Output.{features_row}
use ntrt.Recorder.Row.{take, line, numbers, features_row_lem}

module _ (vars : List (Option (Dmap.Row MappedVar))) (ids : List ℕ) where
  -- The values of the variables whose identifiers stand in `ids` from index `i` on.
  unfoldable pub Reads : ℕ → List ℕ → Type 0
  Reads i [] = Unit
  Reads i (v ∷ vs) =
      ((map_id : ℕ) × (get_elem? ids i ≡ some map_id) × (mapped_var_evaluator vars map_id ≡ some v))
      × Reads (i + 1) vs

  pub record Mapped (i : ℕ) (vs values : List ℕ) : Type 0 where
    pub final : List ℕ
    pub runs : mapped_loop vars ids (length vs) i values ≡ some final
    pub same_length : length final ≡ length values
    pub front : take (i + length vs) final ≡ take i values ++ vs

  loop_step :
      (n i map_id v : ℕ) (values : List ℕ)
      → get_elem? ids i ≡ some map_id
      → mapped_var_evaluator vars map_id ≡ some v
      → mapped_loop vars ids (suc n) i values ≡ mapped_loop vars ids n (i + 1) (set values i v)
  unfolding mapped_loop
  loop_step n i map_id v values e f = cc

  take-set :
      (i : ℕ) (values : List ℕ) (v : ℕ)
      → i < length values
      → take (suc i) (set values i v) ≡ take i values ++ v ∷ []
  take-set i [] v h = absurd (omega arith)
  take-set zero (x ∷ values) v h = refl
  take-set (suc i) (x ∷ values) v h = ap (λ t. x ∷ t) (take-set i values v (omega arith))

  add_one : (i : ℕ) → i + 1 ≡ suc i
  add_one i = omega arith

  add_shift : (i n : ℕ) → i + suc n ≡ i + 1 + n
  add_shift i n = omega arith

  pub mapped_loop_lem :
      (i : ℕ) (vs values : List ℕ) → Reads i vs → i + length vs ≤ length values → Mapped i vs values
  unfolding mapped_loop Reads
  mapped_loop_lem i [] values r h = record {
    final = values;
    runs = refl;
    same_length = refl;
    front = let e : i + 0 ≡ i = omega arith in rw e (sym (append_nil (take i values)));
  }
  mapped_loop_lem i (v ∷ vs) values ((map_id, e, f), r) h =
      let rest =
        mapped_loop_lem (i + 1) vs (set values i v) r (omega (arith, length-set values i v)) in
      record {
        final = rest.final;
        runs = loop_step (length vs) i map_id v values e f ∙ rest.runs;
        same_length = rest.same_length ∙ length-set values i v;
        front =
            ap (λ k. take k rest.final) (add_shift i (length vs))
            ∙ rest.front
            ∙ ap (λ t. t ++ vs)
                (ap (λ k. take k (set values i v)) (add_one i) ∙ take-set i values v (omega arith))
            ∙ append_step (take i values) v vs;
      }

-- A part that is filled only for a number above 0, in a record where it was empty.
filled_num : (n : ℕ) → (if ltb 0 n then n else 0) ≡ n
filled_num n = ground arith

filled_part :
    (n : ℕ) (r s : Record)
    → take (if ltb 0 n then n else 0) (if ltb 0 n then r else s).items ≡ take n r.items
filled_part zero r s = refl
filled_part (suc n) r s = rw (lt→ltb 0 (suc n) (omega arith)) refl

filled_wide :
    (n : ℕ) (r s : Record)
    → n ≤ length r.items
    → (if ltb 0 n then n else 0) ≤ length (if ltb 0 n then r else s).items
filled_wide zero r s h = omega arith
filled_wide (suc n) r s h = rw (lt→ltb 0 (suc n) (omega arith)) h

-- A listener's row goes to the record of its own output, whose parts are the listener's.
pub record Relayed (vars : List (Option (Dmap.Row MappedVar))) (a : Answers) (l : Listener)
    (vs : List ℕ) : Type 0 where
  pub filled : MxRecord
  pub runs : relay vars a l clean_mxrecord ≡ some (filled, record l { append_output = true })
  pub row :
      features_row filled
      ≡ some (
          line (
            take l.feature_num a.features.items
            ++ take l.groupcounter_num a.groupcounters.items
            ++ vs))
  pub output : filled.features_output ≡ l.output
  pub append : filled.append_output ≡ l.append_output
  pub aggregations : filled.aggregations ≡ a.aggregations
  pub features_num : filled.features_num ≡ l.feature_num
  pub saved : filled.save_aggregations ≡ l.save_aggregation
  pub path : l.save_aggregation ≡ true → filled.aggregation_path ≡ l.aggregation_path

relay_runs :
    (vars : List (Option (Dmap.Row MappedVar))) (a : Answers) (l : Listener) (n : ℕ)
    (values : List ℕ)
    → l.mapped_vars_num ≡ n
    → mapped_loop vars l.mapped_var_ids n 0 clean_mxrecord.mapped_var_values ≡ some values
    → relay vars a l clean_mxrecord
      ≡ some (fill a l values clean_mxrecord, record l { append_output = true })
unfolding relay
relay_runs vars a l n values e f = cc

zero_add : (n : ℕ) → n ≡ 0 + n
zero_add n = omega arith

if_path : (b : Bool) (p : String) → b ≡ true → (if b then p else "") ≡ p
if_path b p e = cc

if_saved : (b : Bool) → (if b then true else false) ≡ b
if_saved true = refl
if_saved false = refl

-- The numbers of a record that was clean before it was filled.
numbers-fill :
    (a : Answers) (l : Listener) (values vs : List ℕ)
    → l.mapped_vars_num ≡ length vs
    → take (0 + length vs) values ≡ vs
    → numbers (fill a l values clean_mxrecord)
      ≡ take l.feature_num a.features.items ++ take l.groupcounter_num a.groupcounters.items ++ vs
unfolding fill clean_mxrecord
numbers-fill a l values vs e f =
    ap₂ (λ t u. take l.feature_num a.features.items ++ t ++ u)
      (filled_part l.groupcounter_num a.groupcounters zero_record)
      (ap (λ k. take k values) (filled_num l.mapped_vars_num ∙ e ∙ zero_add (length vs)) ∙ f)

features_row-fill :
    (a : Answers) (l : Listener) (values : List ℕ)
    → l.feature_num ≤ length a.features.items
    → l.groupcounter_num ≤ length a.groupcounters.items
    → l.mapped_vars_num ≤ length values
    → features_row (fill a l values clean_mxrecord)
      ≡ some (line (numbers (fill a l values clean_mxrecord)))
unfolding fill clean_mxrecord
features_row-fill a l values f g v =
    features_row_lem (fill a l values clean_mxrecord) f
      (filled_wide l.groupcounter_num a.groupcounters zero_record g)
      (omega (arith, filled_num l.mapped_vars_num))

clean_wide : length clean_mxrecord.mapped_var_values ≡ max_mapped_vars
unfolding clean_mxrecord
clean_wide = refl

-- A cleaned record, filled for a listener whose mapped variables have the values `vs`, prints one
-- line: the sums of the listener's features, the counts of its group counters and these values.
pub relay_lem :
    (vars : List (Option (Dmap.Row MappedVar))) (a : Answers) (l : Listener) (vs : List ℕ)
    → l.feature_num ≤ length a.features.items
    → l.groupcounter_num ≤ length a.groupcounters.items
    → l.mapped_vars_num ≡ length vs
    → l.mapped_vars_num ≤ max_mapped_vars
    → Reads vars l.mapped_var_ids 0 vs
    → Relayed vars a l vs
unfolding fill clean_mxrecord
relay_lem vars a l vs f g n v r =
    let loop =
      mapped_loop_lem vars l.mapped_var_ids 0 vs clean_mxrecord.mapped_var_values r
        (omega (arith, clean_wide)) in
    record {
      filled = fill a l loop.final clean_mxrecord;
      runs = relay_runs vars a l (length vs) loop.final n loop.runs;
      row =
          features_row-fill a l loop.final f g (omega (arith, clean_wide, loop.same_length))
          ∙ ap (λ t. some (line t)) (numbers-fill a l loop.final vs n loop.front);
      output = refl;
      append = refl;
      aggregations = refl;
      features_num = refl;
      saved = if_saved l.save_aggregation;
      path = if_path l.save_aggregation l.aggregation_path;
    }
