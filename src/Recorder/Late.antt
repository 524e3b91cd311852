-- ===== src/Recorder/Late.antt =====
-- What becomes of a round of two listeners where the writing thread lags behind.
use Prim.Native.String.{String}
use ntrt.Prelude.{
  ℕ, zero, suc, ◌≡◌, ◌≤◌, ◌<◌, ◌+◌, refl, ap, ap₂, ◌∙◌, arith, ltb, lt→ltb, length, Bool, true,
  false, Option, none, some, List, [], ◌∷◌, ◌++◌, if◌then◌else◌,
}
use ntrt.Record.{Record, zero_record}
use ntrt.Dmap
use ntrt.Listener.{Listener}
use ntrt.Recorder.{MxRecord, clean_mxrecord, MappedVar, Answers, mapped_loop, fill, relay}
use ntrt.Recorder.Output.{
  Cell, features_row, Files, update, update_features_file, write_mxrecord, recycle_size, Turn,
  relays, writes, take_turns,
}
use ntrt.Recorder.Row.{take, line, numbers, features_row_lem}
use ntrt.Recorder.Turns.{update_runs, sharing, relays_step, writes_step}

-- The numbers of a row that two listeners share: the features of the second, and of the group counters
-- and the mapped variables those of the second, or, where it has none, those of the first.
abbrev pub mixed : Answers → Listener → Answers → Listener → List ℕ → List ℕ
mixed a l b k values =
    take k.feature_num b.features.items
    ++ (if ltb 0 k.groupcounter_num
        then take k.groupcounter_num b.groupcounters.items
        else take l.groupcounter_num a.groupcounters.items)
    ++ take (if ltb 0 k.mapped_vars_num then k.mapped_vars_num else l.mapped_vars_num) values

-- A part that the second fills, or else the first, or else nobody.
chosen :
    (n n' : ℕ) (r s z : Record)
    → take
        (if ltb 0 n then n else if ltb 0 n' then n' else 0)
        (if ltb 0 n then r else if ltb 0 n' then s else z).items
      ≡ (if ltb 0 n then take n r.items else take n' s.items)
chosen zero zero r s z = refl
chosen zero (suc n') r s z = rw (lt→ltb 0 (suc n') (omega arith)) refl
chosen (suc n) n' r s z = rw (lt→ltb 0 (suc n) (omega arith)) refl

chosen_wide :
    (n n' : ℕ) (r s z : Record)
    → n ≤ length r.items
    → n' ≤ length s.items
    → (if ltb 0 n then n else if ltb 0 n' then n' else 0)
      ≤ length (if ltb 0 n then r else if ltb 0 n' then s else z).items
chosen_wide zero zero r s z h k = omega arith
chosen_wide zero (suc n') r s z h k = rw (lt→ltb 0 (suc n') (omega arith)) k
chosen_wide (suc n) n' r s z h k = rw (lt→ltb 0 (suc n) (omega arith)) h

chosen_num :
    (n n' : ℕ) → (if ltb 0 n then n else if ltb 0 n' then n' else 0) ≡ (if ltb 0 n then n else n')
chosen_num n n' = ground arith

-- The record after both.
abbrev both : Answers → Listener → Answers → Listener → List ℕ → List ℕ → MxRecord
both a l b k values values' = fill b k values' (fill a l values clean_mxrecord)

numbers-both :
    (a : Answers) (l : Listener) (b : Answers) (k : Listener) (values values' : List ℕ)
    → numbers (both a l b k values values') ≡ mixed a l b k values'
unfolding fill clean_mxrecord
numbers-both a l b k values values' =
    ap₂ (λ t n. take k.feature_num b.features.items ++ t ++ take n values')
      (chosen k.groupcounter_num l.groupcounter_num b.groupcounters a.groupcounters zero_record)
      (chosen_num k.mapped_vars_num l.mapped_vars_num)

-- The second listener can be relayed behind the first, and neither saves its sums.
pub record IsBehind (vars : List (Option (Dmap.Row MappedVar))) (a : Answers) (l : Listener)
    (b : Answers) (k : Listener) (values values' : List ℕ) : Type 0 where
  pub first :
      mapped_loop vars l.mapped_var_ids l.mapped_vars_num 0 clean_mxrecord.mapped_var_values
      ≡ some values
  pub second : mapped_loop vars k.mapped_var_ids k.mapped_vars_num 0 values ≡ some values'
  pub features : k.feature_num ≤ length b.features.items
  pub groups : l.groupcounter_num ≤ length a.groupcounters.items
  pub groups' : k.groupcounter_num ≤ length b.groupcounters.items
  pub mapped : l.mapped_vars_num ≤ length values'
  pub mapped' : k.mapped_vars_num ≤ length values'
  pub unsaved : l.save_aggregation ≡ false
  pub unsaved' : k.save_aggregation ≡ false

either_num : (n n' m : ℕ) → n ≤ m → n' ≤ m → (if ltb 0 n then n else if ltb 0 n' then n' else 0) ≤ m
either_num n n' m h k = ground arith

features_row-both :
    (vars : List (Option (Dmap.Row MappedVar))) (a : Answers) (l : Listener) (b : Answers)
    (k : Listener) (values values' : List ℕ)
    → IsBehind vars a l b k values values'
    → features_row (both a l b k values values') ≡ some (line (mixed a l b k values'))
unfolding fill clean_mxrecord
features_row-both vars a l b k values values' h =
    features_row_lem (both a l b k values values') h.features
      (chosen_wide k.groupcounter_num l.groupcounter_num b.groupcounters a.groupcounters zero_record
        h.groups' h.groups)
      (either_num k.mapped_vars_num l.mapped_vars_num (length values') h.mapped' h.mapped)
    ∙ ap (λ ns. some (line ns)) (numbers-both a l b k values values')

relay_runs :
    (vars : List (Option (Dmap.Row MappedVar))) (a : Answers) (l : Listener) (m : MxRecord)
    (values : List ℕ)
    → mapped_loop vars l.mapped_var_ids l.mapped_vars_num 0 m.mapped_var_values ≡ some values
    → relay vars a l m ≡ some (fill a l values m, record l { append_output = true })
unfolding relay
relay_runs vars a l m values e = cc

both_unsaved :
    (a : Answers) (l : Listener) (b : Answers) (k : Listener) (values values' : List ℕ)
    → l.save_aggregation ≡ false
    → k.save_aggregation ≡ false
    → (both a l b k values values').save_aggregations ≡ false
unfolding fill clean_mxrecord
both_unsaved a l b k values values' e f = cc

module _ (opens : String → Bool) (vars : List (Option (Dmap.Row MappedVar))) where
  -- The output of the second listener with the row that both have made.
  abbrev pub mix_in : Files → Answers → Listener → Answers → Listener → List ℕ → Files
  mix_in files a l b k values =
      let row = line (mixed a l b k values) in
      update files k.output (if k.append_output then files k.output ++ row else row)

  -- What two writes make of the record that both listeners have been relayed to.
  pub record Late (files : Files) (r : ℕ) (a : Answers) (l : Listener) (b : Answers) (k : Listener)
      (values : List ℕ) : Type 0 where
    pub first :
        take_turns opens vars
          (relays ∷ relays ∷ writes ∷ [])
          ((a, l) ∷ (b, k) ∷ [])
          (sharing opens vars clean_mxrecord 0 r files)
        ≡ some (sharing opens vars clean_mxrecord 1 (r + 1) (mix_in files a l b k values))
    pub second :
        take_turns opens vars
          (relays ∷ relays ∷ writes ∷ writes ∷ [])
          ((a, l) ∷ (b, k) ∷ [])
          (sharing opens vars clean_mxrecord 0 r files)
        ≡ none

  clean_fault :
      (files : Files) → opens "" ≡ false → write_mxrecord opens files clean_mxrecord ≡ none
  unfolding write_mxrecord update_features_file clean_mxrecord
  clean_fault files e = cc

  unsaved_runs :
      (files : Files) (m : MxRecord) (cells : List Cell)
      → opens m.features_output ≡ true
      → m.save_aggregations ≡ false
      → features_row m ≡ some cells
      → write_mxrecord opens files m
        ≡ some (
            update files m.features_output
              (if m.append_output then files m.features_output ++ cells else cells))
  unfolding write_mxrecord
  unsaved_runs files m cells o s c =
      cc (update_runs opens vars files m m.features_output m.append_output cells refl refl o c, s)

  late_first :
      (turns : List Turn) (files files' : Files) (r : ℕ) (a b : Answers) (l k l' k' : Listener)
      (m m' : MxRecord)
      → r < recycle_size
      → relay vars a l clean_mxrecord ≡ some (m', l')
      → relay vars b k m' ≡ some (m, k')
      → write_mxrecord opens files m ≡ some files'
      → take_turns opens vars
          (relays ∷ relays ∷ writes ∷ turns)
          ((a, l) ∷ (b, k) ∷ [])
          (sharing opens vars clean_mxrecord 0 r files)
        ≡ take_turns opens vars turns [] (sharing opens vars clean_mxrecord 1 (r + 1) files')
  late_first turns files files' r a b l k l' k' m m' h e f g =
      relays_step opens vars (relays ∷ writes ∷ turns) ((b, k) ∷ []) files 0 r a l l' clean_mxrecord
        m' e
      ∙ relays_step opens vars (writes ∷ turns) [] files 1 r b k k' m' m f
      ∙ writes_step opens vars turns [] files files' 1 r m h g

  late_second :
      (files : Files) (r : ℕ)
      → opens "" ≡ false
      → take_turns opens vars (writes ∷ []) [] (sharing opens vars clean_mxrecord 1 r files) ≡ none
  unfolding take_turns
  late_second files r e = cc (clean_fault files e)

  nothing_left :
      (files : Files) (r : ℕ)
      → take_turns opens vars [] [] (sharing opens vars clean_mxrecord 1 r files)
        ≡ some (sharing opens vars clean_mxrecord 1 r files)
  unfolding take_turns
  nothing_left files r = refl

  -- Two listeners that do not save their sums are relayed before the writing thread takes a record, the
  -- recycle puffer has room for one, and the output of the second opens, but no empty path. Then the
  -- first write puts one row into the output of the second: its own features, and of the group
  -- counters and the mapped variables its own or, where it has none, those of the first listener. The
  -- second write finds the cleaned record, whose path is empty, and faults.
  pub late_lem :
      (files : Files) (r : ℕ) (a : Answers) (l : Listener) (b : Answers) (k : Listener)
      (values values' : List ℕ)
      → r < recycle_size
      → IsBehind vars a l b k values values'
      → opens k.output ≡ true
      → opens "" ≡ false
      → Late files r a l b k values'
  unfolding fill
  late_lem files r a l b k values values' room h o n =
      let m = both a l b k values values' in
      let m' = fill a l values clean_mxrecord in
      let files' = mix_in files a l b k values' in
      let x = relay_runs vars a l clean_mxrecord values h.first in
      let y = relay_runs vars b k m' values' h.second in
      let w =
        unsaved_runs files m (line (mixed a l b k values')) o
          (both_unsaved a l b k values values' h.unsaved h.unsaved')
          (features_row-both vars a l b k values values' h) in
      let l' = record l { append_output = true } in
      let k' = record k { append_output = true } in
      record {
        first =
            late_first [] files files' r a b l k l' k' m m' room x y w
            ∙ nothing_left files' (r + 1);
        second =
            late_first (writes ∷ []) files files' r a b l k l' k' m m' room x y w
            ∙ late_second files' (r + 1) n;
      }
