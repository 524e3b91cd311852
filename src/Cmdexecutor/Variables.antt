-- ===== src/Cmdexecutor/Variables.antt =====
-- What the records show of a variable that a command has set: _command_interpreter_process of
-- cmp/cmp_cmdexecutor.c with _mapped_var_evaluator of cmp/cmp_recorder.c.
use ntrt.Prelude.{
  ℕ, ◌+◌, ◌≡◌, refl, ap, ◌∙◌, sym, false, Option, none, some, List, [], ◌∷◌, arith, ◌==◌,
}
use ntrt.Dmap
use ntrt.Dmap.{visit_all}
use ntrt.Dmap.Walk.{entries, visit_all_lem}
use ntrt.Recorder.{MappedVar, get_mapped_var, mapped_var_evaluator}
use ntrt.Cmdexecutor.{Scanner, Executed, set_mapped_var, command_interpreter_process}

-- The variable with the value that was set.
abbrev given : ℕ → Option (Option MappedVar) → Option (Option MappedVar)
given var_value none = none
given var_value (some none) = some none
given var_value (some (some v)) = some (some (record v { value = var_value }))

same_found :
    (var_id var_value i : ℕ) (cells : List (Option (Dmap.Row MappedVar)))
    → get_mapped_var var_id (entries i (set_mapped_var var_id var_value cells))
      ≡ given var_value (get_mapped_var var_id (entries i cells))
unfolding set_mapped_var get_mapped_var
same_found var_id var_value i [] = refl
same_found var_id var_value i (none ∷ cells) = same_found var_id var_value (i + 1) cells
same_found var_id var_value i (some row ∷ cells) =
    ground (arith, same_found var_id var_value (i + 1) cells)

other_found :
    (var_id var_value other i : ℕ) (cells : List (Option (Dmap.Row MappedVar)))
    → (other == var_id) ≡ false
    → get_mapped_var other (entries i (set_mapped_var var_id var_value cells))
      ≡ get_mapped_var other (entries i cells)
unfolding set_mapped_var get_mapped_var
other_found var_id var_value other i [] ne = refl
other_found var_id var_value other i (none ∷ cells) ne =
    other_found var_id var_value other (i + 1) cells ne
other_found var_id var_value other i (some row ∷ cells) ne =
    ground (arith, other_found var_id var_value other (i + 1) cells ne)

-- What `_mapped_var_evaluator` answers of what the search found.
abbrev evaluated : Option (Option MappedVar) → Option ℕ
evaluated none = none
evaluated (some none) = some 0
evaluated (some (some v)) = some v.value

reads_back :
    (var_value : ℕ) (found : Option MappedVar)
    → evaluated (given var_value (some found)) ≡ some (elim found [ none ↦ 0 | some _ ↦ var_value ])
reads_back var_value none = refl
reads_back var_value (some v) = refl

evaluator-evaluated :
    (vars : List (Option (Dmap.Row MappedVar))) (map_id : ℕ)
    → mapped_var_evaluator vars map_id ≡ evaluated (get_mapped_var map_id (entries 0 vars))
unfolding mapped_var_evaluator
evaluator-evaluated vars map_id =
    ap (λ rows. evaluated (get_mapped_var map_id rows)) (visit_all_lem vars)

sets :
    {Line : Type 0} (s : Scanner Line) (str : Line) (x : Executed Line) (var_id var_value : ℕ)
    → s.first str ≡ 73
    → s.scan_mapped_var str ≡ some (var_id, var_value)
    → (command_interpreter_process s str x).mapped_vars
      ≡ set_mapped_var var_id var_value x.mapped_vars
unfolding command_interpreter_process
sets s str x var_id var_value i e = cc

-- After a MAPPED_VAR command the recorder reads, for its identifier, the value given where a variable
-- with the identifier is found, and 0 where none is; for every other identifier it reads what it read
-- before.
pub command_interpreter_process_lem :
    {Line : Type 0} (s : Scanner Line) (str : Line) (x : Executed Line) (var_id var_value other : ℕ)
    (found : Option MappedVar)
    → s.first str ≡ 73
    → s.scan_mapped_var str ≡ some (var_id, var_value)
    → get_mapped_var var_id (visit_all x.mapped_vars) ≡ some found
    → (other == var_id) ≡ false
    → let vars = (command_interpreter_process s str x).mapped_vars in
      (mapped_var_evaluator vars var_id ≡ some (elim found [ none ↦ 0 | some _ ↦ var_value ]))
      × (mapped_var_evaluator vars other ≡ mapped_var_evaluator x.mapped_vars other)
command_interpreter_process_lem s str x var_id var_value other found i e f ne =
    let cells = x.mapped_vars in
    let after = sets s str x var_id var_value i e in
    (
      ap (λ vars. mapped_var_evaluator vars var_id) after
          ∙ evaluator-evaluated (set_mapped_var var_id var_value cells) var_id
          ∙ ap evaluated (
              same_found var_id var_value 0 cells
              ∙ ap (given var_value) (sym (ap (get_mapped_var var_id) (visit_all_lem cells)) ∙ f))
          ∙ reads_back var_value found,
      ap (λ vars. mapped_var_evaluator vars other) after
          ∙ evaluator-evaluated (set_mapped_var var_id var_value cells) other
          ∙ ap evaluated (other_found var_id var_value other 0 cells ne)
          ∙ sym (evaluator-evaluated cells other),
    )
