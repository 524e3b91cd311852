-- ===== src/Conf/Mapped.antt =====
-- The mapped variables of a section: the loop over their identifiers never faults.
use Prim.Native.String.{String}
use ntrt.Prelude.{
  ℕ, zero, suc, ◌+◌, ◌≡◌, refl, sym, ap, ◌∙◌, subst, inl, inr, true, Bool-cases, Option-cases,
  Option, none, some, List, [], ◌∷◌, ltb, ◌==◌, set, if◌then◌else◌,
}
use ntrt.Prelude.Int.{ℤ, pos}
use ntrt.Dmap.{Row, visit_all, Added, added_at, error_add, table_is_full, add_row}
use ntrt.Dmap.Walk.{entries, visit_all_lem}
use ntrt.Dmap.Rows.{AddOutcome, add_row_lem}
use ntrt.Dmap.Update.{AllItems}
use ntrt.Recorder.{MappedVar, get_mapped_var}
use ntrt.Conf.Section.{Key, mapped_var_id, to_uint32, add_mapped_var, read_mapped_ids}

-- A search among rows that all have items answers.
search_runs :
    (map_id i : ℕ) (rows : List (Option (Row MappedVar)))
    → AllItems rows
    → (o : Option MappedVar) × (get_mapped_var map_id (entries i rows) ≡ some o)
unfolding get_mapped_var
search_runs map_id i [] h = (none, refl)
search_runs map_id i (none ∷ rows) h = search_runs map_id (i + 1) rows h
search_runs map_id i (some r ∷ rows) ((v, e), h) =
    let (o, f) = search_runs map_id (i + 1) rows h in
    elim (Bool-cases (v.identifier == map_id)) [
      | inl same ↦ (some v, rw (e, same) refl)
      | inr other ↦ (o, rw (e, other) f)
    ]

AllItems-set :
    {A : Type 0} (rows : List (Option (Row A))) (i : ℕ) (row : Row A) (a : A)
    → row.item ≡ some a
    → AllItems rows
    → AllItems (set rows i (some row))
AllItems-set [] i row a e h = h
AllItems-set (none ∷ rows) zero row a e h = ((a, e), h)
AllItems-set (some r ∷ rows) zero row a e h = ((a, e), h.1)
AllItems-set (none ∷ rows) (suc i) row a e h = AllItems-set rows i row a e h
AllItems-set (some r ∷ rows) (suc i) row a e h = (h.0, AllItems-set rows i row a e h.1)

AllItems-outcome :
    {A : Type 0} (rows : List (Option (Row A))) (row : Row A) (a : A)
    (out : Added × List (Option (Row A)))
    → row.item ≡ some a
    → AddOutcome row rows out
    → AllItems rows
    → AllItems out.1
AllItems-outcome rows row a (added_at i, rows') e (l, t, g, s) h =
    subst AllItems (sym s) (AllItems-set rows i row a e h)
AllItems-outcome rows row a (table_is_full, rows') e (t, s) h = subst AllItems (sym s) h
AllItems-outcome rows row a (error_add, rows') e o h = absurd o

add_new :
    (map_id : ℕ) (rows : List (Option (Row MappedVar)))
    → get_mapped_var map_id (visit_all rows) ≡ some none
    → add_mapped_var map_id rows
      ≡ some
          (add_row none rows (
            some (record {
              item = some (record { identifier = map_id; value = 0 });
              has_dtor = true;
            }))).1
unfolding add_mapped_var
add_new map_id rows e = cc

add_old :
    (map_id : ℕ) (rows : List (Option (Row MappedVar))) (v : MappedVar)
    → get_mapped_var map_id (visit_all rows) ≡ some (some v)
    → add_mapped_var map_id rows ≡ some rows
unfolding add_mapped_var
add_old map_id rows v e = cc

-- A variable is added without a fault, to a table whose rows still have items.
add_mapped_var-runs :
    (map_id : ℕ) (rows : List (Option (Row MappedVar)))
    → AllItems rows
    → (rows' : List (Option (Row MappedVar))) × (add_mapped_var map_id rows ≡ some rows')
      × AllItems rows'
unfolding add_mapped_var
add_mapped_var-runs map_id rows h =
    let row : Row MappedVar = record {
      item = some (record { identifier = map_id; value = 0 });
      has_dtor = true;
    } in
    let (o, e) = search_runs map_id 0 rows h in
    let f : get_mapped_var map_id (visit_all rows) ≡ some o =
      ap (get_mapped_var map_id) (visit_all_lem rows) ∙ e in
    elim (Option-cases o) [
      | inr (v, g) ↦ (rows, add_old map_id rows v (f ∙ ap some g), h)
      | inl g ↦ (
        (add_row none rows (some row)).1,
        add_new map_id rows (f ∙ ap some g),
        AllItems-outcome rows row (record { identifier = map_id; value = 0 })
            (add_row none rows (some row)) refl (add_row_lem none rows row) h,
      )
    ]

module _ (getstring : Key → String → String) (getint : Key → ℤ → ℤ)
    (sscanf : String → String → List ℤ) where
  -- The identifiers that stand under the keys, from key `i` on.
  abbrev pub map_ids : ℕ → ℕ → List ℕ
  map_ids zero i = []
  map_ids (suc n) i = to_uint32 (getint (mapped_var_id i) (pos 0)) ∷ map_ids n (i + 1)

  add_if-runs :
      (map_id : ℕ) (rows : List (Option (Row MappedVar)))
      → AllItems rows
      → (rows' : List (Option (Row MappedVar))) × ((if ltb 0 map_id
            then add_mapped_var map_id rows
            else some rows)
          ≡ some rows')
        × AllItems rows'
  add_if-runs map_id rows h = elim (Bool-cases (ltb 0 map_id)) [
    | inl e ↦ let (rows', f, k) = add_mapped_var-runs map_id rows h in (rows', rw (e, f) refl, k)
    | inr e ↦ (rows, rw e refl, h)
  ]

  read_step :
      (n i : ℕ) (rows rows' rows'' : List (Option (Row MappedVar))) (ids : List ℕ)
      → (if ltb 0 (to_uint32 (getint (mapped_var_id i) (pos 0)))
          then add_mapped_var (to_uint32 (getint (mapped_var_id i) (pos 0))) rows
          else some rows)
        ≡ some rows'
      → read_mapped_ids getstring getint sscanf n (i + 1) rows' ≡ some (ids, rows'')
      → read_mapped_ids getstring getint sscanf (suc n) i rows
        ≡ some (to_uint32 (getint (mapped_var_id i) (pos 0)) ∷ ids, rows'')
  unfolding read_mapped_ids
  read_step n i rows rows' rows'' ids e f = cc

  -- The loop gives the identifiers of all its keys, whatever the number of mapped variables is, and
  -- adds them to the table without a fault.
  pub read_mapped_ids_lem :
      (n i : ℕ) (rows : List (Option (Row MappedVar)))
      → AllItems rows
      → (rows' : List (Option (Row MappedVar))) × (read_mapped_ids getstring getint sscanf n i rows
          ≡ some (map_ids n i, rows'))
        × AllItems rows'
  unfolding read_mapped_ids
  read_mapped_ids_lem zero i rows h = (rows, refl, h)
  read_mapped_ids_lem (suc n) i rows h =
      let (rows', e, k) = add_if-runs (to_uint32 (getint (mapped_var_id i) (pos 0))) rows h in
      let (rows'', f, l) = read_mapped_ids_lem n (i + 1) rows' k in
      (rows'', read_step n i rows rows' rows'' (map_ids n (i + 1)) e f, l)
