-- ===== src/Dmap/Rows.antt =====
-- Adding a row to a table, and reading a table by index.
use ntrt.Prelude.{
  ℕ, zero, suc, ◌+◌, ◌-◌, ◌≤◌, ◌<◌, ◌≡◌, ◌≢◌, refl, subst, Option, none, some, List, [], ◌∷◌, arith,
  length, get_or, set, get_or-set_self, get_or-set_ne, Option-cases, inl, inr,
}
use ntrt.Prelude.Int.{pos}
use ntrt.Dmap.{Row, Added, added_at, error_add, table_is_full, first_free, add_row, get_item}
use ntrt.Dmap.Walk.{drop, drop_cell}

module _ {A : Type 0} where
  -- The first `n` cells hold rows.
  abbrev pub Taken : ℕ → List (Option (Row A)) → Type 0
  Taken zero rows = Unit
  Taken (suc n) [] = ⊥
  Taken (suc n) (none ∷ rows) = ⊥
  Taken (suc n) (some r ∷ rows) = Taken n rows

  get_or_in :
      (rows : List (Option (Row A))) (i : ℕ) (d e : Option (Row A))
      → i < length rows
      → get_or rows i d ≡ get_or rows i e
  get_or_in [] i d e h = absurd (omega arith)
  get_or_in (r ∷ rows) zero d e h = refl
  get_or_in (r ∷ rows) (suc i) d e h = get_or_in rows i d e (omega arith)

  -- Where the search of `_dmap_add_row` may stop.
  abbrev Stop : ℕ → ℕ → List (Option (Row A)) → Type 0
  Stop j i rows =
      (i ≤ j)
      × (j ≤ length rows)
      × (j < length rows → get_or rows j none ≡ none)
      × Taken (j - i) (drop i rows)

  Taken-step :
      (i j : ℕ) (rows : List (Option (Row A))) (r : Row A)
      → i < j
      → drop i rows ≡ some r ∷ drop (suc i) rows
      → Taken (j - (i + 1)) (drop (i + 1) rows)
      → Taken (j - i) (drop i rows)
  Taken-step i j rows r h e t =
      let k : j - i ≡ suc (j - (i + 1)) = omega arith in
      let l : i + 1 ≡ suc i = omega arith in
      rw (k, e) (subst (λ x. Taken (j - (i + 1)) (drop x rows)) l t)

  Taken-suc :
      (i j : ℕ) (rows : List (Option (Row A)))
      → i < j
      → i < length rows
      → get_or rows i none ≢ none
      → Taken (j - (i + 1)) (drop (i + 1) rows)
      → Taken (j - i) (drop i rows)
  Taken-suc i j rows h l ne t = elim (Option-cases (get_or rows i none)) [
    | inl e ↦ absurd (ne e)
    | inr (r, e) ↦ Taken-step i j rows r h (rw (← e) (drop_cell i rows l)) t
  ]

  first_free_from :
      (past : Option (Row A)) (n : ℕ) (rows : List (Option (Row A))) (i : ℕ)
      → i + n ≡ length rows + 1
      → i ≤ length rows
      → Stop (first_free past n rows i) i rows
  unfolding first_free
  first_free_from past zero rows i e h = absurd (omega arith)
  first_free_from past (suc n) rows i e h = ground (
    arith,
    first_free_from past n rows (i + 1) (omega arith),
    get_or_in rows i past none,
    drop_cell i rows,
    Taken-suc i (first_free past n rows (i + 1)) rows,
  )

  -- What `_dmap_add_row` may do with a row.
  abbrev pub AddOutcome : Row A → List (Option (Row A)) → Added × List (Option (Row A)) → Type 0
  AddOutcome row rows (added_at i, rows') =
      (i < length rows)
      × Taken i rows
      × (get_or rows i none ≡ none)
      × (rows' ≡ set rows i (some row))
  AddOutcome row rows (table_is_full, rows') = Taken (length rows) rows × (rows' ≡ rows)
  AddOutcome row rows (error_add, rows') = ⊥

  -- `_dmap_add_row` puts the row into the free cell of least index and changes no other, or says that
  -- the table is full, having found every cell taken; whatever lies behind the last cell.
  pub add_row_lem :
      (past : Option (Row A)) (rows : List (Option (Row A))) (row : Row A)
      → AddOutcome row rows (add_row past rows (some row))
  unfolding add_row
  add_row_lem past rows row =
      ground (arith, first_free_from past (length rows + 1) rows 0 (omega arith) (omega arith))

  -- A row that was added is read back by the index returned, and any other index `k` reads what it
  -- read before.
  pub get_item-add_row :
      (past : Option (Row A)) (rows rows' : List (Option (Row A))) (row : Row A) (i k : ℕ)
      → add_row past rows (some row) ≡ (added_at i, rows')
      → k ≢ i
      → (get_item rows' (pos i) ≡ row.item) × (get_item rows' (pos k) ≡ get_item rows (pos k))
  unfolding get_item
  get_item-add_row past rows rows' row i k e ne =
      let o : AddOutcome row rows (added_at i, rows') =
        subst (AddOutcome row rows) e (add_row_lem past rows row) in
      (
        ground (arith, get_or-set_self rows i (some row) none),
        ground (arith, get_or-set_ne rows i k (some row) none),
      )
