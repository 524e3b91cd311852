-- ===== src/Dmap/Walk.antt =====
-- Iterating a table visits its rows, each once, in the order of their indices.
use ntrt.Prelude.{
  ℕ, zero, suc, ◌+◌, ◌-◌, ◌≤◌, ◌<◌, ◌≡◌, refl, Option, none, some, List, [], ◌∷◌, arith, leb,
  if◌then◌else◌, length, get_or,
}
use ntrt.Dmap.{Row, skip, itr_table, walk, visit_all}

module _ {A : Type 0} where
  -- The rows that are there, from index `i` on.
  abbrev pub entries : ℕ → List (Option (Row A)) → List (ℕ × Row A)
  entries i [] = []
  entries i (none ∷ rows) = entries (i + 1) rows
  entries i (some r ∷ rows) = (i, r) ∷ entries (i + 1) rows

  abbrev pub drop : ℕ → List (Option (Row A)) → List (Option (Row A))
  drop zero rows = rows
  drop (suc n) [] = []
  drop (suc n) (r ∷ rows) = drop n rows

  -- The cell at `i` is the first of what is left after dropping `i`.
  pub drop_cell :
      (i : ℕ) (rows : List (Option (Row A)))
      → i < length rows
      → drop i rows ≡ get_or rows i none ∷ drop (suc i) rows
  drop_cell i [] h = absurd (omega arith)
  drop_cell zero (r ∷ rows) h = refl
  drop_cell (suc i) (r ∷ rows) h = drop_cell i rows (omega arith)

  pub drop_end : (i : ℕ) (rows : List (Option (Row A))) → length rows ≤ i → drop i rows ≡ []
  drop_end zero [] h = refl
  drop_end (suc i) [] h = refl
  drop_end zero (r ∷ rows) h = absurd (omega arith)
  drop_end (suc i) (r ∷ rows) h = drop_end i rows (omega arith)

  -- What `_dmap_itr_table` finds from `i` on is the first entry from `i` on.
  abbrev pub Found : ℕ × Option (Row A) → ℕ → List (Option (Row A)) → Type 0
  Found (j, none) i rows = entries i (drop i rows) ≡ []
  Found (j, some r) i rows =
      (i ≤ j)
      × (j < length rows)
      × (get_or rows j none ≡ some r)
      × (entries i (drop i rows) ≡ (j, r) ∷ entries (j + 1) (drop (j + 1) rows))

  pub itr_from :
      (n : ℕ) (rows : List (Option (Row A))) (i : ℕ)
      → i + n ≡ length rows
      → Found
          (let j = skip n rows i in
            if leb (length rows) j then (j, none) else (j, get_or rows j none))
          i
          rows
  unfolding skip
  itr_from zero rows i e = ground (arith, drop_end i rows)
  itr_from (suc n) rows i e =
      ground (arith, itr_from n rows (i + 1) (omega arith), drop_cell i rows)

  -- `_dmap_itr_table` finds the first row at the index given or behind it, or says that there is none.
  pub itr_table_lem :
      (rows : List (Option (Row A))) (i : ℕ) → i ≤ length rows → Found (itr_table rows i) i rows
  unfolding itr_table
  itr_table_lem rows i h = itr_from (length rows - i) rows i (omega arith)

  walk-entries :
      (n : ℕ) (rows : List (Option (Row A))) (i : ℕ)
      → i ≤ length rows
      → length rows < i + n
      → walk n rows i ≡ entries i (drop i rows)
  unfolding walk
  walk-entries zero rows i h l = absurd (omega arith)
  walk-entries (suc n) rows i h l =
      ground (arith, itr_table_lem rows i h, walk-entries n rows ((itr_table rows i).0 + 1))

  -- The iteration of a table visits exactly its rows, each once, with their indices, in order.
  pub visit_all_lem : (rows : List (Option (Row A))) → visit_all rows ≡ entries 0 rows
  unfolding visit_all
  visit_all_lem rows = walk-entries (length rows + 1) rows 0 (omega arith) (omega arith)
