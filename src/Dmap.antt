-- ===== src/Dmap.antt =====
-- dmap/dmap.c, the tables that hold what the components share: rows by index, NULL where free.
-- Every typed table of dmap.c (features, group counters, listeners, mapped variables, threads) is
-- one instance of these functions by the macros of dmap/dmap_predefs.h. Locks are left out.
pub mod Walk
pub mod Rows
pub mod Removal
pub mod Update
mod Tests
use ntrt.Prelude.{
  ℕ, zero, suc, ◌+◌, ◌-◌, Bool, true, false, Option, none, some, List, [], ◌∷◌, ◌++◌, ltb, leb,
  ◌==◌, if◌then◌else◌, length, get_or, set, replicate,
}
use ntrt.Prelude.Int.{ℤ, pos, negsuc}

-- `dmap_row_t`: an item, which may be NULL, and whether a destructor is given for it.
pub record Row {ℓ} (A : Type ℓ) : Type ℓ where
  pub item : Option A
  pub has_dtor : Bool

-- What becomes of a row that is disposed of. Its own memory is freed in every case.
pub data Disposal {ℓ} (A : Type ℓ) : Type ℓ where
  nothing : Disposal A
  leaked : A → Disposal A
  destroyed : A → Disposal A

-- What `_dmap_add_row` returns.
pub data Added : Type 0 where
  added_at : ℕ → Added
  error_add : Added
  table_is_full : Added

module _ {ℓ} {A : Type ℓ} where
  -- The rows of a table of `size` rows, as `_dmap_table_init` leaves them.
  unfoldable pub table_init : ℕ → List (Option (Row A))
  table_init size = replicate size none

  -- `_dmap_row_dtor`.
  unfoldable pub row_dtor : Row A → Disposal A
  row_dtor r = elim r.item [
    | none ↦ nothing
    | some a ↦ if r.has_dtor then destroyed a else leaked a
  ]

  -- The loop of `_dmap_itr_table`, which goes on while a row is NULL: at most `n` more rounds.
  unfoldable pub skip : ℕ → List (Option (Row A)) → ℕ → ℕ
  skip zero rows i = i
  skip (suc n) rows i = elim (get_or rows i none) [ none ↦ skip n rows (i + 1) | some _ ↦ i ]

  -- `_dmap_itr_table`: the index that it leaves, and the row, `none` for BOOL_FALSE.
  unfoldable pub itr_table : List (Option (Row A)) → ℕ → ℕ × Option (Row A)
  unfolding skip
  itr_table rows i =
      let j : ℕ = skip (length rows - i) rows i in
      if leb (length rows) j then (j, none) else (j, get_or rows j none)

  -- `for(index = 0; itr(table, &index, &row); ++index)`: the rows that it visits, with their indices,
  -- from index `i` on; `n` bounds the rounds.
  unfoldable pub walk : ℕ → List (Option (Row A)) → ℕ → List (ℕ × Row A)
  unfolding itr_table
  walk zero rows i = []
  walk (suc n) rows i =
      let (j, row) = itr_table rows i in
      elim row [ none ↦ [] | some r ↦ (j, r) ∷ walk n rows (j + 1) ]

  unfoldable pub visit_all : List (Option (Row A)) → List (ℕ × Row A)
  unfolding walk
  visit_all rows = walk (length rows + 1) rows 0

  -- `_dmap_get_item`.
  unfoldable pub get_item : List (Option (Row A)) → ℤ → Option A
  get_item rows (negsuc _) = none
  get_item rows (pos i) = elim (get_or rows i none) [ none ↦ none | some r ↦ r.item ]

  -- `_dmap_rem`: the disposal, if there was a row, and the rows.
  unfoldable pub rem : List (Option (Row A)) → ℤ → Option (Disposal A) × List (Option (Row A))
  unfolding row_dtor
  rem rows (negsuc _) = (none, rows)
  rem rows (pos i) = elim (get_or rows i none) [
    | none ↦ (none, rows)
    | some r ↦ (some (row_dtor r), set rows i none)
  ]

  -- The loop of `_dmap_add_row`, `n` rounds: it tests a row before it tests the index, so on a full
  -- table it reads `past`, the cell behind the last row.
  unfoldable pub first_free : Option (Row A) → ℕ → List (Option (Row A)) → ℕ → ℕ
  first_free past zero rows i = i
  first_free past (suc n) rows i = elim (get_or rows i past) [
    | none ↦ i
    | some _ ↦
        let rest : ℕ = first_free past n rows (i + 1) in if ltb i (length rows) then rest else i
  ]

  -- `_dmap_add_row`.
  unfoldable pub add_row :
      Option (Row A) → List (Option (Row A)) → Option (Row A) → Added × List (Option (Row A))
  unfolding first_free
  add_row past rows none = (error_add, rows)
  add_row past rows (some row) =
      let i : ℕ = first_free past (length rows + 1) rows 0 in
      if i == length rows then (table_is_full, rows) else (added_at i, set rows i (some row))

  -- The loop of `_dmap_table_deinit`: what is disposed of, in order, and the rows.
  unfoldable pub deinit_loop :
      ℕ → List (Option (Row A)) → ℕ → List (Option (Disposal A)) × List (Option (Row A))
  deinit_loop zero rows i = ([], rows)
  deinit_loop (suc n) rows i =
      let (j, row) = itr_table rows i in
      elim row [
        | none ↦ ([], rows)
        | some r ↦
            let (gone, rows') = rem rows (pos j) in
            let (rest, rows'') = deinit_loop n rows' (j + 1) in (gone ∷ rest, rows'')
      ]

  unfoldable pub table_deinit :
      List (Option (Row A)) → List (Option (Disposal A)) × List (Option (Row A))
  unfolding deinit_loop itr_table rem
  table_deinit rows = deinit_loop (length rows + 1) rows 0

-- Pointers are compared by `same`.
module _ {ℓ} {A : Type ℓ} (same : A → A → Bool) where
  abbrev pub is_item : A → Option A → Bool
  is_item a none = false
  is_item a (some b) = same a b

  -- The loop of `_dmap_rem_item`: it goes on while a row is there and its item IS the one given.
  unfoldable pub rem_item_loop : ℕ → List (Option (Row A)) → A → ℕ → ℕ × Option (Row A)
  rem_item_loop zero rows item i = (i, none)
  rem_item_loop (suc n) rows item i =
      let (j, row) = itr_table rows i in
      elim row [
        | none ↦ (j, none)
        | some r ↦
            let rest : ℕ × Option (Row A) = rem_item_loop n rows item (j + 1) in
            if is_item item r.item then rest else (j, some r)
      ]

  -- `_dmap_rem_item`: the disposal, if the search stopped at a row. The table keeps the row.
  unfoldable pub rem_item : List (Option (Row A)) → A → Option (Disposal A) × List (Option (Row A))
  unfolding rem_item_loop
  rem_item rows item =
      let (i, row) = rem_item_loop (length rows + 1) rows item 0 in
      if i == length rows
      then (none, rows)
      else elim row [ none ↦ (none, rows) | some r ↦ (some (row_dtor r), rows) ]
