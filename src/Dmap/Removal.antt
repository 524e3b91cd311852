-- ===== src/Dmap/Removal.antt =====
-- Taking rows out of a table: by index, all of them, and by the item's address.
use ntrt.Prelude.{
  ℕ, zero, suc, ◌+◌, ◌≤◌, ◌<◌, ◌≡◌, ◌≢◌, refl, sym, ap, subst, if◌then◌else◌, ◌∙◌, Bool, false,
  Option, none, some, List, [], ◌∷◌, arith, length, get_or, set, length-set,
}
use ntrt.Prelude.Int.{pos}
use ntrt.Dmap.{
  Row, Disposal, destroyed, row_dtor, itr_table, rem, deinit_loop, table_deinit, rem_item_loop,
  rem_item, is_item,
}
use ntrt.Dmap.Walk.{entries, Found, drop, itr_table_lem}

module _ {A : Type 0} where
  drop-set :
      (rows : List (Option (Row A))) (j : ℕ) (v : Option (Row A))
      → drop (suc j) (set rows j v) ≡ drop (suc j) rows
  drop-set [] zero v = refl
  drop-set [] (suc j) v = refl
  drop-set (r ∷ rows) zero v = refl
  drop-set (r ∷ rows) (suc j) v = drop-set rows j v

  drop_suc-set :
      (rows : List (Option (Row A))) (j : ℕ) (v : Option (Row A))
      → drop (j + 1) (set rows j v) ≡ drop (j + 1) rows
  drop_suc-set rows j v =
      let next : suc j ≡ j + 1 = omega arith in
      subst (λ k. drop k (set rows j v) ≡ drop k rows) next (drop-set rows j v)

  -- `_dmap_rem` at a row disposes of it and clears its cell.
  pub rem-row :
      (rows : List (Option (Row A))) (j : ℕ) (r : Row A)
      → get_or rows j none ≡ some r
      → rem rows (pos j) ≡ (some (row_dtor r), set rows j none)
  unfolding rem
  rem-row rows j r e = ground arith

  entries-ge :
      (rows : List (Option (Row A))) (b j : ℕ) (r : Row A) (rest : List (ℕ × Row A))
      → entries b rows ≡ (j, r) ∷ rest
      → b ≤ j
  entries-ge [] b j r rest e = ground arith
  entries-ge (none ∷ rows) b j r rest e = omega (arith, entries-ge rows (b + 1) j r rest e)
  entries-ge (some s ∷ rows) b j r rest e = ground arith

  -- Clearing the first entry of a table leaves the others.
  entries-clear :
      (rows : List (Option (Row A))) (b j : ℕ) (r : Row A) (rest : List (ℕ × Row A))
      → entries b rows ≡ (b + j, r) ∷ rest
      → entries b (set rows j none) ≡ rest
  entries-clear [] b j r rest e = ground arith
  entries-clear (none ∷ rows) b zero r rest e =
      absurd (omega (arith, entries-ge rows (b + 1) (b + 0) r rest e))
  entries-clear (none ∷ rows) b (suc j) r rest e =
      entries-clear rows (b + 1) j r rest (e ∙ ap (λ k. (k, r) ∷ rest) (omega arith))
  entries-clear (some s ∷ rows) b zero r rest e = ground arith
  entries-clear (some s ∷ rows) b (suc j) r rest e = ground arith

  unfoldable pub disposals : List (ℕ × Row A) → List (Option (Disposal A))
  disposals [] = []
  disposals ((i, r) ∷ es) = some (row_dtor r) ∷ disposals es

  -- The outcome of draining a table from index `i` on.
  abbrev Drained :
      List (Option (Disposal A)) × List (Option (Row A)) → ℕ → List (Option (Row A)) → Type 0
  Drained out i rows = (out.0 ≡ disposals (entries i (drop i rows))) × (entries 0 out.1 ≡ [])

  deinit_step :
      (n : ℕ) (rows : List (Option (Row A))) (i : ℕ) (f : ℕ × Option (Row A))
      → ((rows' : List (Option (Row A))) (i' : ℕ)
          → i' ≤ length rows'
          → length rows' < i' + n
          → entries 0 rows' ≡ entries i' (drop i' rows')
          → Drained (deinit_loop n rows' i') i' rows')
      → length rows < i + suc n
      → entries 0 rows ≡ entries i (drop i rows)
      → itr_table rows i ≡ f
      → Found f i rows
      → Drained (deinit_loop (suc n) rows i) i rows
  unfolding deinit_loop disposals
  deinit_step n rows i (j, none) ih l e q fd = ground arith
  deinit_step n rows i (j, some r) ih l e q fd =
      let rows' = set rows j none in
      let same_rest : drop (j + 1) rows' ≡ drop (j + 1) rows = drop_suc-set rows j none in
      let left : entries 0 rows' ≡ entries (j + 1) (drop (j + 1) rows) =
        entries-clear rows 0 j r (entries (j + 1) (drop (j + 1) rows))
          (e ∙ fd.3 ∙ ap (λ k. (k, r) ∷ entries (j + 1) (drop (j + 1) rows)) (omega arith)) in
      let size : length rows' ≡ length rows = length-set rows j none in
      let after : Drained (deinit_loop n rows' (j + 1)) (j + 1) rows' =
        ih rows' (j + 1) (omega arith) (omega arith)
          (left ∙ ap (entries (j + 1)) (sym same_rest)) in
      ground (arith, rem-row rows j r fd.2, ap (entries (j + 1)) same_rest)

  deinit_loop_lem :
      (n : ℕ) (rows : List (Option (Row A))) (i : ℕ)
      → i ≤ length rows
      → length rows < i + n
      → entries 0 rows ≡ entries i (drop i rows)
      → Drained (deinit_loop n rows i) i rows
  deinit_loop_lem zero rows i h l e = absurd (omega arith)
  deinit_loop_lem (suc n) rows i h l e =
      deinit_step n rows i (itr_table rows i) (deinit_loop_lem n) l e refl (itr_table_lem rows i h)

  -- `_dmap_table_deinit` disposes of every row of the table exactly once, in the order of the
  -- indices, and leaves a table with no row.
  pub table_deinit_lem :
      (rows : List (Option (Row A)))
      → ((table_deinit rows).0 ≡ disposals (entries 0 rows))
        × (entries 0 (table_deinit rows).1 ≡ [])
  unfolding table_deinit
  table_deinit_lem rows = deinit_loop_lem (length rows + 1) rows 0 (omega arith) (omega arith) refl

  abbrev pub disposal_of : Option (Row A) → Option (Disposal A)
  disposal_of none = none
  disposal_of (some r) = some (row_dtor r)

module _ {A : Type 0} (same : A → A → Bool) where
  -- What `_dmap_rem_item` disposes of, by the rows: the first whose item is NOT the one given.
  unfoldable pub first_other : A → List (ℕ × Row A) → Option (Row A)
  first_other item [] = none
  first_other item ((i, r) ∷ es) = if is_item same item r.item then first_other item es else some r

  rem_item_loop_lem :
      (n : ℕ) (rows : List (Option (Row A))) (item : A) (i : ℕ)
      → i ≤ length rows
      → length rows < i + n
      → ((rem_item_loop same n rows item i).1 ≡ first_other item (entries i (drop i rows)))
        × ((rem_item_loop same n rows item i).1 ≢ none
            → (rem_item_loop same n rows item i).0 < length rows)
  unfolding rem_item_loop first_other
  rem_item_loop_lem zero rows item i h l = absurd (omega arith)
  rem_item_loop_lem (suc n) rows item i h l =
      ground
        (arith, itr_table_lem rows i h, rem_item_loop_lem n rows item ((itr_table rows i).0 + 1))

  first_other-differs :
      (es : List (ℕ × Row A)) (item b : A) (r : Row A)
      → first_other item es ≡ some r
      → r.item ≡ some b
      → same item b ≡ false
  unfolding first_other
  first_other-differs [] item b r e q = ground arith
  first_other-differs ((i, s) ∷ es) item b r e q = ground (arith, first_other-differs es item b r)

  -- `_dmap_rem_item` disposes of the first row whose item is not the one given, if there is such a
  -- row, and leaves the table as it was.
  pub rem_item_lem :
      (rows : List (Option (Row A))) (item : A)
      → rem_item same rows item ≡ (disposal_of (first_other item (entries 0 rows)), rows)
  unfolding rem_item
  rem_item_lem rows item =
      ground (arith, rem_item_loop_lem (length rows + 1) rows item 0 (omega arith) (omega arith))

  -- What `_dmap_rem_item` destroys is never the item that it is asked to remove.
  pub rem_item_misses :
      (rows : List (Option (Row A))) (item b : A)
      → (rem_item same rows item).0 ≡ some (destroyed b)
      → same item b ≡ false
  unfolding row_dtor
  rem_item_misses rows item b e =
      go (first_other item (entries 0 rows)) refl (sym (ap (λ x. x.0) (rem_item_lem rows item)) ∙ e)
    where
      go :
          (o : Option (Row A))
          → first_other item (entries 0 rows) ≡ o
          → disposal_of (first_other item (entries 0 rows)) ≡ some (destroyed b)
          → same item b ≡ false
      go none q d = ground arith
      go (some r) q d = first_other-differs (entries 0 rows) item b r q (ground arith)
