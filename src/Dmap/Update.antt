-- ===== src/Dmap/Update.antt =====
-- A loop over a table's rows that changes, for each row, the cell of an array at the row's index: the
-- form of the `start` functions of the components.
use ntrt.Prelude.{
  ℕ, zero, suc, ◌+◌, ◌≤◌, ◌<◌, ◌≡◌, refl, ap, subst, ◌∙◌, sym, Option, none, some, List, [], ◌∷◌,
  arith, length, get_or, set, length-set, get_or-set_self, get_or-set_ne,
}
use ntrt.Dmap.{Row}
use ntrt.Dmap.Walk.{entries}

-- No row of the table has a NULL item.
abbrev pub AllItems : {A : Type 0} → List (Option (Row A)) → Type 0
AllItems [] = Unit
AllItems (none ∷ rows) = AllItems rows
AllItems {A} (some r ∷ rows) = ((a : A) × (r.item ≡ some a)) × AllItems rows

module _ {A S : Type 0} (step : ℕ → A → S → S) (d : S) where
  -- The loop; `none` where it reads a NULL item.
  unfoldable pub update : List (ℕ × Row A) → List S → Option (List S)
  update [] xs = some xs
  update ((i, r) ∷ rows) xs = elim r.item [
    | none ↦ none
    | some a ↦ update rows (set xs i (step i a (get_or xs i d)))
  ]

  -- What the loop makes of the cell at index `i`.
  abbrev pub updated : ℕ → Option (Row A) → S → S
  updated i none x = x
  updated i (some r) x = elim r.item [ none ↦ x | some a ↦ step i a x ]

  -- The loop ends, and each cell is that of its row.
  pub record Updated (k : ℕ) (rows : List (Option (Row A))) (xs : List S) : Type 0 where
    pub final : List S
    pub runs : update (entries k rows) xs ≡ some final
    pub same_length : length final ≡ length xs
    pub before : (i : ℕ) → i < k → get_or final i d ≡ get_or xs i d
    pub cells :
        (i : ℕ)
        → i < length rows
        → get_or final (k + i) d ≡ updated (k + i) (get_or rows i none) (get_or xs (k + i) d)

  -- The cell at `i` places behind `k`, once the row `row` at `k` is behind.
  CellAt : ℕ → ℕ → List (Option (Row A)) → List S → List S → Type 0
  CellAt k i rows xs final =
      get_or final (k + i) d ≡ updated (k + i) (get_or rows i none) (get_or xs (k + i) d)

  next_cell : (k i : ℕ) → (k + 1) + i ≡ k + suc i
  next_cell k i = omega arith

  plus_zero : (k : ℕ) → k ≡ k + 0
  plus_zero k = omega arith

  cell_behind :
      (k i : ℕ) (row : Option (Row A)) (rows : List (Option (Row A))) (xs final : List S)
      → CellAt (k + 1) i rows xs final
      → CellAt k (suc i) (row ∷ rows) xs final
  unfolding CellAt
  cell_behind k i row rows xs final h =
      subst (λ j. get_or final j d ≡ updated j (get_or rows i none) (get_or xs j d)) (next_cell k i)
        h

  cell_here :
      (k : ℕ) (row : Option (Row A)) (rows : List (Option (Row A))) (xs final : List S)
      → get_or final k d ≡ updated k row (get_or xs k d)
      → CellAt k zero (row ∷ rows) xs final
  unfolding CellAt
  cell_here k row rows xs final h =
      subst (λ j. get_or final j d ≡ updated j row (get_or xs j d)) (plus_zero k) h

  cells_none :
      (k : ℕ) (rows : List (Option (Row A))) (xs : List S) (u : Updated (k + 1) rows xs) (i : ℕ)
      → i < suc (length rows)
      → CellAt k i (none ∷ rows) xs u.final
  unfolding CellAt
  cells_none k rows xs u zero l = cell_here k none rows xs u.final (u.before k (omega arith))
  cells_none k rows xs u (suc i) l = cell_behind k i none rows xs u.final (u.cells i (omega arith))

  cells_some :
      (k : ℕ) (r : Row A) (a : A) (rows : List (Option (Row A))) (xs : List S)
      → r.item ≡ some a
      → k < length xs
      → (u : Updated (k + 1) rows (set xs k (step k a (get_or xs k d)))) (i : ℕ)
      → i < suc (length rows)
      → CellAt k i (some r ∷ rows) xs u.final
  unfolding CellAt
  cells_some k r a rows xs e l u zero l' = cell_here k (some r) rows xs u.final (
      u.before k (omega arith)
      ∙ get_or-set_self xs k (step k a (get_or xs k d)) d l
      ∙ sym (ap (λ t. elim t [ none ↦ get_or xs k d | some a ↦ step k a (get_or xs k d) ]) e))
  cells_some k r a rows xs e l u (suc i) l' = cell_behind k i (some r) rows xs u.final (
      u.cells i (omega arith)
      ∙ ap (λ x. updated (k + 1 + i) (get_or rows i none) x)
          (get_or-set_ne xs k (k + 1 + i) (step k a (get_or xs k d)) d
            (λ e'. absurd (omega arith))))

  update_none :
      (k : ℕ) (rows : List (Option (Row A))) (xs : List S)
      → Updated (k + 1) rows xs
      → Updated k (none ∷ rows) xs
  unfolding CellAt
  update_none k rows xs u = record {
    final = u.final;
    runs = u.runs;
    same_length = u.same_length;
    before = λ i l. u.before i (omega arith);
    cells = cells_none k rows xs u;
  }

  update_some :
      (k : ℕ) (r : Row A) (a : A) (rows : List (Option (Row A))) (xs : List S)
      → r.item ≡ some a
      → k < length xs
      → Updated (k + 1) rows (set xs k (step k a (get_or xs k d)))
      → Updated k (some r ∷ rows) xs
  unfolding CellAt update
  update_some k r a rows xs e l u = record {
    final = u.final;
    runs =
        ap
          (λ t. elim t [
            | none ↦ none
            | some a ↦ update (entries (k + 1) rows) (set xs k (step k a (get_or xs k d)))
          ])
          e
        ∙ u.runs;
    same_length = u.same_length ∙ length-set xs k (step k a (get_or xs k d));
    before = λ i l'.
        u.before i (omega arith)
        ∙ get_or-set_ne xs k i (step k a (get_or xs k d)) d (λ e'. absurd (omega arith));
    cells = cells_some k r a rows xs e l u;
  }

  pub update_lem :
      (k : ℕ) (rows : List (Option (Row A))) (xs : List S)
      → AllItems rows
      → k + length rows ≤ length xs
      → Updated k rows xs
  unfolding update
  update_lem k [] xs h l = record {
    final = xs;
    runs = refl;
    same_length = refl;
    before = λ i l'. refl;
    cells = λ i l'. absurd (omega arith);
  }
  update_lem k (none ∷ rows) xs h l =
      update_none k rows xs (update_lem (k + 1) rows xs h (omega arith))
  update_lem k (some r ∷ rows) xs ((a, e), h) l = update_some k r a rows xs e (omega arith) (
      update_lem (k + 1) rows (set xs k (step k a (get_or xs k d))) h
        (omega (arith, length-set xs k (step k a (get_or xs k d)))))
