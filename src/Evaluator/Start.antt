-- ===== src/Evaluator/Start.antt =====
-- `_evaluator_start` over the listener table.
use ntrt.Prelude.{
  ℕ, zero, suc, ◌+◌, ◌≤◌, ◌<◌, ◌≡◌, refl, sym, ap, ◌∙◌, Option, none, some, List, [], ◌∷◌, arith,
  length, get_elem?, get_or, set,
}
use ntrt.Slist.{slist_cpy}
use ntrt.Dmap.{Row, visit_all}
use ntrt.Dmap.Walk.{entries, visit_all_lem}
use ntrt.Dmap.Update.{AllItems, update, updated, update_lem}
use ntrt.Listener.{EvaluatorItem, Listener}
use ntrt.Evaluator.{CmpEvaluatorItem, evaluator_start}

abbrev no_items : CmpEvaluatorItem
no_items = record { evaluators = []; feature_num = 0 }

zero_plus : (n : ℕ) → 0 + n ≡ n
zero_plus n = omega arith

elem-get_or :
    (xs : List CmpEvaluatorItem) (i : ℕ)
    → i < length xs
    → get_elem? xs i ≡ some (get_or xs i no_items)
elem-get_or [] i l = absurd (omega arith)
elem-get_or (x ∷ xs) zero l = refl
elem-get_or (x ∷ xs) (suc i) l = elem-get_or xs i (omega arith)

module _ (junk : ℕ → List EvaluatorItem) where
  -- The change that the start makes for one listener.
  abbrev pub copied : ℕ → Listener → CmpEvaluatorItem
  copied i l = record { evaluators = slist_cpy (junk i) l.evaluators; feature_num = l.feature_num }

  abbrev started : ℕ → Listener → CmpEvaluatorItem → CmpEvaluatorItem
  started i l _ = copied i l

  start_one :
      (item : Option Listener) (rows : List (ℕ × Row Listener)) (i : ℕ) (xs : List CmpEvaluatorItem)
      → ((ys : List CmpEvaluatorItem)
          → evaluator_start junk rows ys ≡ update started no_items rows ys)
      → elim item [ none ↦ none | some l ↦ evaluator_start junk rows (set xs i (copied i l)) ]
        ≡ elim item [ none ↦ none | some l ↦ update started no_items rows (set xs i (copied i l)) ]
  start_one none rows i xs h = refl
  start_one (some l) rows i xs h = h (set xs i (copied i l))

  start-update :
      (rows : List (ℕ × Row Listener)) (xs : List CmpEvaluatorItem)
      → evaluator_start junk rows xs ≡ update started no_items rows xs
  unfolding evaluator_start update
  start-update [] xs = refl
  start-update ((i, row) ∷ rows) xs = start_one row.item rows i xs (start-update rows)

  -- The start ended, and the listener `l` at index `i` has its items.
  pub record Started (rows : List (Option (Row Listener))) (xs : List CmpEvaluatorItem) (i : ℕ)
      (l : Listener) : Type 0 where
    pub final : List CmpEvaluatorItem
    pub runs : evaluator_start junk (visit_all rows) xs ≡ some final
    pub item : get_elem? final i ≡ some (copied i l)

  started_cell :
      (i : ℕ) (row : Row Listener) (l : Listener) (x : CmpEvaluatorItem)
      → row.item ≡ some l
      → updated started no_items i (some row) x ≡ copied i l
  started_cell i row l x e = cc

  -- On a table of listeners without a NULL item, no longer than the array, the start ends without a
  -- fault, and a listener of the table has the copy of its items, as `slist_cpy` makes it.
  pub evaluator_start_lem :
      (rows : List (Option (Row Listener))) (xs : List CmpEvaluatorItem) (i : ℕ)
      (row : Row Listener) (l : Listener)
      → AllItems rows
      → length rows ≤ length xs
      → i < length rows
      → get_or rows i none ≡ some row
      → row.item ≡ some l
      → Started rows xs i l
  evaluator_start_lem rows xs i row d h l k e f =
      let u = update_lem started no_items 0 rows xs h (omega arith) in
      let cell : get_or u.final i no_items ≡ copied i d =
        ap (λ j. get_or u.final j no_items) (sym (zero_plus i))
        ∙ u.cells i k
        ∙ ap (λ j. updated started no_items j (get_or rows i none) (get_or xs j no_items))
            (zero_plus i)
        ∙ ap (λ r. updated started no_items i r (get_or xs i no_items)) e
        ∙ started_cell i row d (get_or xs i no_items) f in
      record {
        final = u.final;
        runs =
            ap (λ v. evaluator_start junk v xs) (visit_all_lem rows)
            ∙ start-update (entries 0 rows) xs
            ∙ u.runs;
        item = elem-get_or u.final i (omega (arith, u.same_length)) ∙ ap some cell;
      }
