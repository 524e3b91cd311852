-- ===== src/Bintree/Replacement.antt =====
-- Removal of a node with two links: the greatest node on its left is popped, and its values copied.
use ntrt.Prelude.{
  ℕ, ◌<◌, ◌≡◌, ◌∙◌, refl, sym, ap, ap₂, subst, none, some, List, [], ◌∷◌, ◌++◌, arith,
  length-append, append_assoc, inl, inr,
}
use ntrt.Bintree.{Bintreenode, Tree, leaf, node, Bintree, get_rightest, refresh}
use ntrt.Bintree.Change.{search_value, overwrite, only_link, pop_out, copy_values}
use ntrt.Bintree.Nodes.{nodes, get_rightest-last}
use ntrt.Bintree.Search.{Located, search_value_lem}
use ntrt.Bintree.Order.{
  All-left, All-right, Below, Sorted, Sorted-left, Sorted-right, Sorted-Below, Sorted-remove,
  Sorted-replace,
}
use ntrt.Bintree.Pointers.{Distinct, Distinct-Unused, refresh_elsewhere}
use ntrt.Bintree.Substitution.{Distinct-replace, Unused-replace, Ends-replace}
use ntrt.Bintree.Valid.{Valid, AllBelow-Below, same_place, not_missed, last_split, rightest_at}
use ntrt.Bintree.Removal.{only_link_leaf, located, place, pop_out_lem}

module _ {ℓ} {D : Type ℓ} (rank : D → ℕ) where
  -- The candidate for a node with two links: its search finds it, without a right link.
  pub record Candidate (this : Bintree D) (l : Tree D) : Type ℓ where
    pub c : Bintreenode D
    pub init : List (Bintreenode D)
    pub left : Tree D
    pub rightest : get_rightest l ≡ some c
    pub ends : nodes l ≡ init ++ c ∷ []
    pub finds : search_value rank this.root (rank c.datum) ≡ some (left, c, leaf)

  subtree_place :
      (before init : List (Bintreenode D)) (c n : Bintreenode D) (ys : List (Bintreenode D))
      → (before ++ (init ++ c ∷ [])) ++ n ∷ ys ≡ (before ++ init) ++ c ∷ (n ∷ ys)
  subtree_place before init c n ys =
      ap (λ t. t ++ n ∷ ys) (sym (append_assoc before init (c ∷ [])))
      ∙ append_assoc (before ++ init) (c ∷ []) (n ∷ ys)

  pub candidate_lem :
      (this : Bintree D) (ns : List (Bintreenode D)) (k : ℕ) (l : Tree D) (n : Bintreenode D)
      (r : Tree D)
      → Valid rank this ns
      → Located rank this.root k l n r
      → only_link l r ≡ none
      → Candidate this l
  unfolding only_link
  candidate_lem this ns k leaf n r v h o = absurd (cc)
  candidate_lem this ns k (node ll m lr) n r v h o =
      let l = node ll m lr in
      let (left, c, e, f) = rightest_at rank ll m lr in
      let (init, g) = last_split (nodes l) c (sym (get_rightest-last l) ∙ e) in
      let p = place rank this ns k l n r v h in
      let s = subst (Sorted rank) p v.sorted in
      let below = Sorted-Below rank (h.before ++ nodes l) n (nodes r ++ h.after) s in
      let s' =
        subst (Sorted rank)
          (ap (λ t. (h.before ++ t) ++ n ∷ (nodes r ++ h.after)) g
            ∙ subtree_place h.before init c n (nodes r ++ h.after))
          s in
      let before_c = Sorted-Below rank (h.before ++ init) c (n ∷ (nodes r ++ h.after)) s' in
      let under : rank c.datum < rank n.datum =
        (All-right (λ m. rank m.datum < rank n.datum) init (c ∷ [])
          (subst (Below rank (rank n.datum)) g
            (All-right (λ m. rank m.datum < rank n.datum) h.before (nodes l) below))).0 in
      record {
        c = c;
        init = init;
        left = left;
        rightest = e;
        ends = g;
        finds =
            h.descends (rank c.datum)
              (AllBelow-Below rank (rank c.datum) h.before
                (All-left (λ m. rank m.datum < rank c.datum) h.before init before_c))
              under
            ∙ f (
                Sorted-right rank h.before (nodes l)
                  (Sorted-left rank (h.before ++ nodes l) (n ∷ (nodes r ++ h.after)) s));
      }

  -- The tree between the two steps: the candidate is out, the node found is where it was.
  pub popped_lem :
      (this : Bintree D) (ns : List (Bintreenode D)) (k : ℕ) (l : Tree D) (n : Bintreenode D)
      (r : Tree D)
      → Valid rank this ns
      → (h : Located rank this.root k l n r) → (a : Candidate this l)
      → (ns ≡ (h.before ++ a.init) ++ a.c ∷ (n ∷ (nodes r ++ h.after)))
        × Valid rank
            (pop_out rank this (rank a.c.datum) a.c a.left)
            ((h.before ++ a.init) ++ n ∷ (nodes r ++ h.after))
  popped_lem this ns k l n r v h a =
      let ys = nodes r ++ h.after in
      let p =
        place rank this ns k l n r v h
        ∙ ap (λ t. (h.before ++ t) ++ n ∷ ys) a.ends
        ∙ subtree_place h.before a.init a.c n ys in
      let h2 = located rank this.root (rank a.c.datum) a.left a.c leaf a.finds in
      let p2 = place rank this ns (rank a.c.datum) a.left a.c leaf v h2 in
      let same =
        same_place rank (h.before ++ a.init) a.c (n ∷ ys) (h2.before ++ nodes a.left) a.c
          (nodes leaf ++ h2.after) (sym p ∙ p2) refl (subst (Sorted rank) p v.sorted) in
      (
        p,
        subst (Valid rank (pop_out rank this (rank a.c.datum) a.c a.left))
            (ap₂ ◌++◌ (sym same.0) (sym same.2))
            (pop_out_lem rank this ns (rank a.c.datum) a.left a.c leaf a.left v h2
              (only_link_leaf a.left)),
      )

  -- The node found gets values of the rank that stood before it.
  pub overwritten_lem :
      (t : Tree D) (xs : List (Bintreenode D)) (n m : Bintreenode D) (ys : List (Bintreenode D))
      → nodes t ≡ xs ++ n ∷ ys
      → Sorted rank (xs ++ n ∷ ys)
      → nodes (overwrite rank t (rank n.datum) m) ≡ xs ++ m ∷ ys
  overwritten_lem t xs n m ys e s = elim (search_value_lem rank t (rank n.datum)) [
    | inl f ↦ absurd (not_missed rank t xs n ys e s f)
    | inr (l, n', r, f, h) ↦
        let q =
          sym e ∙ h.found ∙ sym (append_assoc h.before (nodes l) (n' ∷ (nodes r ++ h.after))) in
        let same =
          same_place rank xs n ys (h.before ++ nodes l) n' (nodes r ++ h.after) q (sym h.same) s in
        h.overwritten m
        ∙ sym (append_assoc h.before (nodes l) (m ∷ (nodes r ++ h.after)))
        ∙ ap₂ (λ x y. x ++ m ∷ y) (sym same.0) (sym same.2)
  ]

  pub copy_values_lem :
      (this popped : Bintree D) (ns xs : List (Bintreenode D)) (c n : Bintreenode D)
      (ys : List (Bintreenode D))
      → Valid rank this ns
      → ns ≡ xs ++ c ∷ (n ∷ ys)
      → Valid rank popped (xs ++ n ∷ ys)
      → Valid rank
          (copy_values rank popped (rank n.datum) n c)
          (xs ++ record n { datum = c.datum; ref = c.ref } ∷ ys)
  unfolding copy_values refresh
  copy_values_lem this popped ns xs c n ys v p w =
      let m : Bintreenode D = record n { datum = c.datum; ref = c.ref } in
      let root = overwrite rank popped.root (rank n.datum) m in
      let unused =
        Unused-replace c.address xs n m ys refl
          (Distinct-Unused xs c (n ∷ ys) (subst Distinct p v.distinct)) in
      let e =
        refresh_elsewhere (record popped { root = root }) (xs ++ m ∷ ys) c.address leaf leaf
          (Ends-replace popped xs n m ys root refl w.ends) unused in
      record {
        holds = overwritten_lem popped.root xs n m ys w.holds w.sorted;
        sorted = Sorted-replace rank xs c m ys refl (
            subst (Sorted rank) (append_assoc xs (c ∷ []) ys) (
              Sorted-remove rank (xs ++ c ∷ []) n ys
                (subst (Sorted rank) (p ∙ sym (append_assoc xs (c ∷ []) (n ∷ ys))) v.sorted)));
        distinct = Distinct-replace xs n m ys refl w.distinct;
        ends = record { top = e.top; bottom = e.bottom };
        counted = omega (arith, w.counted, length-append xs (n ∷ ys), length-append xs (m ∷ ys));
      }
