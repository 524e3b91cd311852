-- ===== src/Bintree/Valid.antt =====
-- A tree in order, and the greatest node of a subtree as its search finds it.
use ntrt.Prelude.{
  ℕ, ◌<◌, ◌≡◌, ◌≢◌, ◌∙◌, refl, sym, ap, ap₂, subst, none, some, List, [], ◌∷◌, ◌++◌, arith, length,
}
use ntrt.Bintree.{Bintreenode, Tree, leaf, node, Bintree, get_rightest}
use ntrt.Bintree.Change.{search_value}
use ntrt.Bintree.Nodes.{nodes, last, get_rightest-last}
use ntrt.Bintree.Search.{AllBelow, found_right, found_here, gt-compare, eq-compare}
use ntrt.Bintree.Order.{
  All-right, Above, Below, Absent, Sorted, Sorted-right, Sorted-Above, search_value-Absent,
}
use ntrt.Bintree.Pointers.{Distinct, Ends}

module _ {ℓ} {D : Type ℓ} where
  abbrev head : Bintreenode D → List (Bintreenode D) → Bintreenode D
  head d [] = d
  head d (m ∷ ms) = m

  abbrev tail : List (Bintreenode D) → List (Bintreenode D)
  tail [] = []
  tail (m ∷ ms) = ms

  -- A list that ends in a node.
  pub last_split :
      (ns : List (Bintreenode D)) (c : Bintreenode D)
      → last ns ≡ some c
      → (init : List (Bintreenode D)) × (ns ≡ init ++ c ∷ [])
  last_split [] c e = absurd (cc)
  last_split (n ∷ []) c e = ([], ap (λ o. elim o [ none ↦ n ∷ [] | some m ↦ m ∷ [] ]) e)
  last_split (n ∷ m ∷ ns) c e =
      let (init, f) = last_split (m ∷ ns) c e in (n ∷ init, ap (λ t. n ∷ t) f)

module _ {ℓ} {D : Type ℓ} (rank : D → ℕ) where
  -- The nodes of the tree are `ns`, in ascending order, at different addresses; the pointers lead
  -- to its ends, and the counter is right.
  pub record Valid (this : Bintree D) (ns : List (Bintreenode D)) : Type ℓ where
    pub holds : nodes this.root ≡ ns
    pub sorted : Sorted rank ns
    pub distinct : Distinct ns
    pub ends : Ends this ns
    pub counted : this.node_counter ≡ length ns

  pub AllBelow-Below : (j : ℕ) (ns : List (Bintreenode D)) → Below rank j ns → AllBelow rank j ns
  AllBelow-Below j [] b = tt
  AllBelow-Below j (n ∷ ns) (a, b) = (a, AllBelow-Below j ns b)

  -- No two places of an ordered list have one rank.
  pub same_place :
      (xs : List (Bintreenode D)) (n : Bintreenode D) (ys xs' : List (Bintreenode D))
      (n' : Bintreenode D) (ys' : List (Bintreenode D))
      → xs ++ n ∷ ys ≡ xs' ++ n' ∷ ys'
      → rank n.datum ≡ rank n'.datum
      → Sorted rank (xs ++ n ∷ ys)
      → (xs ≡ xs') × (n ≡ n') × (ys ≡ ys')
  same_place [] n ys [] n' ys' e r s = (refl, ap (head n) e, ap tail e)
  same_place [] n ys (x' ∷ xs') n' ys' e r s =
      let above : Above rank (rank n.datum) (xs' ++ n' ∷ ys') =
        subst (Above rank (rank n.datum)) (ap tail e) s.0 in
      let high : rank n.datum < rank n'.datum =
        (All-right (λ m. rank n.datum < rank m.datum) xs' (n' ∷ ys') above).0 in
      absurd (omega arith)
  same_place (x ∷ xs) n ys [] n' ys' e r s =
      let same : rank x.datum ≡ rank n'.datum = ap (λ m. rank m.datum) (ap (head n) e) in
      let high : rank x.datum < rank n.datum =
        (All-right (λ m. rank x.datum < rank m.datum) xs (n ∷ ys) s.0).0 in
      absurd (omega arith)
  same_place (x ∷ xs) n ys (x' ∷ xs') n' ys' e r s =
      let rest = same_place xs n ys xs' n' ys' (ap tail e) r s.1 in
      (ap₂ ◌∷◌ (ap (head n) e) rest.0, rest.1, rest.2)

  -- A node of the list is found.
  pub not_missed :
      (t : Tree D) (xs : List (Bintreenode D)) (n : Bintreenode D) (ys : List (Bintreenode D))
      → nodes t ≡ xs ++ n ∷ ys
      → Sorted rank (xs ++ n ∷ ys)
      → ¬ (search_value rank t (rank n.datum) ≡ none)
  not_missed t xs n ys e s f =
      let a = search_value-Absent rank t (rank n.datum) (subst (Sorted rank) (sym e) s) f in
      (All-right (λ m. rank n.datum ≢ rank m.datum) xs (n ∷ ys)
          (subst (Absent rank (rank n.datum)) e a)).0
        refl

  pub rightest_at :
      (l : Tree D) (n : Bintreenode D) (r : Tree D)
      → (l2 : Tree D) × (c : Bintreenode D) × (get_rightest (node l n r) ≡ some c)
        × (Sorted rank (nodes (node l n r))
            → search_value rank (node l n r) (rank c.datum) ≡ some (l2, c, leaf))
  unfolding get_rightest nodes
  rightest_at l n leaf =
      (l, n, refl, λ s. found_here rank l n leaf (rank n.datum) (eq-compare (rank n.datum)))
  rightest_at l n (node rl m rr) =
      let (l2, c, e, f) = rightest_at rl m rr in
      let split =
        last_split (nodes (node rl m rr)) c (sym (get_rightest-last (node rl m rr)) ∙ e) in
      (
        l2,
        c,
        e,
        λ s.
            let above =
              subst (Above rank (rank n.datum)) split.1
                (Sorted-Above rank (nodes l) n (nodes (node rl m rr)) s) in
            let high : rank n.datum < rank c.datum =
              (All-right (λ m'. rank n.datum < rank m'.datum) split.0 (c ∷ []) above).0 in
            found_right rank l n (node rl m rr) (rank c.datum)
              (gt-compare (rank c.datum) (rank n.datum) high)
            ∙ f (Sorted-right rank (nodes l) (n ∷ nodes (node rl m rr)) s).1,
      )
