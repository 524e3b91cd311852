-- ===== src/Bintree/Removal.antt =====
-- Removal of a node from a tree in order.
use ntrt.Prelude.{
  ℕ, ◌-◌, ◌≡◌, ◌∙◌, refl, sym, ap, subst, none, some, List, ◌∷◌, ◌++◌, arith, length, length-append,
  append_assoc, inl, inr,
}
use ntrt.Slist.{append_nil}
use ntrt.Bintree.{Bintreenode, Tree, leaf, node, Bintree, refresh}
use ntrt.Bintree.Change.{search_value, relink, only_link, pop_out, remove_node}
use ntrt.Bintree.Nodes.{nodes}
use ntrt.Bintree.Search.{Located, search_value_lem}
use ntrt.Bintree.Order.{Sorted, Sorted-remove}
use ntrt.Bintree.Pointers.{Distinct, Ends, Distinct-remove, refresh-Ends_at}
use ntrt.Bintree.Valid.{Valid}

module _ {ℓ} {D : Type ℓ} where
  only_link_lem :
      (l r child : Tree D) → only_link l r ≡ some child → nodes child ≡ nodes l ++ nodes r
  unfolding only_link nodes
  only_link_lem leaf r child e = ap nodes (sym (ap (λ o. elim o [ none ↦ leaf | some t ↦ t ]) e))
  only_link_lem (node ll m lr) leaf child e =
      ap nodes (sym (ap (λ o. elim o [ none ↦ leaf | some t ↦ t ]) e))
      ∙ sym (append_nil (nodes (node ll m lr)))
  only_link_lem (node ll m lr) (node rl o rr) child e = absurd (cc)

  before_leaf : (xs : List (Bintreenode D)) → xs ≡ xs ++ nodes leaf
  unfolding nodes
  before_leaf xs = sym (append_nil xs)

  behind_leaf : (ys : List (Bintreenode D)) → ys ≡ nodes leaf ++ ys
  unfolding nodes
  behind_leaf ys = refl

  pub only_link_leaf : (l : Tree D) → only_link l leaf ≡ some l
  unfolding only_link
  only_link_leaf leaf = refl
  only_link_leaf (node ll m lr) = refl

module _ {ℓ} {D : Type ℓ} (rank : D → ℕ) where
  pub located :
      (t : Tree D) (k : ℕ) (l : Tree D) (n : Bintreenode D) (r : Tree D)
      → search_value rank t k ≡ some (l, n, r)
      → Located rank t k l n r
  located t k l n r e = elim (search_value_lem rank t k) [
    | inl f ↦ absurd (cc)
    | inr (l', n', r', f, h) ↦
        let same : ◌≡◌ {A = Tree D × Bintreenode D × Tree D} (l', n', r') (l, n, r) =
          ap (λ o. elim o [ none ↦ (l, n, r) | some p ↦ p ]) (sym f ∙ e) in
        subst (λ (p : Tree D × Bintreenode D × Tree D). Located rank t k p.0 p.1 p.2) same h
  ]

  -- Where the node found stands among the nodes.
  pub place :
      (this : Bintree D) (ns : List (Bintreenode D)) (k : ℕ) (l : Tree D) (n : Bintreenode D)
      (r : Tree D)
      → Valid rank this ns
      → (h : Located rank this.root k l n r)
      → ns ≡ (h.before ++ nodes l) ++ n ∷ (nodes r ++ h.after)
  place this ns k l n r v h =
      sym v.holds ∙ h.found ∙ sym (append_assoc h.before (nodes l) (n ∷ (nodes r ++ h.after)))

  relinked_nodes :
      (t : Tree D) (k : ℕ) (l : Tree D) (n : Bintreenode D) (r child : Tree D)
      → (h : Located rank t k l n r) → only_link l r ≡ some child
      → nodes (relink rank t k child) ≡ (h.before ++ nodes l) ++ (nodes r ++ h.after)
  relinked_nodes t k l n r child h o =
      h.relinked child
      ∙ ap (λ t. h.before ++ (t ++ h.after)) (only_link_lem l r child o)
      ∙ ap (λ t. h.before ++ t) (append_assoc (nodes l) (nodes r) h.after)
      ∙ sym (append_assoc h.before (nodes l) (nodes r ++ h.after))

  -- A tree without one of its nodes is in order.
  without :
      (this next : Bintree D) (ns xs : List (Bintreenode D)) (n : Bintreenode D)
      (ys : List (Bintreenode D))
      → Valid rank this ns
      → ns ≡ xs ++ n ∷ ys
      → nodes next.root ≡ xs ++ ys
      → Ends next (xs ++ ys)
      → next.node_counter ≡ this.node_counter - 1
      → Valid rank next (xs ++ ys)
  without this next ns xs n ys v p h e c = record {
    holds = h;
    sorted = Sorted-remove rank xs n ys (subst (Sorted rank) p v.sorted);
    distinct = Distinct-remove xs n ys (subst Distinct p v.distinct);
    ends = e;
    counted =
        let l = ap (λ (t : List (Bintreenode D)). length t) p in
        omega (arith, c, v.counted, l, length-append xs (n ∷ ys), length-append xs ys);
  }

  pub pop_out_lem :
      (this : Bintree D) (ns : List (Bintreenode D)) (k : ℕ) (l : Tree D) (n : Bintreenode D)
      (r child : Tree D)
      → Valid rank this ns
      → (h : Located rank this.root k l n r) → only_link l r ≡ some child
      → Valid rank (pop_out rank this k n child) ((h.before ++ nodes l) ++ (nodes r ++ h.after))
  unfolding pop_out refresh
  pop_out_lem this ns k l n r child v h o =
      let p = place this ns k l n r v h in
      let xs = h.before ++ nodes l in
      let ys = nodes r ++ h.after in
      let e = relinked_nodes this.root k l n r child h o in
      let ends =
        refresh-Ends_at this leaf n leaf xs ys xs ys (before_leaf xs) (behind_leaf ys)
          (subst (Ends this) p v.ends) (subst Distinct p v.distinct) (relink rank this.root k child)
          e in
      without this (pop_out rank this k n child) ns xs n ys v p e
        (record { top = ends.top; bottom = ends.bottom }) refl

  pub remove_node_lem :
      (this : Bintree D) (ns : List (Bintreenode D)) (k : ℕ) (l : Tree D) (n : Bintreenode D)
      (r child : Tree D)
      → Valid rank this ns
      → (h : Located rank this.root k l n r) → only_link l r ≡ some child
      → Valid rank
          (remove_node rank this k l n r child)
          ((h.before ++ nodes l) ++ (nodes r ++ h.after))
  unfolding remove_node refresh
  remove_node_lem this ns k l n r child v h o =
      let p = place this ns k l n r v h in
      let xs = h.before ++ nodes l in
      let ys = nodes r ++ h.after in
      let e = relinked_nodes this.root k l n r child h o in
      let ends =
        refresh-Ends_at this l n r h.before h.after xs ys refl refl (subst (Ends this) p v.ends)
          (subst Distinct p v.distinct) (relink rank this.root k child) e in
      without this (remove_node rank this k l n r child) ns xs n ys v p e
        (record { top = ends.top; bottom = ends.bottom }) refl
