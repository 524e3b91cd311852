-- ===== src/Bintree/Miscount.antt =====
-- The counters after the deletion of a node with two links.
use ntrt.Prelude.{
  ℕ, ◌-◌, ◌≡◌, ◌∙◌, refl, sym, ap, false, Option, none, some, List, ◌∷◌, ◌++◌, subst, ltb,
}
use ntrt.Prelude.Word.{sub32}
use ntrt.Bintree.{Bintreenode, Tree, Bintree, get_rightest, refresh}
use ntrt.Bintree.Change.{search_value, only_link, pop_out, copy_values}
use ntrt.Bintree.Valid.{Valid}
use ntrt.Bintree.Removal.{located}
use ntrt.Bintree.Replacement.{candidate_lem, popped_lem, copy_values_lem}
use ntrt.Bintree.Nodes.{nodes}
use ntrt.Bintree.Delete.{deref_replaces, pops-Candidate}
use ntrt.Bintree.Change.{bintree_delete_value}

module _ {ℓ} {D : Type ℓ} (rank : D → ℕ) where
  unsome : (o : Option (Bintreenode D)) (n m : Bintreenode D) → o ≡ some n → o ≡ some m → n ≡ m
  unsome o n m e f = ap (λ q. elim q [ none ↦ n | some x ↦ x ]) (sym e ∙ f)

  counters :
      (this : Bintree D) (k : ℕ) (n c : Bintreenode D) (left : Tree D)
      → ((copy_values rank (pop_out rank this (rank c.datum) c left) k n c).node_counter
          ≡ this.node_counter - 1)
        × ((copy_values rank (pop_out rank this (rank c.datum) c left) k n c).duplicate_counter
            ≡ sub32 this.duplicate_counter (sub32 c.ref 1))
  unfolding copy_values pop_out refresh
  counters this k n c left = (refl, refl)

  -- Where a value with a count of one at most is deleted from a node with two links of a tree in order,
  -- the counter of the nodes goes down by one, but that of the duplicates by those of the node `c`
  -- which takes the place, although the data of `c` is still in the tree, with the count of `c`, and nothing else left it.
  pub miscounted :
      (this : Bintree D) (ns : List (Bintreenode D)) (d : D) (l : Tree D) (n : Bintreenode D)
      (r : Tree D) (c : Bintreenode D)
      → Valid rank this ns
      → search_value rank this.root (rank d) ≡ some (l, n, r)
      → ltb 1 n.ref ≡ false
      → only_link l r ≡ none
      → get_rightest l ≡ some c
      → (next : Bintree D) × (bintree_delete_value rank this d ≡ some next)
        × (next.node_counter ≡ this.node_counter - 1)
        × (next.duplicate_counter ≡ sub32 this.duplicate_counter (sub32 c.ref 1))
        × ((xs : List (Bintreenode D)) × (ys : List (Bintreenode D)) × (ns ≡ xs ++ c ∷ (n ∷ ys))
            × (nodes next.root ≡ xs ++ record n { datum = c.datum; ref = c.ref } ∷ ys))
  unfolding bintree_delete_value
  miscounted this ns d l n r c v e f o g =
      let h = located rank this.root (rank d) l n r e in
      let a = candidate_lem rank this ns (rank d) l n r v h o in
      let popped = pop_out rank this (rank a.c.datum) a.c a.left in
      let same = unsome (get_rightest l) a.c c a.rightest g in
      let k = counters this (rank d) n a.c a.left in
      let next = copy_values rank popped (rank d) n a.c in
      let xs = h.before ++ a.init in
      let ys = nodes r ++ h.after in
      let (p, w) = popped_lem rank this ns (rank d) l n r v h a in
      let after =
        subst
          (λ j.
            Valid rank (copy_values rank popped j n a.c)
              (xs ++ record n { datum = a.c.datum; ref = a.c.ref } ∷ ys))
          h.same (copy_values_lem rank this popped ns xs a.c n ys v p w) in
      (
        next,
        deref_replaces rank this popped (rank d) l n r a.c e f o a.rightest
            (pops-Candidate rank this l a 1),
        k.0,
        k.1 ∙ ap (λ m. sub32 this.duplicate_counter (sub32 m.ref 1)) same,
        (
          xs,
          ys,
          subst (λ m. ns ≡ xs ++ m ∷ (n ∷ ys)) same p,
          subst (λ m. nodes next.root ≡ xs ++ record n { datum = m.datum; ref = m.ref } ∷ ys) same
              after.holds,
        ),
      )
