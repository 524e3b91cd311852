-- ===== src/Bintree/Growth.antt =====
-- Insertion on every branch.
use ntrt.Prelude.{
  ℕ, ◌≡◌, ◌∙◌, refl, sym, ap, subst, none, some, List, ◌∷◌, ◌++◌, arith, length, length-append, inl,
  inr,
}
use ntrt.Bintree.{Bintreenode, Bintree}
use ntrt.Bintree.Nodes.{nodes}
use ntrt.Bintree.Order.{Below, Sorted, Sorted-Below, Sorted-replace}
use ntrt.Bintree.Pointers.{Unused, Distinct, Ends}
use ntrt.Bintree.Substitution.{Distinct-replace, Ends-replace}
use ntrt.Bintree.Valid.{Valid}
use ntrt.Prelude.{==→eq, ◌==◌, Bool-cases}
use ntrt.Bintree.Change.{count_insert, bintree_insert_node, bintree_insert_data}
use ntrt.Bintree.Order.{Sorted-insert}
use ntrt.Bintree.Pointers.{Distinct-insert}
use ntrt.Bintree.Delete.{entries, entries-append}
use ntrt.Bintree.Insert.{merge, IsAdded, IsMerged, insert_into_tree_lem}
use ntrt.Bintree.Ends.{added-Ends, merged-Ends}
use ntrt.Bintree.Insertion.{
  first-Ends, insert_entry, insert_entry-Below, insert_entry-Above, insert_entry_same, Inserted,
  insert_first, insert_more,
}

module _ {ℓ} {D : Type ℓ} (rank : D → ℕ) where
  -- A tree whose nodes and pointers are known to be right.
  Valid-now :
      (next : Bintree D) (ms : List (Bintreenode D))
      → nodes next.root ≡ ms
      → Sorted rank ms
      → Distinct ms
      → Ends next ms
      → next.node_counter ≡ length ms
      → Valid rank next ms
  Valid-now next ms h s d e c = record {
    holds = h;
    sorted = s;
    distinct = d;
    ends = e;
    counted = c;
  }

  added_lem :
      (this : Bintree D) (ns : List (Bintreenode D)) (x : Bintreenode D)
      → Valid rank this ns
      → Unused x.address ns
      → IsAdded rank this.root x
      → Inserted rank (bintree_insert_node rank this x) x.datum x.ref ns
  unfolding count_insert
  added_lem this ns x v u h =
      let xs = h.before in
      let ys = h.after in
      let p : ns ≡ xs ++ ys = sym v.holds ∙ h.was in
      let b : Bintree D = count_insert rank this h.tree none in
      let s = Sorted-insert rank xs x ys (subst (Sorted rank) p v.sorted) h.below h.above in
      let d =
        Distinct-insert xs x ys (subst (Unused x.address) p u) (subst Distinct p v.distinct) in
      let q = ap (λ (t : List (Bintreenode D)). length t) p in
      let more =
        entries-append xs (x ∷ ys)
        ∙ ap (λ t. entries xs ++ t) (sym (insert_entry-Above rank x ys h.above))
        ∙ sym (insert_entry-Below rank x xs ys h.below)
        ∙ ap (λ t. insert_entry rank x.datum x.ref (entries t)) (sym p) in
      elim (Bool-cases (b.node_counter == 1)) [
        | inl f ↦
            let one = ==→eq b.node_counter 1 f in
            let e = first-Ends b xs x ys (omega (arith, v.counted, q)) in
            record {
              next = record b { top = some x.address; bottom = some x.address };
              now = xs ++ x ∷ ys;
              runs = insert_first rank this x x h.tree none h.runs f;
              valid =
                  Valid-now (record b { top = some x.address; bottom = some x.address })
                    (xs ++ x ∷ ys) h.is s d e
                    (omega (arith, v.counted, q, length-append xs ys, length-append xs (x ∷ ys)));
              more = more;
            }
        | inr f ↦
            let ends = subst (Ends this) p v.ends in
            let e =
              added-Ends rank b xs x ys (record { top = ends.top; bottom = ends.bottom }) h.is d
                h.below h.above (ground (arith, v.counted, q)) in
            record {
              next = e.next;
              now = xs ++ x ∷ ys;
              runs = insert_more rank this x x h.tree none h.runs f ∙ e.runs;
              valid = Valid-now e.next (xs ++ x ∷ ys) (ap nodes e.root ∙ h.is) s d e.ends (
                  omega (
                    arith,
                    e.node_counter,
                    v.counted,
                    q,
                    length-append xs ys,
                    length-append xs (x ∷ ys),
                  ));
              more = more;
            }
      ]

  merged_lem :
      (this : Bintree D) (ns : List (Bintreenode D)) (x : Bintreenode D)
      → Valid rank this ns
      → IsMerged rank this.root x
      → Inserted rank (bintree_insert_node rank this x) x.datum x.ref ns
  unfolding count_insert
  merged_lem this ns x v h =
      let xs = h.before in
      let ys = h.after in
      let m : Bintreenode D = merge rank h.n x in
      let p : ns ≡ xs ++ h.n ∷ ys = sym v.holds ∙ h.was in
      let b : Bintree D = count_insert rank this h.tree (some h.n.datum) in
      let s0 = subst (Sorted rank) p v.sorted in
      let s = Sorted-replace rank xs h.n m ys (sym h.same) s0 in
      let d = Distinct-replace xs h.n m ys refl (subst Distinct p v.distinct) in
      let q = ap (λ (t : List (Bintreenode D)). length t) p in
      let ends = Ends-replace this xs h.n m ys h.tree refl (subst (Ends this) p v.ends) in
      let below = subst (λ k. Below rank k xs) h.same (Sorted-Below rank xs h.n ys s0) in
      let more =
        entries-append xs (m ∷ ys)
        ∙ ap (λ t. entries xs ++ t) (sym (insert_entry_same rank x h.n ys h.same))
        ∙ sym (insert_entry-Below rank x xs (h.n ∷ ys) below)
        ∙ ap (λ t. insert_entry rank x.datum x.ref (entries t)) (sym p) in
      let count : this.node_counter ≡ length (xs ++ m ∷ ys) =
        omega (arith, v.counted, q, length-append xs (h.n ∷ ys), length-append xs (m ∷ ys)) in
      elim (Bool-cases (b.node_counter == 1)) [
        | inl f ↦
            let one = ==→eq b.node_counter 1 f in
            let e =
              first-Ends b xs m ys
                (omega (arith, count, length-append xs ys, length-append xs (m ∷ ys))) in
            record {
              next = record b { top = some m.address; bottom = some m.address };
              now = xs ++ m ∷ ys;
              runs = insert_first rank this x m h.tree (some h.n.datum) h.runs f;
              valid =
                  Valid-now (record b { top = some m.address; bottom = some m.address })
                    (xs ++ m ∷ ys) h.is s d e count;
              more = more;
            }
        | inr f ↦
            let e : Ends b (xs ++ m ∷ ys) = record { top = ends.top; bottom = ends.bottom } in
            record {
              next = b;
              now = xs ++ m ∷ ys;
              runs =
                  insert_more rank this x m h.tree (some h.n.datum) h.runs f
                  ∙ merged-Ends rank b xs m ys e h.is d s;
              valid = Valid-now b (xs ++ m ∷ ys) h.is s d e count;
              more = more;
            }
      ]

  pub bintree_insert_node_lem :
      (this : Bintree D) (ns : List (Bintreenode D)) (x : Bintreenode D)
      → Valid rank this ns
      → Unused x.address ns
      → Inserted rank (bintree_insert_node rank this x) x.datum x.ref ns
  bintree_insert_node_lem this ns x v u =
      elim (insert_into_tree_lem rank this.root x (subst (Sorted rank) (sym v.holds) v.sorted)) [
        | inl h ↦ added_lem this ns x v u h
        | inr h ↦ merged_lem this ns x v h
      ]

  -- Data is inserted into a tree in order, at a new address, without a fault. The tree stays in
  -- order, its pointers lead to its ends, and of the data's rank it counts one more.
  pub bintree_insert_data_lem :
      (this : Bintree D) (ns : List (Bintreenode D)) (address : ℕ) (d : D)
      → Valid rank this ns
      → Unused address ns
      → Inserted rank (bintree_insert_data rank this address d) d 1 ns
  unfolding bintree_insert_data
  bintree_insert_data_lem this ns address d v u =
      bintree_insert_node_lem this ns (record { address = address; datum = d; ref = 1 }) v u
