-- ===== src/Bintree/Deletion.antt =====
-- Deletion on every branch.
use ntrt.Prelude.{
  ℕ, ◌-◌, ◌≡◌, ◌∙◌, refl, sym, ap, subst, true, false, none, some, List, [], ◌∷◌, ◌++◌, arith,
  length, length-append, append_assoc, inl, inr, ltb, Bool-cases, Option-cases, if◌then◌else◌,
}
use ntrt.Prelude.Word.{sub32}
use ntrt.Bintree.{Bintreenode, Tree, Bintree}
use ntrt.Bintree.Change.{
  search_value, overwrite, only_link, pop_out, copy_values, remove_node, deref_from_tree,
}
use ntrt.Bintree.Nodes.{nodes}
use ntrt.Bintree.Search.{Located, search_value_lem}
use ntrt.Bintree.Order.{Absent, search_value-Absent, Sorted, Sorted-replace}
use ntrt.Bintree.Pointers.{Distinct, Ends}
use ntrt.Bintree.Substitution.{Distinct-replace, Ends-replace}
use ntrt.Bintree.Valid.{Valid}
use ntrt.Bintree.Removal.{place, remove_node_lem}
use ntrt.Bintree.Replacement.{candidate_lem, popped_lem, copy_values_lem, overwritten_lem}
use ntrt.Bintree.Delete.{
  entries, entries-append, delete_entry, delete_entry-Absent, delete_entry_at, Deleted,
  deref_missed, deref_survives, deref_removes, deref_replaces, pops-Candidate,
}
use ntrt.Bintree.Change.{bintree_delete_value}

module _ {ℓ} {D : Type ℓ} (rank : D → ℕ) where
  -- What an entry with a count of one at most leaves of the list.
  last_one :
      (xs : List (Bintreenode D)) (n : Bintreenode D) (ys : List (Bintreenode D))
      → Sorted rank (xs ++ n ∷ ys)
      → ltb 1 n.ref ≡ false
      → entries xs ++ entries ys ≡ delete_entry rank (rank n.datum) (entries (xs ++ n ∷ ys))
  last_one xs n ys s e =
      ap (λ b. entries xs ++ (if b then (n.datum, n.ref - 1) ∷ entries ys else entries ys)) (sym e)
      ∙ sym (delete_entry_at rank xs n ys s)

  survives :
      (this : Bintree D) (ns : List (Bintreenode D)) (l : Tree D) (n : Bintreenode D) (r : Tree D)
      → Valid rank this ns
      → search_value rank this.root (rank n.datum) ≡ some (l, n, r)
      → Located rank this.root (rank n.datum) l n r
      → ltb 1 n.ref ≡ true
      → Deleted rank (deref_from_tree rank this (rank n.datum)) (rank n.datum) ns
  survives this ns l n r v e h f =
      let p = place rank this ns (rank n.datum) l n r v h in
      let xs = h.before ++ nodes l in
      let ys = nodes r ++ h.after in
      let m : Bintreenode D = record n { ref = n.ref - 1 } in
      let root = overwrite rank this.root (rank n.datum) m in
      let s = subst (Sorted rank) p v.sorted in
      let ends = Ends-replace this xs n m ys root refl (subst (Ends this) p v.ends) in
      let q = ap (λ (t : List (Bintreenode D)). length t) p in
      record {
        next = record this { root = root; duplicate_counter = sub32 this.duplicate_counter 1 };
        left = xs ++ m ∷ ys;
        runs = deref_survives rank this (rank n.datum) l n r e f;
        valid = record {
          holds = overwritten_lem rank this.root xs n m ys (v.holds ∙ p) s;
          sorted = Sorted-replace rank xs n m ys refl s;
          distinct = Distinct-replace xs n m ys refl (subst Distinct p v.distinct);
          ends = record { top = ends.top; bottom = ends.bottom };
          counted =
              omega (arith, v.counted, q, length-append xs (n ∷ ys), length-append xs (m ∷ ys));
        };
        fewer =
            entries-append xs (m ∷ ys)
            ∙ ap (λ b. entries xs ++ (if b then (n.datum, n.ref - 1) ∷ entries ys else entries ys))
                (sym f)
            ∙ sym (delete_entry_at rank xs n ys s)
            ∙ ap (λ t. delete_entry rank (rank n.datum) (entries t)) (sym p);
      }

  removes :
      (this : Bintree D) (ns : List (Bintreenode D)) (l : Tree D) (n : Bintreenode D)
      (r child : Tree D)
      → Valid rank this ns
      → search_value rank this.root (rank n.datum) ≡ some (l, n, r)
      → Located rank this.root (rank n.datum) l n r
      → ltb 1 n.ref ≡ false
      → only_link l r ≡ some child
      → Deleted rank (deref_from_tree rank this (rank n.datum)) (rank n.datum) ns
  removes this ns l n r child v e h f o =
      let p = place rank this ns (rank n.datum) l n r v h in
      let xs = h.before ++ nodes l in
      let ys = nodes r ++ h.after in
      record {
        next = remove_node rank this (rank n.datum) l n r child;
        left = xs ++ ys;
        runs = deref_removes rank this (rank n.datum) l n r child e f o;
        valid = remove_node_lem rank this ns (rank n.datum) l n r child v h o;
        fewer =
            entries-append xs ys
            ∙ last_one xs n ys (subst (Sorted rank) p v.sorted) f
            ∙ ap (λ t. delete_entry rank (rank n.datum) (entries t)) (sym p);
      }

  replaces :
      (this : Bintree D) (ns : List (Bintreenode D)) (l : Tree D) (n : Bintreenode D) (r : Tree D)
      → Valid rank this ns
      → search_value rank this.root (rank n.datum) ≡ some (l, n, r)
      → Located rank this.root (rank n.datum) l n r
      → ltb 1 n.ref ≡ false
      → only_link l r ≡ none
      → Deleted rank (deref_from_tree rank this (rank n.datum)) (rank n.datum) ns
  replaces this ns l n r v e h f o =
      let a = candidate_lem rank this ns (rank n.datum) l n r v h o in
      let xs = h.before ++ a.init in
      let ys = nodes r ++ h.after in
      let (p, w) = popped_lem rank this ns (rank n.datum) l n r v h a in
      let popped = pop_out rank this (rank a.c.datum) a.c a.left in
      let m : Bintreenode D = record n { datum = a.c.datum; ref = a.c.ref } in
      let p' = p ∙ sym (append_assoc xs (a.c ∷ []) (n ∷ ys)) in
      record {
        next = copy_values rank popped (rank n.datum) n a.c;
        left = xs ++ m ∷ ys;
        runs =
            deref_replaces rank this popped (rank n.datum) l n r a.c e f o a.rightest
              (pops-Candidate rank this l a 1);
        valid = copy_values_lem rank this popped ns xs a.c n ys v p w;
        fewer =
            entries-append xs (m ∷ ys)
            ∙ sym (append_assoc (entries xs) ((a.c.datum, a.c.ref) ∷ []) (entries ys))
            ∙ ap (λ t. t ++ entries ys) (sym (entries-append xs (a.c ∷ [])))
            ∙ last_one (xs ++ a.c ∷ []) n ys (subst (Sorted rank) p' v.sorted) f
            ∙ ap (λ t. delete_entry rank (rank n.datum) (entries t)) (sym p');
      }

  found-Deleted :
      (this : Bintree D) (ns : List (Bintreenode D)) (l : Tree D) (n : Bintreenode D) (r : Tree D)
      → Valid rank this ns
      → search_value rank this.root (rank n.datum) ≡ some (l, n, r)
      → Located rank this.root (rank n.datum) l n r
      → Deleted rank (deref_from_tree rank this (rank n.datum)) (rank n.datum) ns
  found-Deleted this ns l n r v e h = elim (Bool-cases (ltb 1 n.ref)) [
    | inl f ↦ survives this ns l n r v e h f
    | inr f ↦ elim (Option-cases (only_link l r)) [
      | inl o ↦ replaces this ns l n r v e h f o
      | inr (child, o) ↦ removes this ns l n r child v e h f o
    ]
  ]

  pub deref_from_tree_lem :
      (this : Bintree D) (ns : List (Bintreenode D)) (k : ℕ)
      → Valid rank this ns
      → Deleted rank (deref_from_tree rank this k) k ns
  deref_from_tree_lem this ns k v = elim (search_value_lem rank this.root k) [
    | inl e ↦ record {
      next = this;
      left = ns;
      runs = deref_missed rank this k e;
      valid = v;
      fewer = sym (
          delete_entry-Absent rank k ns (
            subst (Absent rank k) v.holds (
              search_value-Absent rank this.root k (subst (Sorted rank) (sym v.holds) v.sorted)
                e)));
    }
    | inr (l, n, r, e, h) ↦
        subst (λ j. Deleted rank (deref_from_tree rank this j) j ns) h.same
          (found-Deleted this ns l n r v (ap (search_value rank this.root) h.same ∙ e)
            (subst (λ j. Located rank this.root j l n r) (sym h.same) h))
  ]

  -- A value is deleted from a tree in order without a fault. The tree stays in order, its pointers
  -- lead to its ends, and of the data of the value's rank it counts one less; the last one is gone.
  pub bintree_delete_value_lem :
      (this : Bintree D) (ns : List (Bintreenode D)) (d : D)
      → Valid rank this ns
      → Deleted rank (bintree_delete_value rank this d) (rank d) ns
  unfolding bintree_delete_value
  bintree_delete_value_lem this ns d v = deref_from_tree_lem this ns (rank d) v
