-- ===== src/Bintree/Pops.antt =====
-- The greatest and the least data of a tree, read and popped.
use ntrt.Prelude.{
  ℕ, ◌≡◌, ◌∙◌, refl, sym, ap, Option, none, some, List, [], ◌∷◌, inl, inr, Option-cases,
}
use ntrt.Bintree.{Bintreenode, Tree, Bintree}
use ntrt.Bintree.Change.{deref_from_tree}
use ntrt.Bintree.Nodes.{nodes, last}
use ntrt.Bintree.Pointers.{Distinct}
use ntrt.Bintree.Valid.{Valid}
use ntrt.Bintree.{address_of, read_pointer, bintree_get_top_data, bintree_get_bottom_data}
use ntrt.Bintree.Change.{deref_pointed, bintree_pop_top_data, bintree_pop_bottom_data}
use ntrt.Bintree.Nodes.{first}
use ntrt.Bintree.Ends.{read_last, read_first}
use ntrt.Bintree.Delete.{entries, delete_entry}
use ntrt.Bintree.Deletion.{deref_from_tree_lem}

module _ {ℓ} {D : Type ℓ} where
  -- The data of a node, NULL where there is none.
  abbrev pub data_of : Option (Bintreenode D) → Option D
  data_of none = none
  data_of (some n) = some n.datum

  read_null :
      (p : Option ℕ) (root : Tree D) (o : Option (Bintreenode D))
      → p ≡ address_of o
      → o ≡ none
      → read_pointer p root ≡ some none
  unfolding read_pointer
  read_null p root o e f = cc

  reads_last :
      (p : Option ℕ) (root : Tree D) (ns : List (Bintreenode D))
      → nodes root ≡ ns
      → Distinct ns
      → p ≡ address_of (last ns)
      → read_pointer p root ≡ some (data_of (last ns))
  reads_last p root ns e d f = elim (Option-cases (last ns)) [
    | inl l ↦ read_null p root (last ns) f l ∙ ap (λ o. some (data_of o)) (sym l)
    | inr (m, l) ↦
        read_last root p ns m e d (f ∙ ap address_of l) l ∙ ap (λ o. some (data_of o)) (sym l)
  ]

  reads_first :
      (p : Option ℕ) (root : Tree D) (ns : List (Bintreenode D))
      → nodes root ≡ ns
      → Distinct ns
      → p ≡ address_of (first ns)
      → read_pointer p root ≡ some (data_of (first ns))
  reads_first p root [] e d f = read_null p root none f refl
  reads_first p root (n ∷ ns) e d f = read_first root p n ns e d f

module _ {ℓ} {D : Type ℓ} (rank : D → ℕ) where
  -- The pointers of a tree in order read its greatest and its least data.
  pub top_and_bottom :
      (this : Bintree D) (ns : List (Bintreenode D))
      → Valid rank this ns
      → (bintree_get_top_data this ≡ some (data_of (last ns)))
        × (bintree_get_bottom_data this ≡ some (data_of (first ns)))
  unfolding bintree_get_top_data bintree_get_bottom_data
  top_and_bottom this ns v = (
    reads_last this.top this.root ns v.holds v.distinct v.ends.top,
    reads_first this.bottom this.root ns v.holds v.distinct v.ends.bottom,
  )

  -- One less of an end of the list.
  abbrev pub pop_entry : Option D → List (D × ℕ) → List (D × ℕ)
  pop_entry none es = es
  pop_entry (some d) es = delete_entry rank (rank d) es

  -- A run gave the data of an end, and ended with a tree in order that has one less of it.
  pub record Popped (run : Option (Option D × Bintree D)) (end : Option D)
      (ns : List (Bintreenode D)) : Type ℓ where
    pub next : Bintree D
    pub left : List (Bintreenode D)
    pub runs : run ≡ some (end, next)
    pub valid : Valid rank next left
    pub fewer : entries left ≡ pop_entry end (entries ns)

  pops_nothing :
      (p : Option ℕ) (this : Bintree D)
      → read_pointer p this.root ≡ some none
      → deref_pointed rank p this ≡ some (none, this)
  unfolding deref_pointed
  pops_nothing p this e = cc

  pops_data :
      (p : Option ℕ) (this next : Bintree D) (d : D)
      → read_pointer p this.root ≡ some (some d)
      → deref_from_tree rank this (rank d) ≡ some next
      → deref_pointed rank p this ≡ some (some d, next)
  unfolding deref_pointed
  pops_data p this next d e f = cc

  deref_pointed_lem :
      (p : Option ℕ) (this : Bintree D) (ns : List (Bintreenode D)) (end : Option D)
      → Valid rank this ns
      → read_pointer p this.root ≡ some end
      → Popped (deref_pointed rank p this) end ns
  deref_pointed_lem p this ns none v e = record {
    next = this;
    left = ns;
    runs = pops_nothing p this e;
    valid = v;
    fewer = refl;
  }
  deref_pointed_lem p this ns (some d) v e =
      let r = deref_from_tree_lem rank this ns (rank d) v in
      record {
        next = r.next;
        left = r.left;
        runs = pops_data p this r.next d e r.runs;
        valid = r.valid;
        fewer = r.fewer;
      }

  -- `bintree_pop_top_data` gives the greatest data of a tree in order, NULL where it is empty, and
  -- leaves one less of it; `bintree_pop_bottom_data` the least.
  pub pop_data_lem :
      (this : Bintree D) (ns : List (Bintreenode D))
      → Valid rank this ns
      → Popped (bintree_pop_top_data rank this) (data_of (last ns)) ns
        × Popped (bintree_pop_bottom_data rank this) (data_of (first ns)) ns
  unfolding bintree_pop_top_data bintree_pop_bottom_data
  pop_data_lem this ns v = (
    deref_pointed_lem this.top this ns (data_of (last ns)) v
        (reads_last this.top this.root ns v.holds v.distinct v.ends.top),
    deref_pointed_lem this.bottom this ns (data_of (first ns)) v
        (reads_first this.bottom this.root ns v.holds v.distinct v.ends.bottom),
  )
