-- ===== src/Bintree/Delete.antt =====
-- `bintree_delete_value` against a list of the data with their counts.
use ntrt.Prelude.{
  ℕ, suc, ◌-◌, ◌≡◌, ◌∙◌, refl, sym, ap, true, false, Option, none, some, List, [], ◌∷◌, ◌++◌, arith,
  ltb, ◌==◌, if◌then◌else◌, eq→==, ne→==,
}
use ntrt.Prelude.Word.{sub32}
use ntrt.Bintree.{Bintreenode, Tree, Bintree, get_rightest}
use ntrt.Bintree.Change.{
  search_value, overwrite, only_link, pop_out, copy_values, pop_from_tree, remove_node,
  deref_from_tree,
}
use ntrt.Bintree.Order.{Below, Absent, Sorted, Sorted-Below}
use ntrt.Bintree.Valid.{Valid}
use ntrt.Bintree.Removal.{only_link_leaf}
use ntrt.Bintree.Replacement.{Candidate}

module _ {ℓ} {D : Type ℓ} where
  -- The data of the nodes with their counts.
  abbrev pub entries : List (Bintreenode D) → List (D × ℕ)
  entries [] = []
  entries (n ∷ ns) = (n.datum, n.ref) ∷ entries ns

  pub entries-append :
      (xs ys : List (Bintreenode D)) → entries (xs ++ ys) ≡ entries xs ++ entries ys
  entries-append [] ys = refl
  entries-append (x ∷ xs) ys = ap (λ t. (x.datum, x.ref) ∷ t) (entries-append xs ys)

module _ {ℓ} {D : Type ℓ} (rank : D → ℕ) where
  -- One less of the data of a rank, on a list in which no two have one rank.
  abbrev pub delete_entry : ℕ → List (D × ℕ) → List (D × ℕ)
  delete_entry k [] = []
  delete_entry k ((d, c) ∷ es) =
      if rank d == k then if ltb 1 c then (d, c - 1) ∷ es else es else (d, c) ∷ delete_entry k es

  pub delete_entry-Absent :
      (k : ℕ) (ns : List (Bintreenode D))
      → Absent rank k ns
      → delete_entry k (entries ns) ≡ entries ns
  delete_entry-Absent k [] a = refl
  delete_entry-Absent k (n ∷ ns) (a, b) =
      cc (ne→== (rank n.datum) k (λ e. a (sym e)), delete_entry-Absent k ns b)

  delete_entry-Below :
      (k : ℕ) (xs ys : List (Bintreenode D))
      → Below rank k xs
      → delete_entry k (entries (xs ++ ys)) ≡ entries xs ++ delete_entry k (entries ys)
  delete_entry-Below k [] ys b = refl
  delete_entry-Below k (x ∷ xs) ys (a, b) =
      let other : (rank x.datum == k) ≡ false = ne→== (rank x.datum) k (λ e. omega arith) in
      cc (delete_entry-Below k xs ys b)

  -- What the list loses where it has the rank.
  pub delete_entry_at :
      (xs : List (Bintreenode D)) (n : Bintreenode D) (ys : List (Bintreenode D))
      → Sorted rank (xs ++ n ∷ ys)
      → delete_entry (rank n.datum) (entries (xs ++ n ∷ ys))
        ≡ entries xs ++ (if ltb 1 n.ref then (n.datum, n.ref - 1) ∷ entries ys else entries ys)
  delete_entry_at xs n ys s =
      let here = eq→== (rank n.datum) (rank n.datum) refl in
      delete_entry-Below (rank n.datum) xs (n ∷ ys) (Sorted-Below rank xs n ys s)
      ∙ ap (λ t. entries xs ++ t) (cc)

  -- A run ended with a tree in order that has one less of the data of the rank.
  pub record Deleted (run : Option (Bintree D)) (k : ℕ) (ns : List (Bintreenode D)) : Type ℓ where
    pub next : Bintree D
    pub left : List (Bintreenode D)
    pub runs : run ≡ some next
    pub valid : Valid rank next left
    pub fewer : entries left ≡ delete_entry k (entries ns)

  pub deref_missed :
      (this : Bintree D) (k : ℕ)
      → search_value rank this.root k ≡ none
      → deref_from_tree rank this k ≡ some this
  unfolding deref_from_tree
  deref_missed this k e = cc

  pub deref_survives :
      (this : Bintree D) (k : ℕ) (l : Tree D) (n : Bintreenode D) (r : Tree D)
      → search_value rank this.root k ≡ some (l, n, r)
      → ltb 1 n.ref ≡ true
      → deref_from_tree rank this k
        ≡ some (record this {
          root = overwrite rank this.root k (record n { ref = n.ref - 1 });
          duplicate_counter = sub32 this.duplicate_counter 1;
        })
  unfolding deref_from_tree
  deref_survives this k l n r e f = cc

  pub deref_removes :
      (this : Bintree D) (k : ℕ) (l : Tree D) (n : Bintreenode D) (r child : Tree D)
      → search_value rank this.root k ≡ some (l, n, r)
      → ltb 1 n.ref ≡ false
      → only_link l r ≡ some child
      → deref_from_tree rank this k ≡ some (remove_node rank this k l n r child)
  unfolding deref_from_tree
  deref_removes this k l n r child e f g = cc

  pub deref_replaces :
      (this popped : Bintree D) (k : ℕ) (l : Tree D) (n : Bintreenode D) (r : Tree D)
      (c : Bintreenode D)
      → search_value rank this.root k ≡ some (l, n, r)
      → ltb 1 n.ref ≡ false
      → only_link l r ≡ none
      → get_rightest l ≡ some c
      → pop_from_tree rank 2 this (rank c.datum) ≡ some (some c, popped)
      → deref_from_tree rank this k ≡ some (copy_values rank popped k n c)
  unfolding deref_from_tree
  deref_replaces this popped k l n r c e f g h i = cc

  pub pops-Candidate :
      (this : Bintree D) (l : Tree D) (a : Candidate rank this l) (fuel : ℕ)
      → pop_from_tree rank (suc fuel) this (rank a.c.datum)
        ≡ some (some a.c, pop_out rank this (rank a.c.datum) a.c a.left)
  unfolding pop_from_tree
  pops-Candidate this l a fuel = let o = only_link_leaf a.left in let f = a.finds in cc
