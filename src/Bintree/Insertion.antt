-- ===== src/Bintree/Insertion.antt =====
-- Insertion against a list of the data with their counts.
use ntrt.Prelude.{ℕ, ◌+◌, ◌≡◌, refl, true, false, Option, some, List, [], ◌∷◌, ◌++◌, arith, length}
use ntrt.Bintree.{Bintreenode, Tree, Bintree}
use ntrt.Bintree.Order.{Below}
use ntrt.Bintree.Pointers.{Ends}
use ntrt.Bintree.Valid.{Valid}
use ntrt.Prelude.{◌==◌}
use Prim.Native.Nat.{compare}
use Prim.Native.Nat.Ordering.{lt, eq, gt}
use ntrt.Bintree.Change.{insert_into_tree, count_insert, compare_ends, bintree_insert_node}
use ntrt.Bintree.Search.{lt-compare, gt-compare, eq-compare}
use ntrt.Bintree.Order.{Above}
use ntrt.Bintree.Delete.{entries}
use ntrt.Bintree.Insert.{merge}

module _ {ℓ} {D : Type ℓ} where
  -- The pointers after the first node.
  pub first-Ends :
      (this : Bintree D) (xs : List (Bintreenode D)) (x : Bintreenode D) (ys : List (Bintreenode D))
      → length (xs ++ ys) ≡ 0
      → Ends (record this { top = some x.address; bottom = some x.address }) (xs ++ x ∷ ys)
  first-Ends this [] x [] e = record { top = refl; bottom = refl }
  first-Ends this [] x (y ∷ ys) e = absurd (omega arith)
  first-Ends this (z ∷ xs) x ys e = absurd (omega arith)

module _ {ℓ} {D : Type ℓ} (rank : D → ℕ) where
  -- `c` more of the data of a rank, which takes the place of what stood for it.
  abbrev pub insert_entry : D → ℕ → List (D × ℕ) → List (D × ℕ)
  insert_entry d c [] = (d, c) ∷ []
  insert_entry d c ((e, n) ∷ es) = elim (compare (rank e) (rank d)) [
    | lt ↦ (e, n) ∷ insert_entry d c es
    | eq ↦ (d, n + c) ∷ es
    | gt ↦ (d, c) ∷ (e, n) ∷ es
  ]

  pub insert_entry-Below :
      (x : Bintreenode D) (xs ys : List (Bintreenode D))
      → Below rank (rank x.datum) xs
      → insert_entry x.datum x.ref (entries (xs ++ ys))
        ≡ entries xs ++ insert_entry x.datum x.ref (entries ys)
  insert_entry-Below x [] ys b = refl
  insert_entry-Below x (y ∷ xs) ys (a, b) =
      let c = lt-compare (rank y.datum) (rank x.datum) a in cc (insert_entry-Below x xs ys b)

  pub insert_entry-Above :
      (x : Bintreenode D) (ys : List (Bintreenode D))
      → Above rank (rank x.datum) ys
      → insert_entry x.datum x.ref (entries ys) ≡ entries (x ∷ ys)
  insert_entry-Above x [] a = refl
  insert_entry-Above x (y ∷ ys) (a, _) = let c = gt-compare (rank y.datum) (rank x.datum) a in cc

  pub insert_entry_same :
      (x n : Bintreenode D) (ys : List (Bintreenode D))
      → rank n.datum ≡ rank x.datum
      → insert_entry x.datum x.ref (entries (n ∷ ys)) ≡ entries (merge rank n x ∷ ys)
  insert_entry_same x n ys e = let c = eq-compare (rank x.datum) in cc

  -- A run ended with a tree in order that has more of the data.
  pub record Inserted (run : Option (Bintree D)) (d : D) (c : ℕ) (ns : List (Bintreenode D))
      : Type ℓ where
    pub next : Bintree D
    pub now : List (Bintreenode D)
    pub runs : run ≡ some next
    pub valid : Valid rank next now
    pub more : entries now ≡ insert_entry d c (entries ns)

  pub insert_first :
      (this : Bintree D) (x m : Bintreenode D) (tree : Tree D) (old : Option D)
      → insert_into_tree rank this.root x ≡ (tree, m, old)
      → ((count_insert rank this tree old).node_counter == 1) ≡ true
      → bintree_insert_node rank this x
        ≡ some (record (count_insert rank this tree old) {
          top = some m.address;
          bottom = some m.address;
        })
  unfolding bintree_insert_node
  insert_first this x m tree old e f = cc

  pub insert_more :
      (this : Bintree D) (x m : Bintreenode D) (tree : Tree D) (old : Option D)
      → insert_into_tree rank this.root x ≡ (tree, m, old)
      → ((count_insert rank this tree old).node_counter == 1) ≡ false
      → bintree_insert_node rank this x ≡ compare_ends rank (count_insert rank this tree old) m
  unfolding bintree_insert_node
  insert_more this x m tree old e f = cc
