-- ===== src/Bintree/Insert.antt =====
-- `_insert_into_tree`: the node stands between those below it and those above it, or is merged.
use ntrt.Prelude.{
  ℕ, ◌+◌, ◌<◌, ◌≡◌, ◌∙◌, refl, sym, ap, Option, none, some, List, [], ◌∷◌, ◌++◌, arith,
  append_assoc, inl, inr, ◌⊎◌,
}
use ntrt.Bintree.{Bintreenode, Tree, leaf, node}
use ntrt.Bintree.Nodes.{nodes}
use ntrt.Bintree.Order.{Below, Sorted, Sorted-Below}
use Prim.Native.Nat.{compare}
use Prim.Native.Nat.Ordering.{lt, eq, gt}
use ntrt.Bintree.Change.{insert_into_tree}
use ntrt.Bintree.Search.{compare-cases, compare-eq, compare-lt, compare-gt}
use ntrt.Bintree.Order.{Above, All-imp, All-append, Sorted-left, Sorted-right, Sorted-Above}

module _ {ℓ} {D : Type ℓ} (rank : D → ℕ) where
  -- The values of a node that another was merged with.
  abbrev pub merge : Bintreenode D → Bintreenode D → Bintreenode D
  merge n x = record n { datum = x.datum; ref = n.ref + x.ref }

  -- The node is new between `before` and `after`.
  pub record IsAdded (t : Tree D) (x : Bintreenode D) : Type ℓ where
    pub before : List (Bintreenode D)
    pub after : List (Bintreenode D)
    pub tree : Tree D
    pub runs : insert_into_tree rank t x ≡ (tree, x, none)
    pub was : nodes t ≡ before ++ after
    pub is : nodes tree ≡ before ++ x ∷ after
    pub below : Below rank (rank x.datum) before
    pub above : Above rank (rank x.datum) after

  -- The node is merged with `n`, of the same rank.
  pub record IsMerged (t : Tree D) (x : Bintreenode D) : Type ℓ where
    pub before : List (Bintreenode D)
    pub n : Bintreenode D
    pub after : List (Bintreenode D)
    pub tree : Tree D
    pub runs : insert_into_tree rank t x ≡ (tree, merge n x, some n.datum)
    pub was : nodes t ≡ before ++ n ∷ after
    pub is : nodes tree ≡ before ++ merge n x ∷ after
    pub same : rank n.datum ≡ rank x.datum

  insert_left :
      (l : Tree D) (a : Bintreenode D) (r : Tree D) (x : Bintreenode D)
      → compare (rank a.datum) (rank x.datum) ≡ gt
      → insert_into_tree rank (node l a r) x ≡ (
        node (insert_into_tree rank l x).0 a r,
        (insert_into_tree rank l x).1,
        (insert_into_tree rank l x).2,
      )
  unfolding insert_into_tree
  insert_left l a r x c = cc

  insert_right :
      (l : Tree D) (a : Bintreenode D) (r : Tree D) (x : Bintreenode D)
      → compare (rank a.datum) (rank x.datum) ≡ lt
      → insert_into_tree rank (node l a r) x ≡ (
        node l a (insert_into_tree rank r x).0,
        (insert_into_tree rank r x).1,
        (insert_into_tree rank r x).2,
      )
  unfolding insert_into_tree
  insert_right l a r x c = cc

  insert_here :
      (l : Tree D) (a : Bintreenode D) (r : Tree D) (x : Bintreenode D)
      → compare (rank a.datum) (rank x.datum) ≡ eq
      → insert_into_tree rank (node l a r) x ≡ (node l (merge a x) r, merge a x, some a.datum)
  unfolding insert_into_tree
  insert_here l a r x c = cc

  IsAdded-left :
      (l : Tree D) (a : Bintreenode D) (r : Tree D) (x : Bintreenode D)
      → compare (rank a.datum) (rank x.datum) ≡ gt
      → Sorted rank (nodes l ++ a ∷ nodes r)
      → IsAdded l x
      → IsAdded (node l a r) x
  unfolding nodes
  IsAdded-left l a r x c s h =
      let high = compare-gt (rank a.datum) (rank x.datum) c in
      record {
        before = h.before;
        after = h.after ++ a ∷ nodes r;
        tree = node h.tree a r;
        runs =
            insert_left l a r x c
            ∙ ap (λ (o : Tree D × Bintreenode D × Option D). (node o.0 a r, o.1, o.2)) h.runs;
        was = ap (λ t. t ++ a ∷ nodes r) h.was ∙ append_assoc h.before h.after (a ∷ nodes r);
        is = ap (λ t. t ++ a ∷ nodes r) h.is ∙ append_assoc h.before (x ∷ h.after) (a ∷ nodes r);
        below = h.below;
        above =
            All-append (λ m. rank x.datum < rank m.datum) h.after (a ∷ nodes r) h.above
              (
                high,
                All-imp (λ m. rank a.datum < rank m.datum) (λ m. rank x.datum < rank m.datum)
                    (λ m b. omega arith) (nodes r) (Sorted-Above rank (nodes l) a (nodes r) s),
              );
      }

  IsAdded-right :
      (l : Tree D) (a : Bintreenode D) (r : Tree D) (x : Bintreenode D)
      → compare (rank a.datum) (rank x.datum) ≡ lt
      → Sorted rank (nodes l ++ a ∷ nodes r)
      → IsAdded r x
      → IsAdded (node l a r) x
  unfolding nodes
  IsAdded-right l a r x c s h =
      let low = compare-lt (rank a.datum) (rank x.datum) c in
      record {
        before = nodes l ++ a ∷ h.before;
        after = h.after;
        tree = node l a h.tree;
        runs =
            insert_right l a r x c
            ∙ ap (λ (o : Tree D × Bintreenode D × Option D). (node l a o.0, o.1, o.2)) h.runs;
        was =
            ap (λ t. nodes l ++ a ∷ t) h.was ∙ sym (append_assoc (nodes l) (a ∷ h.before) h.after);
        is =
            ap (λ t. nodes l ++ a ∷ t) h.is
            ∙ sym (append_assoc (nodes l) (a ∷ h.before) (x ∷ h.after));
        below =
            All-append (λ m. rank m.datum < rank x.datum) (nodes l) (a ∷ h.before)
              (All-imp (λ m. rank m.datum < rank a.datum) (λ m. rank m.datum < rank x.datum)
                (λ m b. omega arith) (nodes l) (Sorted-Below rank (nodes l) a (nodes r) s))
              (low, h.below);
        above = h.above;
      }

  IsMerged-left :
      (l : Tree D) (a : Bintreenode D) (r : Tree D) (x : Bintreenode D)
      → compare (rank a.datum) (rank x.datum) ≡ gt
      → IsMerged l x
      → IsMerged (node l a r) x
  unfolding nodes
  IsMerged-left l a r x c h = record {
    before = h.before;
    n = h.n;
    after = h.after ++ a ∷ nodes r;
    tree = node h.tree a r;
    runs =
        insert_left l a r x c
        ∙ ap (λ (o : Tree D × Bintreenode D × Option D). (node o.0 a r, o.1, o.2)) h.runs;
    was = ap (λ t. t ++ a ∷ nodes r) h.was ∙ append_assoc h.before (h.n ∷ h.after) (a ∷ nodes r);
    is =
        ap (λ t. t ++ a ∷ nodes r) h.is
        ∙ append_assoc h.before (merge h.n x ∷ h.after) (a ∷ nodes r);
    same = h.same;
  }

  IsMerged-right :
      (l : Tree D) (a : Bintreenode D) (r : Tree D) (x : Bintreenode D)
      → compare (rank a.datum) (rank x.datum) ≡ lt
      → IsMerged r x
      → IsMerged (node l a r) x
  unfolding nodes
  IsMerged-right l a r x c h = record {
    before = nodes l ++ a ∷ h.before;
    n = h.n;
    after = h.after;
    tree = node l a h.tree;
    runs =
        insert_right l a r x c
        ∙ ap (λ (o : Tree D × Bintreenode D × Option D). (node l a o.0, o.1, o.2)) h.runs;
    was =
        ap (λ t. nodes l ++ a ∷ t) h.was
        ∙ sym (append_assoc (nodes l) (a ∷ h.before) (h.n ∷ h.after));
    is =
        ap (λ t. nodes l ++ a ∷ t) h.is
        ∙ sym (append_assoc (nodes l) (a ∷ h.before) (merge h.n x ∷ h.after));
    same = h.same;
  }

  leaf-IsAdded : (x : Bintreenode D) → IsAdded leaf x
  unfolding nodes insert_into_tree
  leaf-IsAdded x = record {
    before = [];
    after = [];
    tree = node leaf x leaf;
    runs = refl;
    was = refl;
    is = refl;
    below = tt;
    above = tt;
  }

  IsMerged-here :
      (l : Tree D) (a : Bintreenode D) (r : Tree D) (x : Bintreenode D)
      → compare (rank a.datum) (rank x.datum) ≡ eq
      → IsMerged (node l a r) x
  unfolding nodes
  IsMerged-here l a r x c = record {
    before = nodes l;
    n = a;
    after = nodes r;
    tree = node l (merge a x) r;
    runs = insert_here l a r x c;
    was = refl;
    is = refl;
    same = compare-eq (rank a.datum) (rank x.datum) c;
  }

  pub insert_into_tree_lem :
      (t : Tree D) (x : Bintreenode D) → Sorted rank (nodes t) → IsAdded t x ⊎ IsMerged t x
  unfolding nodes
  insert_into_tree_lem leaf x s = inl (leaf-IsAdded x)
  insert_into_tree_lem (node l a r) x s = elim (compare-cases (rank a.datum) (rank x.datum)) [
    | inl c ↦ elim (insert_into_tree_lem r x (Sorted-right rank (nodes l) (a ∷ nodes r) s).1) [
      | inl h ↦ inl (IsAdded-right l a r x c s h)
      | inr h ↦ inr (IsMerged-right l a r x c h)
    ]
    | inr (inl c) ↦ inr (IsMerged-here l a r x c)
    | inr (inr c) ↦ elim (insert_into_tree_lem l x (Sorted-left rank (nodes l) (a ∷ nodes r) s)) [
      | inl h ↦ inl (IsAdded-left l a r x c s h)
      | inr h ↦ inr (IsMerged-left l a r x c h)
    ]
  ]
