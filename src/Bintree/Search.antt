-- ===== src/Bintree/Search.antt =====
-- Search in a tree: where the node found stands in the list of the nodes.
use ntrt.Prelude.{
  ℕ, ◌<◌, ◌≡◌, ◌∙◌, refl, sym, ap, none, some, List, [], ◌∷◌, ◌++◌, arith, append_assoc, inl, inr,
  ◌⊎◌,
}
use Prim.Native.Nat.{compare, Ordering}
use Prim.Native.Nat.Ordering.{lt, eq, gt}
use ntrt.Slist.{append_nil}
use ntrt.Bintree.{Bintreenode, Tree, leaf, node}
use ntrt.Bintree.Change.{search_value, relink, overwrite}
use ntrt.Bintree.Nodes.{nodes}

pub compare-cases : (a b : ℕ) → (compare a b ≡ lt) ⊎ (compare a b ≡ eq) ⊎ (compare a b ≡ gt)
compare-cases a b = ordering_cases (compare a b)
  where
    ordering_cases : (o : Ordering) → (o ≡ lt) ⊎ (o ≡ eq) ⊎ (o ≡ gt)
    ordering_cases lt = inl refl
    ordering_cases eq = inr (inl refl)
    ordering_cases gt = inr (inr refl)

pub compare-eq : (a b : ℕ) → compare a b ≡ eq → a ≡ b
compare-eq a b e = ground arith

pub compare-lt : (a b : ℕ) → compare a b ≡ lt → a < b
compare-lt a b e = ground arith

pub compare-gt : (a b : ℕ) → compare a b ≡ gt → b < a
compare-gt a b e = ground arith

pub lt-compare : (a b : ℕ) → a < b → compare a b ≡ lt
lt-compare a b h = ground arith

pub gt-compare : (a b : ℕ) → b < a → compare a b ≡ gt
gt-compare a b h = ground arith

pub eq-compare : (a : ℕ) → compare a a ≡ eq
eq-compare a = ground arith

module _ {ℓ} {D : Type ℓ} where
  assoc_three :
      (a b : List (Bintreenode D)) (n : Bintreenode D) (c d e : List (Bintreenode D))
      → (a ++ (b ++ n ∷ (c ++ d))) ++ e ≡ a ++ (b ++ n ∷ (c ++ (d ++ e)))
  assoc_three a b n c d e =
      append_assoc a (b ++ n ∷ (c ++ d)) e
      ∙ ap (λ t. a ++ t)
          (append_assoc b (n ∷ (c ++ d)) e ∙ ap (λ t. b ++ n ∷ t) (append_assoc c d e))

  assoc_two : (a b c d : List (Bintreenode D)) → (a ++ (b ++ c)) ++ d ≡ a ++ (b ++ (c ++ d))
  assoc_two a b c d = append_assoc a (b ++ c) d ∙ ap (λ t. a ++ t) (append_assoc b c d)

  assoc_one :
      (a : List (Bintreenode D)) (n : Bintreenode D) (b c : List (Bintreenode D))
      → a ++ n ∷ (b ++ c) ≡ (a ++ n ∷ b) ++ c
  assoc_one a n b c = sym (append_assoc a (n ∷ b) c)

module _ {ℓ} {D : Type ℓ} (rank : D → ℕ) where
  abbrev pub AllBelow : ℕ → List (Bintreenode D) → Type 0
  AllBelow j [] = Unit
  AllBelow j (n ∷ ns) = (rank n.datum < j) × AllBelow j ns

  below_last :
      (j : ℕ) (xs : List (Bintreenode D)) (n : Bintreenode D) (ys : List (Bintreenode D))
      → AllBelow j (xs ++ n ∷ ys)
      → (rank n.datum < j) × AllBelow j ys
  below_last j [] n ys a = a
  below_last j (x ∷ xs) n ys (_, a) = below_last j xs n ys a

  -- The node found stands between what is before and after it, and so do its replacements.
  pub record Located (t : Tree D) (k : ℕ) (l : Tree D) (n : Bintreenode D) (r : Tree D)
      : Type ℓ where
    pub before : List (Bintreenode D)
    pub after : List (Bintreenode D)
    pub found : nodes t ≡ before ++ (nodes l ++ n ∷ (nodes r ++ after))
    pub same : rank n.datum ≡ k
    pub relinked : (c : Tree D) → nodes (relink rank t k c) ≡ before ++ (nodes c ++ after)
    pub overwritten :
        (m : Bintreenode D)
        → nodes (overwrite rank t k m) ≡ before ++ (nodes l ++ m ∷ (nodes r ++ after))
    pub descends :
        (j : ℕ)
        → AllBelow j before
        → j < rank n.datum
        → search_value rank t j ≡ search_value rank l j

  pub found_left :
      (l0 : Tree D) (m : Bintreenode D) (r0 : Tree D) (k : ℕ)
      → compare k (rank m.datum) ≡ lt
      → search_value rank (node l0 m r0) k ≡ search_value rank l0 k
  unfolding search_value
  found_left l0 m r0 k c = cc

  pub found_right :
      (l0 : Tree D) (m : Bintreenode D) (r0 : Tree D) (k : ℕ)
      → compare k (rank m.datum) ≡ gt
      → search_value rank (node l0 m r0) k ≡ search_value rank r0 k
  unfolding search_value
  found_right l0 m r0 k c = cc

  pub found_here :
      (l0 : Tree D) (m : Bintreenode D) (r0 : Tree D) (k : ℕ)
      → compare k (rank m.datum) ≡ eq
      → search_value rank (node l0 m r0) k ≡ some (l0, m, r0)
  unfolding search_value
  found_here l0 m r0 k c = cc

  search_left :
      (l0 : Tree D) (m : Bintreenode D) (r0 : Tree D) (k : ℕ) (l : Tree D) (n : Bintreenode D)
      (r : Tree D)
      → compare k (rank m.datum) ≡ lt
      → Located l0 k l n r
      → Located (node l0 m r0) k l n r
  unfolding nodes relink overwrite
  search_left l0 m r0 k l n r e h = record {
    before = h.before;
    after = h.after ++ m ∷ nodes r0;
    found =
        ap (λ t. t ++ m ∷ nodes r0) h.found
        ∙ assoc_three h.before (nodes l) n (nodes r) h.after (m ∷ nodes r0);
    same = h.same;
    relinked = λ c.
        rw (e, nodes)
          (ap (λ t. t ++ m ∷ nodes r0) (h.relinked c)
            ∙ assoc_two h.before (nodes c) h.after (m ∷ nodes r0));
    overwritten = λ m'.
        rw (e, nodes)
          (ap (λ t. t ++ m ∷ nodes r0) (h.overwritten m')
            ∙ assoc_three h.before (nodes l) m' (nodes r) h.after (m ∷ nodes r0));
    descends = λ j a b.
        found_left l0 m r0 j
          (lt-compare j (rank m.datum) (omega (arith, h.same, compare-lt k (rank m.datum) e)))
        ∙ h.descends j a b;
  }

  search_right :
      (l0 : Tree D) (m : Bintreenode D) (r0 : Tree D) (k : ℕ) (l : Tree D) (n : Bintreenode D)
      (r : Tree D)
      → compare k (rank m.datum) ≡ gt
      → Located r0 k l n r
      → Located (node l0 m r0) k l n r
  unfolding nodes relink overwrite
  search_right l0 m r0 k l n r e h = record {
    before = nodes l0 ++ m ∷ h.before;
    after = h.after;
    found = ap (λ t. nodes l0 ++ m ∷ t) h.found ∙ assoc_one (nodes l0) m h.before _;
    same = h.same;
    relinked = λ c.
        rw (e, nodes)
          (ap (λ t. nodes l0 ++ m ∷ t) (h.relinked c) ∙ assoc_one (nodes l0) m h.before _);
    overwritten = λ m'.
        rw (e, nodes)
          (ap (λ t. nodes l0 ++ m ∷ t) (h.overwritten m') ∙ assoc_one (nodes l0) m h.before _);
    descends = λ j a b.
        let below = below_last j (nodes l0) m h.before a in
        found_right l0 m r0 j (gt-compare j (rank m.datum) below.0) ∙ h.descends j below.1 b;
  }

  search_here :
      (l : Tree D) (n : Bintreenode D) (r : Tree D) (k : ℕ)
      → compare k (rank n.datum) ≡ eq
      → Located (node l n r) k l n r
  unfolding nodes relink overwrite
  search_here l n r k e = record {
    before = [];
    after = [];
    found = ap (λ t. nodes l ++ n ∷ t) (sym (append_nil (nodes r)));
    same = sym (compare-eq k (rank n.datum) e);
    relinked = λ c. rw (e, nodes) (sym (append_nil (nodes c)));
    overwritten = λ m. rw (e, nodes) (ap (λ t. nodes l ++ m ∷ t) (sym (append_nil (nodes r))));
    descends = λ j a b. found_left l n r j (lt-compare j (rank n.datum) b);
  }

  -- A search either comes to NULL or finds a node.
  abbrev pub Searched : Tree D → ℕ → Type ℓ
  Searched t k =
      (search_value rank t k ≡ none)
      ⊎ (l : Tree D) × (n : Bintreenode D) × (r : Tree D) × (search_value rank t k ≡ some (l, n, r))
        × Located t k l n r

  pub search_value_lem : (t : Tree D) (k : ℕ) → Searched t k
  unfolding search_value
  search_value_lem leaf k = inl refl
  search_value_lem (node l0 m r0) k = elim (compare-cases k (rank m.datum)) [
    | inl c ↦ elim (search_value_lem l0 k) [
      | inl e ↦ inl (found_left l0 m r0 k c ∙ e)
      | inr (l, n, r, e, h) ↦
          inr (l, n, r, found_left l0 m r0 k c ∙ e, search_left l0 m r0 k l n r c h)
    ]
    | inr (inl c) ↦ inr (l0, m, r0, found_here l0 m r0 k c, search_here l0 m r0 k c)
    | inr (inr c) ↦ elim (search_value_lem r0 k) [
      | inl e ↦ inl (found_right l0 m r0 k c ∙ e)
      | inr (l, n, r, e, h) ↦
          inr (l, n, r, found_right l0 m r0 k c ∙ e, search_right l0 m r0 k l n r c h)
    ]
  ]
