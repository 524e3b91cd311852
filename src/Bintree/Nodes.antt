-- ===== src/Bintree/Nodes.antt =====
-- A tree as the list of its nodes, the least first.
use ntrt.Prelude.{
  ℕ, ◌≡◌, ◌∙◌, refl, sym, Option, none, some, List, [], ◌∷◌, ◌++◌, ◌==◌, arith, if◌then◌else◌,
}
use ntrt.Bintree.{Bintreenode, Tree, leaf, node, get_rightest, get_leftest, at_address}

module _ {ℓ} {D : Type ℓ} where
  unfoldable pub nodes : Tree D → List (Bintreenode D)
  nodes leaf = []
  nodes (node l n r) = nodes l ++ n ∷ nodes r

  abbrev pub last : List (Bintreenode D) → Option (Bintreenode D)
  last [] = none
  last (n ∷ []) = some n
  last (n ∷ m ∷ ns) = last (m ∷ ns)

  abbrev pub first : List (Bintreenode D) → Option (Bintreenode D)
  first [] = none
  first (n ∷ ns) = some n

  pub last-append :
      (xs : List (Bintreenode D)) (n : Bintreenode D) (ys : List (Bintreenode D))
      → last (xs ++ n ∷ ys) ≡ last (n ∷ ys)
  last-append [] n ys = refl
  last-append (x ∷ []) n ys = refl
  last-append (x ∷ y ∷ xs) n ys = last-append (y ∷ xs) n ys

  pub get_rightest-last : (t : Tree D) → get_rightest t ≡ last (nodes t)
  unfolding get_rightest nodes
  get_rightest-last leaf = refl
  get_rightest-last (node l n leaf) = sym (last-append (nodes l) n [])
  get_rightest-last (node l n (node rl m rr)) =
      get_rightest-last (node rl m rr)
      ∙ last-append (nodes rl) m (nodes rr)
      ∙ sym (last-append (n ∷ nodes rl) m (nodes rr))
      ∙ sym (last-append (nodes l) n (nodes rl ++ m ∷ nodes rr))

  pub first-append :
      (xs : List (Bintreenode D)) (n : Bintreenode D) (ys zs : List (Bintreenode D))
      → first ((xs ++ n ∷ ys) ++ zs) ≡ first (xs ++ n ∷ ys)
  first-append [] n ys zs = refl
  first-append (x ∷ xs) n ys zs = refl

  pub get_leftest-first : (t : Tree D) → get_leftest t ≡ first (nodes t)
  unfolding get_leftest nodes
  get_leftest-first leaf = refl
  get_leftest-first (node leaf n r) = refl
  get_leftest-first (node (node ll m lr) n r) =
      get_leftest-first (node ll m lr) ∙ sym (first-append (nodes ll) m (nodes lr) (n ∷ nodes r))

  -- The first of the nodes at an address.
  abbrev pub find_address : List (Bintreenode D) → ℕ → Option (Bintreenode D)
  find_address [] a = none
  find_address (n ∷ ns) a = if n.address == a then some n else find_address ns a

  find_address-append :
      (xs ys : List (Bintreenode D)) (a : ℕ)
      → find_address (xs ++ ys) a
        ≡ elim (find_address xs a) [ some n ↦ some n | none ↦ find_address ys a ]
  find_address-append [] ys a = refl
  find_address-append (x ∷ xs) ys a = ground (arith, find_address-append xs ys a)

  pub at_address-find : (t : Tree D) (a : ℕ) → at_address t a ≡ find_address (nodes t) a
  unfolding at_address nodes
  at_address-find leaf a = refl
  at_address-find (node l n r) a = ground (
    arith,
    at_address-find l a,
    at_address-find r a,
    find_address-append (nodes l) (n ∷ nodes r) a,
  )
