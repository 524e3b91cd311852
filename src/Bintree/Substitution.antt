-- ===== src/Bintree/Substitution.antt =====
-- A node in the place of another at its address, where only the data or the counts change: the
-- pointers and the addresses.
use ntrt.Prelude.{ℕ, ◌≡◌, ◌∙◌, refl, sym, ap, subst, some, List, [], ◌∷◌, ◌++◌}
use ntrt.Bintree.{Bintreenode, Tree, Bintree, address_of}
use ntrt.Bintree.Nodes.{last, first, last-append}
use ntrt.Bintree.Order.{All-left, All-right}
use ntrt.Bintree.Pointers.{Unused, Distinct, Ends, Unused-append}

module _ {ℓ} {D : Type ℓ} where
  -- A node in the place of another at its address.
  last-replace :
      (xs : List (Bintreenode D)) (n m : Bintreenode D) (ys : List (Bintreenode D))
      → m.address ≡ n.address
      → address_of (last (xs ++ n ∷ ys)) ≡ address_of (last (xs ++ m ∷ ys))
  last-replace xs n m [] e =
      ap address_of (last-append xs n [])
      ∙ ap some (sym e)
      ∙ ap address_of (sym (last-append xs m []))
  last-replace xs n m (y ∷ ys) e =
      ap address_of (last-append xs n (y ∷ ys) ∙ sym (last-append xs m (y ∷ ys)))

  first-replace :
      (xs : List (Bintreenode D)) (n m : Bintreenode D) (ys : List (Bintreenode D))
      → m.address ≡ n.address
      → address_of (first (xs ++ n ∷ ys)) ≡ address_of (first (xs ++ m ∷ ys))
  first-replace [] n m ys e = ap some (sym e)
  first-replace (x ∷ xs) n m ys e = refl

  pub Ends-replace :
      (this : Bintree D) (xs : List (Bintreenode D)) (n m : Bintreenode D)
      (ys : List (Bintreenode D)) (root : Tree D)
      → m.address ≡ n.address
      → Ends this (xs ++ n ∷ ys)
      → Ends (record this { root = root }) (xs ++ m ∷ ys)
  Ends-replace this xs n m ys root e h = record {
    top = h.top ∙ last-replace xs n m ys e;
    bottom = h.bottom ∙ first-replace xs n m ys e;
  }

  pub Unused-replace :
      (a : ℕ) (xs : List (Bintreenode D)) (n m : Bintreenode D) (ys : List (Bintreenode D))
      → m.address ≡ n.address
      → Unused a (xs ++ n ∷ ys)
      → Unused a (xs ++ m ∷ ys)
  Unused-replace a xs n m ys e u =
      let v = All-right _ xs (n ∷ ys) u in
      Unused-append a xs (m ∷ ys) (All-left _ xs (n ∷ ys) u) ((λ f. v.0 (sym e ∙ f)), v.1)

  pub Distinct-replace :
      (xs : List (Bintreenode D)) (n m : Bintreenode D) (ys : List (Bintreenode D))
      → m.address ≡ n.address
      → Distinct (xs ++ n ∷ ys)
      → Distinct (xs ++ m ∷ ys)
  Distinct-replace [] n m ys e (u, d) = (subst (λ a. Unused a ys) (sym e) u, d)
  Distinct-replace (x ∷ xs) n m ys e (u, d) =
      (Unused-replace x.address xs n m ys e u, Distinct-replace xs n m ys e d)
