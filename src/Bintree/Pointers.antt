-- ===== src/Bintree/Pointers.antt =====
-- The pointers to the least and the greatest node, and what the refreshing makes of them.
use ntrt.Prelude.{
  ℕ, ◌≡◌, ◌≢◌, ◌∙◌, refl, sym, ap, ap₂, subst, Bool, true, false, Option, some, List, [], ◌∷◌, ◌++◌,
  append_assoc, ne→==, eq→==, if◌then◌else◌,
}
use ntrt.Slist.{append_nil}
use ntrt.Bintree.{
  Bintreenode, Tree, leaf, node, Bintree, address_of, points_to, refresh_top, refresh_bottom,
  refresh,
}
use ntrt.Bintree.Nodes.{
  nodes, last, first, last-append, first-append, get_rightest-last, get_leftest-first,
}
use ntrt.Bintree.Order.{All, All-append, All-left, All-right}

kept_pointer : (b : Bool) (p q : Option ℕ) → b ≡ false → (if b then q else p) ≡ p
kept_pointer b p q e = cc

new_pointer : (b : Bool) (p q : Option ℕ) → b ≡ true → (if b then q else p) ≡ q
new_pointer b p q e = cc

module _ {ℓ} {D : Type ℓ} where
  -- The address is that of none of the nodes.
  abbrev pub Unused : ℕ → List (Bintreenode D) → Type 0
  Unused a ns = All (λ n. n.address ≢ a) ns

  -- No two nodes have one address.
  abbrev pub Distinct : List (Bintreenode D) → Type 0
  Distinct [] = Unit
  Distinct (n ∷ ns) = Unused n.address ns × Distinct ns

  -- The pointers lead to the first and the last of the nodes.
  pub record Ends (this : Bintree D) (ns : List (Bintreenode D)) : Type ℓ where
    pub top : this.top ≡ address_of (last ns)
    pub bottom : this.bottom ≡ address_of (first ns)

  pub Unused-append :
      (a : ℕ) (xs ys : List (Bintreenode D)) → Unused a xs → Unused a ys → Unused a (xs ++ ys)
  Unused-append a xs ys h k = All-append (λ n. n.address ≢ a) xs ys h k

  pub Distinct-remove :
      (xs : List (Bintreenode D)) (n : Bintreenode D) (ys : List (Bintreenode D))
      → Distinct (xs ++ n ∷ ys)
      → Distinct (xs ++ ys)
  Distinct-remove [] n ys d = d.1
  Distinct-remove (x ∷ xs) n ys (a, d) = (
    Unused-append x.address xs ys (All-left _ xs (n ∷ ys) a) (All-right _ xs (n ∷ ys) a).1,
    Distinct-remove xs n ys d,
  )

  -- The others have other addresses than a node among them.
  pub Distinct-Unused :
      (xs : List (Bintreenode D)) (n : Bintreenode D) (ys : List (Bintreenode D))
      → Distinct (xs ++ n ∷ ys)
      → Unused n.address (xs ++ ys)
  Distinct-Unused [] n ys d = d.0
  Distinct-Unused (x ∷ xs) n ys (a, d) =
      ((λ e. (All-right _ xs (n ∷ ys) a).0 (sym e)), Distinct-Unused xs n ys d)

  pub Distinct-insert :
      (xs : List (Bintreenode D)) (n : Bintreenode D) (ys : List (Bintreenode D))
      → Unused n.address (xs ++ ys)
      → Distinct (xs ++ ys)
      → Distinct (xs ++ n ∷ ys)
  Distinct-insert [] n ys u d = (u, d)
  Distinct-insert (x ∷ xs) n ys (u, us) (a, d) = (
    Unused-append x.address xs (n ∷ ys) (All-left _ xs ys a)
        ((λ e. u (sym e)), All-right _ xs ys a),
    Distinct-insert xs n ys us d,
  )

  pub last-All :
      (P : Bintreenode D → Type 0) (n : Bintreenode D) (ns : List (Bintreenode D))
      → All P (n ∷ ns)
      → (m : Bintreenode D) × (last (n ∷ ns) ≡ some m) × P m
  last-All P n [] (a, _) = (n, refl, a)
  last-All P n (m ∷ ns) (a, b) = last-All P m ns b

  not_pointed :
      (o : Option (Bintreenode D)) (p : Option ℕ) (m : Bintreenode D) (a : ℕ)
      → p ≡ address_of o
      → o ≡ some m
      → m.address ≢ a
      → points_to p a ≡ false
  not_pointed o p m a e f u = cc (ne→== m.address a u)

  pointed :
      (o : Option (Bintreenode D)) (p : Option ℕ) (m : Bintreenode D)
      → p ≡ address_of o
      → o ≡ some m
      → points_to p m.address ≡ true
  pointed o p m e f = cc (eq→== m.address m.address refl)

  -- Where the node is not the last one, the pointer to the last stays.
  last-Unused :
      (p : Option ℕ) (ns : List (Bintreenode D)) (a : ℕ)
      → p ≡ address_of (last ns)
      → Unused a ns
      → points_to p a ≡ false
  last-Unused p [] a e u = cc
  last-Unused p (n ∷ ns) a e u =
      let (m, f, v) = last-All (λ n. n.address ≢ a) n ns u in
      not_pointed (last (n ∷ ns)) p m a e f v

  first-Unused :
      (p : Option ℕ) (ns : List (Bintreenode D)) (a : ℕ)
      → p ≡ address_of (first ns)
      → Unused a ns
      → points_to p a ≡ false
  first-Unused p [] a e u = cc
  first-Unused p (n ∷ ns) a e u = not_pointed (some n) p n a e refl u.0

  -- A refreshing for a node that is not in the tree leaves the pointers.
  pub refresh_elsewhere :
      (this : Bintree D) (ns : List (Bintreenode D)) (a : ℕ) (l r : Tree D)
      → Ends this ns
      → Unused a ns
      → Ends (refresh this a l r) ns
  unfolding refresh
  refresh_elsewhere this ns a l r h u = record {
    top =
        kept_pointer (points_to this.top a) this.top (refresh_top l this.root)
          (last-Unused this.top ns a h.top u)
        ∙ h.top;
    bottom =
        kept_pointer (points_to this.bottom a) this.bottom (refresh_bottom r this.root)
          (first-Unused this.bottom ns a h.bottom u)
        ∙ h.bottom;
  }

  -- The link of the last node leads to what was before it.
  refresh_top-last :
      (before : List (Bintreenode D)) (l root : Tree D)
      → nodes root ≡ before ++ nodes l
      → refresh_top l root ≡ address_of (last (nodes root))
  unfolding refresh_top nodes
  refresh_top-last before leaf root e = ap address_of (get_rightest-last root)
  refresh_top-last before (node ll m lr) root e = ap address_of (
      get_rightest-last (node ll m lr)
      ∙ last-append (nodes ll) m (nodes lr)
      ∙ sym (last-append (before ++ nodes ll) m (nodes lr))
      ∙ ap last (append_assoc before (nodes ll) (m ∷ nodes lr) ∙ sym e))

  refresh_bottom-first :
      (after : List (Bintreenode D)) (r root : Tree D)
      → nodes root ≡ nodes r ++ after
      → refresh_bottom r root ≡ address_of (first (nodes root))
  unfolding refresh_bottom nodes
  refresh_bottom-first after leaf root e = ap address_of (get_leftest-first root)
  refresh_bottom-first after (node rl m rr) root e = ap address_of (
      get_leftest-first (node rl m rr)
      ∙ sym (first-append (nodes rl) m (nodes rr) after)
      ∙ ap first (sym e))

  top_after :
      (p : Option ℕ) (root l : Tree D) (before ys : List (Bintreenode D)) (n : Bintreenode D)
      → p ≡ address_of (last ((before ++ nodes l) ++ n ∷ ys))
      → Unused n.address ys
      → nodes root ≡ (before ++ nodes l) ++ ys
      → (if points_to p n.address then refresh_top l root else p) ≡ address_of (last (nodes root))
  top_after p root l before [] n e u h =
      new_pointer (points_to p n.address) p (refresh_top l root)
        (pointed (some n) p n (e ∙ ap address_of (last-append (before ++ nodes l) n [])) refl)
      ∙ refresh_top-last before l root (h ∙ append_nil (before ++ nodes l))
  top_after p root l before (y ∷ ys) n e u h =
      let e' = e ∙ ap address_of (last-append (before ++ nodes l) n (y ∷ ys)) in
      kept_pointer (points_to p n.address) p (refresh_top l root)
        (last-Unused p (y ∷ ys) n.address e' u)
      ∙ e'
      ∙ ap address_of (sym (last-append (before ++ nodes l) y ys) ∙ ap last (sym h))

  bottom_after :
      (p : Option ℕ) (root r : Tree D) (xs after : List (Bintreenode D)) (n : Bintreenode D)
      → p ≡ address_of (first (xs ++ n ∷ (nodes r ++ after)))
      → Unused n.address xs
      → nodes root ≡ xs ++ (nodes r ++ after)
      → (if points_to p n.address then refresh_bottom r root else p)
        ≡ address_of (first (nodes root))
  bottom_after p root r [] after n e u h =
      new_pointer (points_to p n.address) p (refresh_bottom r root) (pointed (some n) p n e refl)
      ∙ refresh_bottom-first after r root h
  bottom_after p root r (x ∷ xs) after n e u h =
      kept_pointer (points_to p n.address) p (refresh_bottom r root)
        (first-Unused p (x ∷ xs) n.address e u)
      ∙ e
      ∙ ap (λ ns. address_of (first ns)) (sym h)

  -- After a node is unlinked the refreshing sets the pointers right.
  pub refresh-Ends :
      (this : Bintree D) (l : Tree D) (n : Bintreenode D) (r : Tree D)
      (before after ns : List (Bintreenode D))
      → this.top ≡ address_of (last ((before ++ nodes l) ++ n ∷ (nodes r ++ after)))
      → this.bottom ≡ address_of (first ((before ++ nodes l) ++ n ∷ (nodes r ++ after)))
      → Distinct ((before ++ nodes l) ++ n ∷ (nodes r ++ after))
      → nodes this.root ≡ (before ++ nodes l) ++ (nodes r ++ after)
      → nodes this.root ≡ ns
      → Ends (refresh this n.address l r) ns
  unfolding refresh
  refresh-Ends this l n r before after ns t b d e f =
      let u = Distinct-Unused (before ++ nodes l) n (nodes r ++ after) d in
      record {
        top =
            top_after this.top this.root l before (nodes r ++ after) n t
              (All-right _ (before ++ nodes l) (nodes r ++ after) u) e
            ∙ ap (λ ns. address_of (last ns)) f;
        bottom =
            bottom_after this.bottom this.root r (before ++ nodes l) after n b
              (All-left _ (before ++ nodes l) (nodes r ++ after) u) e
            ∙ ap (λ ns. address_of (first ns)) f;
      }

  -- The same, with names for what is before and behind the node.
  pub refresh-Ends_at :
      (this : Bintree D) (l : Tree D) (n : Bintreenode D) (r : Tree D)
      (before after xs ys : List (Bintreenode D))
      → xs ≡ before ++ nodes l
      → ys ≡ nodes r ++ after
      → Ends this (xs ++ n ∷ ys)
      → Distinct (xs ++ n ∷ ys)
      → (root : Tree D) → nodes root ≡ xs ++ ys
      → Ends (refresh (record this { root = root }) n.address l r) (xs ++ ys)
  refresh-Ends_at this l n r before after xs ys p q h d root e =
      let c : xs ++ n ∷ ys ≡ (before ++ nodes l) ++ n ∷ (nodes r ++ after) =
        ap₂ (λ x y. x ++ n ∷ y) p q in
      refresh-Ends (record this { root = root }) l n r before after (xs ++ ys)
        (h.top ∙ ap (λ z. address_of (last z)) c) (h.bottom ∙ ap (λ z. address_of (first z)) c)
        (subst Distinct c d) (e ∙ ap₂ ◌++◌ p q) e
