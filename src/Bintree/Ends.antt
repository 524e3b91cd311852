-- ===== src/Bintree/Ends.antt =====
-- The end of `_insert`: a node that was put in place becomes an end of the tree, or not.
use ntrt.Prelude.{
  ℕ, ◌<◌, ◌≡◌, ◌∙◌, refl, sym, ap, subst, true, false, Option, some, List, [], ◌∷◌, ◌++◌, arith,
  length, append_assoc, ltb,
}
use ntrt.Slist.{append_nil}
use ntrt.Bintree.{Bintreenode, Tree, Bintree}
use ntrt.Bintree.Nodes.{nodes, last}
use ntrt.Bintree.Order.{All-right, Below, Sorted, Sorted-Below}
use ntrt.Bintree.Pointers.{Distinct, Ends}
use ntrt.Bintree.Valid.{last_split}
use ntrt.Prelude.{lt→ltb, le→ltb, eq→==, ne→==, ◌≢◌, ◌≤◌}
use ntrt.Bintree.{address_of, read_pointer, at_address}
use ntrt.Bintree.Change.{compare_ends}
use ntrt.Bintree.Nodes.{first, find_address, at_address-find, last-append}
use ntrt.Bintree.Order.{Above, All-imp, Sorted-Above}
use ntrt.Bintree.Pointers.{last-All}
use ntrt.Bintree.Valid.{last_split}

module _ {ℓ} {D : Type ℓ} where
  find_address_at :
      (xs : List (Bintreenode D)) (n : Bintreenode D) (ys : List (Bintreenode D))
      → Distinct (xs ++ n ∷ ys)
      → find_address (xs ++ n ∷ ys) n.address ≡ some n
  find_address_at [] n ys d = cc (eq→== n.address n.address refl)
  find_address_at (x ∷ xs) n ys (u, d) =
      let other : x.address ≢ n.address = λ e. (All-right _ xs (n ∷ ys) u).0 (sym e) in
      cc (ne→== x.address n.address other, find_address_at xs n ys d)

  read_runs :
      (root : Tree D) (p : Option ℕ) (n : Bintreenode D)
      → p ≡ some n.address
      → at_address root n.address ≡ some n
      → read_pointer p root ≡ some (some n.datum)
  unfolding read_pointer
  read_runs root p n e f = cc

  -- A pointer to a node of the tree reads its data.
  pub read_pointer_at :
      (root : Tree D) (p : Option ℕ) (xs : List (Bintreenode D)) (n : Bintreenode D)
      (ys : List (Bintreenode D))
      → nodes root ≡ xs ++ n ∷ ys
      → Distinct (xs ++ n ∷ ys)
      → p ≡ some n.address
      → read_pointer p root ≡ some (some n.datum)
  read_pointer_at root p xs n ys e d f = read_runs root p n f (
      at_address-find root n.address
      ∙ ap (λ t. find_address t n.address) e
      ∙ find_address_at xs n ys d)

  pub read_last :
      (root : Tree D) (p : Option ℕ) (ns : List (Bintreenode D)) (m : Bintreenode D)
      → nodes root ≡ ns
      → Distinct ns
      → p ≡ some m.address
      → last ns ≡ some m
      → read_pointer p root ≡ some (some m.datum)
  read_last root p ns m e d f l =
      let (init, g) = last_split ns m l in
      read_pointer_at root p init m [] (e ∙ g) (subst Distinct g d) f

  pub read_first :
      (root : Tree D) (p : Option ℕ) (m : Bintreenode D) (ns : List (Bintreenode D))
      → nodes root ≡ m ∷ ns
      → Distinct (m ∷ ns)
      → p ≡ some m.address
      → read_pointer p root ≡ some (some m.datum)
  read_first root p m ns e d f = read_pointer_at root p [] m ns e d f

module _ {ℓ} {D : Type ℓ} (rank : D → ℕ) where
  becomes_top :
      (this : Bintree D) (x : Bintreenode D) (top : D)
      → read_pointer this.top this.root ≡ some (some top)
      → ltb (rank top) (rank x.datum) ≡ true
      → compare_ends rank this x ≡ some (record this { top = some x.address })
  unfolding compare_ends
  becomes_top this x top e f = cc

  becomes_bottom :
      (this : Bintree D) (x : Bintreenode D) (top bottom : D)
      → read_pointer this.top this.root ≡ some (some top)
      → ltb (rank top) (rank x.datum) ≡ false
      → read_pointer this.bottom this.root ≡ some (some bottom)
      → ltb (rank x.datum) (rank bottom) ≡ true
      → compare_ends rank this x ≡ some (record this { bottom = some x.address })
  unfolding compare_ends
  becomes_bottom this x top bottom e f g h = cc

  stays_inside :
      (this : Bintree D) (x : Bintreenode D) (top bottom : D)
      → read_pointer this.top this.root ≡ some (some top)
      → ltb (rank top) (rank x.datum) ≡ false
      → read_pointer this.bottom this.root ≡ some (some bottom)
      → ltb (rank x.datum) (rank bottom) ≡ false
      → compare_ends rank this x ≡ some this
  unfolding compare_ends
  stays_inside this x top bottom e f g h = cc

  -- The run ends with the pointers at the ends, and nothing else changed.
  pub record Ended (run : Option (Bintree D)) (this : Bintree D) (ns : List (Bintreenode D))
      : Type ℓ where
    pub next : Bintree D
    pub runs : run ≡ some next
    pub root : next.root ≡ this.root
    pub node_counter : next.node_counter ≡ this.node_counter
    pub ends : Ends next ns

  -- The greatest of the nodes above `x`, if there is one, is the last.
  pub added-Ends :
      (this : Bintree D) (xs : List (Bintreenode D)) (x : Bintreenode D) (ys : List (Bintreenode D))
      → Ends this (xs ++ ys)
      → nodes this.root ≡ xs ++ x ∷ ys
      → Distinct (xs ++ x ∷ ys)
      → Below rank (rank x.datum) xs
      → Above rank (rank x.datum) ys
      → 0 < length (xs ++ ys)
      → Ended (compare_ends rank this x) this (xs ++ x ∷ ys)
  added-Ends this [] x [] h e d b a l = absurd (omega arith)
  added-Ends this (z ∷ xs) x [] h e d b a l =
      let (m, f, low) = last-All (λ n. rank n.datum < rank x.datum) z xs b in
      let (init, g) = last_split (z ∷ xs) m f in
      let c : (z ∷ xs) ++ x ∷ [] ≡ init ++ m ∷ (x ∷ []) =
        ap (λ t. t ++ x ∷ []) g ∙ append_assoc init (m ∷ []) (x ∷ []) in
      let top : this.top ≡ some m.address =
        h.top ∙ ap (λ t. address_of (last t)) (append_nil (z ∷ xs)) ∙ ap address_of f in
      record {
        next = record this { top = some x.address };
        runs =
            becomes_top this x m.datum
              (read_pointer_at this.root this.top init m (x ∷ []) (e ∙ c) (subst Distinct c d) top)
              (lt→ltb (rank m.datum) (rank x.datum) low);
        root = refl;
        node_counter = refl;
        ends = record { top = ap address_of (sym (last-append (z ∷ xs) x [])); bottom = h.bottom };
      }
  added-Ends this [] x (y ∷ ys) h e d b a l =
      let (m, f, high) = last-All (λ n. rank x.datum < rank n.datum) y ys a in
      record {
        next = record this { bottom = some x.address };
        runs =
            becomes_bottom this x m.datum y.datum
              (read_last this.root this.top (x ∷ y ∷ ys) m e d (h.top ∙ ap address_of f) f)
              (le→ltb (rank m.datum) (rank x.datum) (omega arith))
              (read_pointer_at this.root this.bottom (x ∷ []) y ys e d h.bottom)
              (lt→ltb (rank x.datum) (rank y.datum) a.0);
        root = refl;
        node_counter = refl;
        ends = record { top = h.top; bottom = refl };
      }
  added-Ends this (z ∷ xs) x (y ∷ ys) h e d b a l =
      let (m, f, high) = last-All (λ n. rank x.datum < rank n.datum) y ys a in
      let end = last-append (z ∷ xs) x (y ∷ ys) in
      let old = last-append (z ∷ xs) y ys in
      let low : rank z.datum < rank x.datum = b.0 in
      record {
        next = this;
        runs =
            stays_inside this x m.datum z.datum
              (read_last this.root this.top ((z ∷ xs) ++ x ∷ y ∷ ys) m e d
                (h.top ∙ ap address_of (old ∙ f)) (end ∙ f))
              (le→ltb (rank m.datum) (rank x.datum) (omega arith))
              (read_first this.root this.bottom z (xs ++ x ∷ y ∷ ys) e d h.bottom)
              (le→ltb (rank x.datum) (rank z.datum) (omega arith));
        root = refl;
        node_counter = refl;
        ends = record { top = h.top ∙ ap address_of (old ∙ sym end); bottom = h.bottom };
      }

  first_low :
      (xs : List (Bintreenode D)) (n : Bintreenode D) (ys : List (Bintreenode D))
      → Sorted rank (xs ++ n ∷ ys)
      → (m : Bintreenode D) × (rest : List (Bintreenode D)) × (xs ++ n ∷ ys ≡ m ∷ rest)
        × (rank m.datum ≤ rank n.datum)
  first_low [] n ys s = (n, ys, refl, omega arith)
  first_low (x ∷ xs) n ys s =
      let low : rank x.datum < rank n.datum = (Sorted-Below rank (x ∷ xs) n ys s).0 in
      (x, xs ++ n ∷ ys, refl, omega arith)

  -- A node that was there before becomes no end.
  pub merged-Ends :
      (this : Bintree D) (xs : List (Bintreenode D)) (n : Bintreenode D) (ys : List (Bintreenode D))
      → Ends this (xs ++ n ∷ ys)
      → nodes this.root ≡ xs ++ n ∷ ys
      → Distinct (xs ++ n ∷ ys)
      → Sorted rank (xs ++ n ∷ ys)
      → compare_ends rank this n ≡ some this
  merged-Ends this xs n ys h e d s =
      let (m, f, high) =
        last-All (λ m. rank n.datum ≤ rank m.datum) n ys
          (
            omega arith,
            All-imp (λ m. rank n.datum < rank m.datum) (λ m. rank n.datum ≤ rank m.datum)
                (λ m b. omega arith) ys (Sorted-Above rank xs n ys s),
          ) in
      let (z, rest, g, low) = first_low xs n ys s in
      let end = last-append xs n ys ∙ f in
      stays_inside this n m.datum z.datum
        (read_last this.root this.top (xs ++ n ∷ ys) m e d (h.top ∙ ap address_of end) end)
        (le→ltb (rank m.datum) (rank n.datum) high)
        (read_first this.root this.bottom z rest (e ∙ g) (subst Distinct g d)
          (h.bottom ∙ ap (λ t. address_of (first t)) g))
        (le→ltb (rank n.datum) (rank z.datum) low)
