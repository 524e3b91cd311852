-- ===== src/Bintree/Order.antt =====
-- Lists of nodes in order.
use ntrt.Prelude.{
  ℕ, ◌<◌, ◌≡◌, ◌≢◌, ◌∙◌, sym, subst, Option, none, some, List, [], ◌∷◌, ◌++◌, arith, inl, inr,
}
use ntrt.Bintree.{Bintreenode, Tree, leaf, node}
use ntrt.Bintree.Change.{search_value}
use ntrt.Bintree.Nodes.{nodes}
use ntrt.Bintree.Search.{compare-cases, compare-lt, compare-gt, found_left, found_right, found_here}

module _ {ℓ} {D : Type ℓ} where
  -- Every node of a list satisfies `P`.
  abbrev pub All : (Bintreenode D → Type 0) → List (Bintreenode D) → Type 0
  All P [] = Unit
  All P (n ∷ ns) = P n × All P ns

  pub All-imp :
      (P Q : Bintreenode D → Type 0)
      → ((n : Bintreenode D) → P n → Q n)
      → (ns : List (Bintreenode D)) → All P ns
      → All Q ns
  All-imp P Q f [] a = tt
  All-imp P Q f (n ∷ ns) (a, b) = (f n a, All-imp P Q f ns b)

  pub All-append :
      (P : Bintreenode D → Type 0) (xs ys : List (Bintreenode D))
      → All P xs
      → All P ys
      → All P (xs ++ ys)
  All-append P [] ys a b = b
  All-append P (x ∷ xs) ys (a, rest) b = (a, All-append P xs ys rest b)

  pub All-left :
      (P : Bintreenode D → Type 0) (xs ys : List (Bintreenode D)) → All P (xs ++ ys) → All P xs
  All-left P [] ys a = tt
  All-left P (x ∷ xs) ys (a, rest) = (a, All-left P xs ys rest)

  pub All-right :
      (P : Bintreenode D → Type 0) (xs ys : List (Bintreenode D)) → All P (xs ++ ys) → All P ys
  All-right P [] ys a = a
  All-right P (x ∷ xs) ys (a, rest) = All-right P xs ys rest

module _ {ℓ} {D : Type ℓ} where
  not_none :
      (l : Tree D) (n : Bintreenode D) (r : Tree D)
      → ¬ (◌≡◌ {A = Option (Tree D × Bintreenode D × Tree D)} (some (l, n, r)) none)
  not_none l n r e = absurd (cc)

module _ {ℓ} {D : Type ℓ} (rank : D → ℕ) where
  abbrev pub Above : ℕ → List (Bintreenode D) → Type 0
  Above k ns = All (λ n. k < rank n.datum) ns

  abbrev pub Below : ℕ → List (Bintreenode D) → Type 0
  Below k ns = All (λ n. rank n.datum < k) ns

  abbrev pub Absent : ℕ → List (Bintreenode D) → Type 0
  Absent k ns = All (λ n. k ≢ rank n.datum) ns

  -- The ranks ascend.
  abbrev pub Sorted : List (Bintreenode D) → Type 0
  Sorted [] = Unit
  Sorted (n ∷ ns) = Above (rank n.datum) ns × Sorted ns

  pub Sorted-left : (xs ys : List (Bintreenode D)) → Sorted (xs ++ ys) → Sorted xs
  Sorted-left [] ys s = tt
  Sorted-left (x ∷ xs) ys (a, s) = (All-left _ xs ys a, Sorted-left xs ys s)

  pub Sorted-right : (xs ys : List (Bintreenode D)) → Sorted (xs ++ ys) → Sorted ys
  Sorted-right [] ys s = s
  Sorted-right (x ∷ xs) ys (a, s) = Sorted-right xs ys s

  -- What stands before a node is below it.
  pub Sorted-Below :
      (xs : List (Bintreenode D)) (n : Bintreenode D) (ys : List (Bintreenode D))
      → Sorted (xs ++ n ∷ ys)
      → Below (rank n.datum) xs
  Sorted-Below [] n ys s = tt
  Sorted-Below (x ∷ xs) n ys (a, s) =
      ((All-right (λ m. rank x.datum < rank m.datum) xs (n ∷ ys) a).0, Sorted-Below xs n ys s)

  pub Sorted-Above :
      (xs : List (Bintreenode D)) (n : Bintreenode D) (ys : List (Bintreenode D))
      → Sorted (xs ++ n ∷ ys)
      → Above (rank n.datum) ys
  Sorted-Above xs n ys s = (Sorted-right xs (n ∷ ys) s).0

  pub Sorted-remove :
      (xs : List (Bintreenode D)) (n : Bintreenode D) (ys : List (Bintreenode D))
      → Sorted (xs ++ n ∷ ys)
      → Sorted (xs ++ ys)
  Sorted-remove [] n ys s = s.1
  Sorted-remove (x ∷ xs) n ys (a, s) = (
    All-append _ xs ys (All-left _ xs (n ∷ ys) a) (All-right _ xs (n ∷ ys) a).1,
    Sorted-remove xs n ys s,
  )

  -- A node in the place of another of its rank.
  pub Sorted-replace :
      (xs : List (Bintreenode D)) (n m : Bintreenode D) (ys : List (Bintreenode D))
      → rank m.datum ≡ rank n.datum
      → Sorted (xs ++ n ∷ ys)
      → Sorted (xs ++ m ∷ ys)
  Sorted-replace [] n m ys e (a, s) = (subst (λ k. Above k ys) (sym e) a, s)
  Sorted-replace (x ∷ xs) n m ys e (a, s) = (
    All-append _ xs (m ∷ ys) (All-left _ xs (n ∷ ys) a) (
      subst (λ k. rank x.datum < k) (sym e) (All-right _ xs (n ∷ ys) a).0,
      (All-right _ xs (n ∷ ys) a).1,
    ),
    Sorted-replace xs n m ys e s,
  )

  -- A node between those below it and those above it.
  pub Sorted-insert :
      (xs : List (Bintreenode D)) (n : Bintreenode D) (ys : List (Bintreenode D))
      → Sorted (xs ++ ys)
      → Below (rank n.datum) xs
      → Above (rank n.datum) ys
      → Sorted (xs ++ n ∷ ys)
  Sorted-insert [] n ys s b a = (a, s)
  Sorted-insert (x ∷ xs) n ys (c, s) (b, bs) a = (
    All-append _ xs (n ∷ ys) (All-left _ xs ys c) (b, All-right _ xs ys c),
    Sorted-insert xs n ys s bs a,
  )

  -- In an ordered tree a search that comes to NULL has missed no node.
  pub search_value-Absent :
      (t : Tree D) (k : ℕ) → Sorted (nodes t) → search_value rank t k ≡ none → Absent k (nodes t)
  unfolding nodes search_value
  search_value-Absent leaf k s e = tt
  search_value-Absent (node l m r) k s e = elim (compare-cases k (rank m.datum)) [
    | inl c ↦
        let below : k < rank m.datum = compare-lt k (rank m.datum) c in
        All-append _ (nodes l) (m ∷ nodes r)
          (search_value-Absent l k (Sorted-left (nodes l) (m ∷ nodes r) s)
            (sym (found_left rank l m r k c) ∙ e))
          (
            (λ f. omega arith),
            All-imp (λ n. rank m.datum < rank n.datum) (λ n. k ≢ rank n.datum)
                (λ n a f. omega arith) (nodes r) (Sorted-Above (nodes l) m (nodes r) s),
          )
    | inr (inl c) ↦ absurd (not_none l m r (sym (found_here rank l m r k c) ∙ e))
    | inr (inr c) ↦
        let above : rank m.datum < k = compare-gt k (rank m.datum) c in
        All-append _ (nodes l) (m ∷ nodes r)
          (All-imp (λ n. rank n.datum < rank m.datum) (λ n. k ≢ rank n.datum) (λ n a f. omega arith)
            (nodes l) (Sorted-Below (nodes l) m (nodes r) s))
          (
            (λ f. omega arith),
            search_value-Absent r k (Sorted-right (nodes l) (m ∷ nodes r) s).1
                (sym (found_right rank l m r k c) ∙ e),
          )
  ]
