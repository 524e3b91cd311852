-- ===== src/Bintree/Ruin.antt =====
-- The reset's pass over the nodes: it keeps the tree and a pointer that is set, and faults only where
-- the recycle puffer has no room for all nodes.
use ntrt.Prelude.{
  ℕ, ◌≡◌, refl, ap, ◌∙◌, ◌+◌, ◌-◌, ◌≤◌, ◌<◌, arith, [], Bool, true, false, Option, none, some, ◌⊎◌,
  inl, inr, Bool-cases, not, ◌&&◌, ◌||◌, if◌then◌else◌,
}
use ntrt.Bintree.{
  Bintreenode, Tree, leaf, node, Bintree, address_of, points_to, get_rightest, refresh_top, refresh,
  Trash, searched, right_clear, left_clear, discard, trash_bintreenode, ruin_full,
}

-- A pointer that is not NULL.
abbrev pub NotNull : Option ℕ → Type 0
NotNull p = (a : ℕ) × (p ≡ some a)

if_set : (b : Bool) (p q : Option ℕ) → NotNull p → NotNull q → NotNull (if b then p else q)
if_set true p q h k = h
if_set false p q h k = k

discard_fits :
    (a : ℕ) (t : Trash) → t.recycled < 32 → discard a t ≡ record t { recycled = t.recycled + 1 }
unfolding discard
discard_fits a t h = ground arith

module _ {ℓ} {D : Type ℓ} where
  rightest_set :
      (l : Tree D) (n : Bintreenode D) (r : Tree D)
      → NotNull (address_of (get_rightest (node l n r)))
  unfolding get_rightest
  rightest_set l n leaf = (n.address, refl)
  rightest_set l n (node rl m rr) = rightest_set rl m rr

  refresh_top_set :
      (t l : Tree D) (n : Bintreenode D) (r : Tree D) → NotNull (refresh_top t (node l n r))
  unfolding refresh_top
  refresh_top_set leaf l n r = rightest_set l n r
  refresh_top_set (node tl m tr) l n r = rightest_set tl m tr

  -- A tree with a node, and a pointer to its greatest one.
  abbrev pub Rooted : Tree D → Bintree D × Trash → Type ℓ
  Rooted root s = (s.0.root ≡ root) × NotNull s.0.top

  -- A run faults, or ends with the tree and a pointer that is set.
  abbrev pub EndsRooted : Tree D → Option (Bintree D × Trash) → Type ℓ
  EndsRooted root run = (run ≡ none) ⊎ ((s : Bintree D × Trash) × (run ≡ some s) × Rooted root s)

  -- Whether the node that the pointers are moved from leads to a freed one.
  abbrev meets : Bintree D → ℕ → Tree D → Tree D → Trash → Bool
  meets this a tl tr t =
      points_to this.top a && not (right_clear t.freed (searched tl this.root))
      || points_to this.bottom a && not (left_clear t.freed (searched tr this.root))

  trash_faults :
      (this : Bintree D) (t : Trash) (a : ℕ) (tl tr : Tree D)
      → meets this a tl tr t ≡ true
      → trash_bintreenode this a tl tr t ≡ none
  unfolding trash_bintreenode
  trash_faults this t a tl tr e = cc

  trash_runs :
      (this : Bintree D) (t : Trash) (a : ℕ) (tl tr : Tree D)
      → meets this a tl tr t ≡ false
      → trash_bintreenode this a tl tr t ≡ some (refresh this a tl tr, discard a t)
  unfolding trash_bintreenode
  trash_runs this t a tl tr e = cc

  refresh-Rooted :
      (this : Bintree D) (t : Trash) (a : ℕ) (tl right l : Tree D) (n : Bintreenode D) (r : Tree D)
      → Rooted (node l n r) (this, t)
      → Rooted (node l n r) (refresh this a tl right, t)
  unfolding refresh
  refresh-Rooted this t a tl right l n r (e, h) = (
    e,
    if_set (points_to this.top a) (refresh_top tl this.root) this.top
        (rw e (refresh_top_set tl l n r)) h,
  )

  trash-Rooted :
      (this : Bintree D) (t : Trash) (a : ℕ) (tl right l : Tree D) (n : Bintreenode D) (r : Tree D)
      → Rooted (node l n r) (this, t)
      → EndsRooted (node l n r) (trash_bintreenode this a tl right t)
  trash-Rooted this t a tl right l n r h = elim (Bool-cases (meets this a tl right t)) [
    | inl f ↦ inl (trash_faults this t a tl right f)
    | inr f ↦ inr (
      (refresh this a tl right, discard a t),
      trash_runs this t a tl right f,
      refresh-Rooted this t a tl right l n r h,
    )
  ]

  faults_left :
      (l : Tree D) (n : Bintreenode D) (r : Tree D) (s : Bintree D × Trash)
      → ruin_full l s ≡ none
      → ruin_full (node l n r) s ≡ none
  unfolding ruin_full
  faults_left l n r s e = cc

  faults_right :
      (l : Tree D) (n : Bintreenode D) (r : Tree D) (s s' : Bintree D × Trash)
      → ruin_full l s ≡ some s'
      → ruin_full r s' ≡ none
      → ruin_full (node l n r) s ≡ none
  unfolding ruin_full
  faults_right l n r s s' e f = cc

  faults_here :
      (l : Tree D) (n : Bintreenode D) (r : Tree D) (s s' : Bintree D × Trash) (this : Bintree D)
      (t : Trash)
      → ruin_full l s ≡ some s'
      → ruin_full r s' ≡ some (this, t)
      → trash_bintreenode this n.address l r t ≡ none
      → ruin_full (node l n r) s ≡ none
  unfolding ruin_full
  faults_here l n r s s' this t e f g = cc

  ruins :
      (l : Tree D) (n : Bintreenode D) (r : Tree D) (s s' : Bintree D × Trash)
      (this this' : Bintree D) (t t' : Trash)
      → ruin_full l s ≡ some s'
      → ruin_full r s' ≡ some (this, t)
      → trash_bintreenode this n.address l r t ≡ some (this', t')
      → ruin_full (node l n r) s ≡ some (record this' { node_counter = this'.node_counter - 1 }, t')
  unfolding ruin_full
  ruins l n r s s' this this' t t' e f g = cc

  leaf_runs : (s : Bintree D × Trash) → ruin_full leaf s ≡ some s
  unfolding ruin_full
  leaf_runs s = refl

  pub ruin_full-Rooted :
      (t : Tree D) (s : Bintree D × Trash) (l : Tree D) (n : Bintreenode D) (r : Tree D)
      → Rooted (node l n r) s
      → EndsRooted (node l n r) (ruin_full t s)
  ruin_full-Rooted leaf s l n r h = inr (s, leaf_runs s, h)
  ruin_full-Rooted (node tl m right) s l n r h = elim (ruin_full-Rooted tl s l n r h) [
    | inl e ↦ inl (faults_left tl m right s e)
    | inr (s', e, h') ↦ elim (ruin_full-Rooted right s' l n r h') [
      | inl f ↦ inl (faults_right tl m right s s' e f)
      | inr ((this, t), f, k) ↦ elim (trash-Rooted this t m.address tl right l n r k) [
        | inl g ↦ inl (faults_here tl m right s s' this t e f g)
        | inr ((this', t'), g, k') ↦ inr (
          (record this' { node_counter = this'.node_counter - 1 }, t'),
          ruins tl m right s s' this this' t t' e f g,
          k',
        )
      ]
    ]
  ]

  -- The number of nodes of a tree.
  abbrev pub size : Tree D → ℕ
  size leaf = 0
  size (node l n r) = size l + size r + 1

  right_clear_nil : (t : Tree D) → right_clear [] t ≡ true
  unfolding right_clear
  right_clear_nil leaf = refl
  right_clear_nil (node l n r) = right_clear_nil r

  left_clear_nil : (t : Tree D) → left_clear [] t ≡ true
  unfolding left_clear
  left_clear_nil leaf = refl
  left_clear_nil (node l n r) = left_clear_nil l

  nothing_met :
      (this : Bintree D) (t : Trash) (a : ℕ) (tl right : Tree D)
      → t.freed ≡ []
      → meets this a tl right t ≡ false
  nothing_met this t a tl right e =
      let p = right_clear_nil (searched tl this.root) in
      let q = left_clear_nil (searched right this.root) in ground arith

  -- While the recycle puffer has room nothing is freed, and nothing faults.
  pub ruin_full_fits :
      (t : Tree D) (s : Bintree D × Trash)
      → s.1.freed ≡ []
      → s.1.recycled + size t ≤ 32
      → (s' : Bintree D × Trash) × (ruin_full t s ≡ some s')
        × (s'.1.freed ≡ [])
        × (s'.1.recycled ≡ s.1.recycled + size t)
  ruin_full_fits leaf s e h = (s, leaf_runs s, e, omega arith)
  ruin_full_fits (node l n r) s e h =
      let (s1, p1, e1, c1) = ruin_full_fits l s e (omega arith) in
      let ((this, t), p2, e2, c2) = ruin_full_fits r s1 e1 (omega arith) in
      let g = trash_runs this t n.address l r (nothing_met this t n.address l r e2) in
      let d = discard_fits n.address t (omega arith) in
      let this' = refresh this n.address l r in
      (
        (
          record this' { node_counter = this'.node_counter - 1 },
          record t { recycled = t.recycled + 1 },
        ),
        ruins l n r s s1 this this' t (record t { recycled = t.recycled + 1 }) p1 p2
            (g ∙ ap (λ u. some (this', u)) d),
        e2,
        omega arith,
      )
