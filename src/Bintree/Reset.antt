-- ===== src/Bintree/Reset.antt =====
-- `bintree_reset` leaves its pointers behind.
use ntrt.Prelude.{ℕ, ◌≡◌, refl, ◌+◌, ◌≤◌, ◌<◌, arith, [], Option, none, some, ◌⊎◌, inl, inr}
use ntrt.Bintree.{
  Bintreenode, Tree, leaf, node, Bintree, Trash, ruin_full, bintree_reset, at_address,
  bintree_get_top_data, read_pointer,
}
use ntrt.Bintree.Ruin.{NotNull, ruin_full-Rooted, size, ruin_full_fits}

room_cases : (m : ℕ) → (m ≤ 32) ⊎ (32 < m)
room_cases m = ground arith

module _ {ℓ} {D : Type ℓ} where
  dangles : (p : Option ℕ) (a : ℕ) → p ≡ some a → read_pointer {D = D} p leaf ≡ none
  unfolding read_pointer at_address
  dangles p a e = cc

  reset_faults :
      (this : Bintree D) (k : ℕ)
      → ruin_full this.root (this, record { recycled = k; freed = [] }) ≡ none
      → bintree_reset k this ≡ none
  unfolding bintree_reset
  reset_faults this k e = cc

  reset_runs :
      (this next : Bintree D) (t : Trash) (k : ℕ)
      → ruin_full this.root (this, record { recycled = k; freed = [] }) ≡ some (next, t)
      → bintree_reset k this ≡ some (record next { root = leaf; node_counter = 0 })
  unfolding bintree_reset
  reset_runs this next t k e = cc

  fault_absurd :
      {o : Option (Bintree D × Trash)} {s : Bintree D × Trash} → o ≡ none → o ≡ some s → ⊥
  fault_absurd e f = absurd (cc)

  too_many :
      (this : Bintree D) (k : ℕ)
      → ruin_full this.root (this, record { recycled = k; freed = [] }) ≡ none
      → (k + size this.root ≤ 32) ⊎ (32 < k + size this.root)
      → 32 < k + size this.root
  too_many this k e (inr h) = h
  too_many this k e (inl h) =
      let r = ruin_full_fits this.root (this, record { recycled = k; freed = [] }) refl h in
      absurd (fault_absurd e r.1)

  -- `bintree_reset` of a tree that has a node. Where the recycle puffer has no room for all nodes, it
  -- may itself read a node that it has freed. In any other case it ends, and the pointer to the
  -- greatest node is not NULL, and leads to no node of the tree: to read it is a fault.
  pub bintree_reset_lem :
      (this : Bintree D) (l : Tree D) (n : Bintreenode D) (r : Tree D) (recycled : ℕ)
      → this.root ≡ node l n r
      → NotNull this.top
      → ((bintree_reset recycled this ≡ none) × (32 < recycled + size this.root))
        ⊎ ((next : Bintree D) × (bintree_reset recycled this ≡ some next)
            × NotNull next.top
            × (bintree_get_top_data next ≡ none))
  unfolding bintree_get_top_data
  bintree_reset_lem this l n r recycled e h =
      elim (ruin_full-Rooted this.root (this, record { recycled = recycled; freed = [] }) l n r
        (e, h)) [
          | inl f ↦ inl (
            reset_faults this recycled f,
            too_many this recycled f (room_cases (recycled + size this.root)),
          )
          | inr ((next, t), f, (g, (a, k))) ↦ inr (
            record next { root = leaf; node_counter = 0 },
            reset_runs this next t recycled f,
            (a, k),
            dangles next.top a k,
          )
        ]
