-- ===== src/Bintree.antt =====
-- lib/lib_bintree.c, a search tree that counts how often its data was inserted, and that keeps
-- pointers to its least and greatest nodes. The comparison, a function pointer, is by the numbers
-- that `rank` reads, as bintreecmp_int32's is. `none` is a NULL or dangling pointer that the source
-- reads. Where the memory of a new node comes from, malloc(3) or the recycle puffer, is left out:
-- it gets its address as an argument. Where its memory goes matters in a reset only, which goes on
-- reading the tree.
pub mod Change
pub mod Nodes
pub mod Search
pub mod Order
pub mod Pointers
pub mod Substitution
pub mod Valid
pub mod Removal
pub mod Replacement
pub mod Delete
pub mod Deletion
pub mod Insert
pub mod Ends
pub mod Insertion
pub mod Miscount
pub mod Growth
pub mod Pops
pub mod Ruin
pub mod Reset
mod Tests
use ntrt.Prelude.{
  ℕ, zero, suc, ◌+◌, ◌-◌, Bool, true, false, not, ◌&&◌, ◌||◌, Option, none, some, List, [], ◌∷◌,
  ◌==◌, ltb, if◌then◌else◌,
}
use ntrt.Prelude.Word.{add32, sub32}
use Prim.Native.Nat.{compare}
use Prim.Native.Nat.Ordering.{lt, eq, gt}

-- `bintreenode_t`, less its two links; `datum` is its field `data`.
pub record Bintreenode {ℓ} (D : Type ℓ) : Type ℓ where
  pub address : ℕ
  pub datum : D
  pub ref : ℕ

-- A node with what its links lead to; `leaf` is NULL.
pub data Tree {ℓ} (D : Type ℓ) : Type ℓ where
  leaf : Tree D
  node : Tree D → Bintreenode D → Tree D → Tree D

-- `bintree_t`. `notified` is what a duplicate notifier was given, the newest first, where one is set;
-- `duplicate_counter` is the bit pattern of an int32_t.
pub record Bintree {ℓ} (D : Type ℓ) : Type ℓ where
  pub root : Tree D
  pub bottom : Option ℕ
  pub top : Option ℕ
  pub node_counter : ℕ
  pub duplicate_counter : ℕ
  pub notified : Option (List D)

-- `node == this->top`.
abbrev pub points_to : Option ℕ → ℕ → Bool
points_to none a = false
points_to (some b) a = b == a

-- The nodes that a reset has given back: the number of those in the recycle puffer, which has 32 cells,
-- and the addresses of those that found no room and were freed.
pub record Trash : Type 0 where
  pub recycled : ℕ
  pub freed : List ℕ

unfoldable pub is_freed : ℕ → List ℕ → Bool
is_freed a [] = false
is_freed a (b ∷ freed) = a == b || is_freed a freed

unfoldable pub discard : ℕ → Trash → Trash
discard a t =
    if t.recycled == 32
    then record t { freed = a ∷ t.freed }
    else record t { recycled = t.recycled + 1 }

module _ {ℓ} {D : Type ℓ} where
  -- `make_bintree`.
  unfoldable pub make_bintree : Bintree D
  make_bintree = record {
    root = leaf;
    bottom = none;
    top = none;
    node_counter = 0;
    duplicate_counter = 0;
    notified = none;
  }

  -- `_get_rightest_value` and `_get_leftest_value`.
  unfoldable pub get_rightest : Tree D → Option (Bintreenode D)
  get_rightest leaf = none
  get_rightest (node l n leaf) = some n
  get_rightest (node l n (node rl m rr)) = get_rightest (node rl m rr)

  unfoldable pub get_leftest : Tree D → Option (Bintreenode D)
  get_leftest leaf = none
  get_leftest (node leaf n r) = some n
  get_leftest (node (node ll m lr) n r) = get_leftest (node ll m lr)

  -- The node that a pointer leads to, if the tree has it.
  unfoldable pub at_address : Tree D → ℕ → Option (Bintreenode D)
  at_address leaf a = none
  at_address (node l n r) a = elim (at_address l a) [
    | some m ↦ some m
    | none ↦ if n.address == a then some n else at_address r a
  ]

  abbrev pub address_of : Option (Bintreenode D) → Option ℕ
  address_of none = none
  address_of (some n) = some n.address

  -- `_refresh_top` and `_refresh_bottom`, with the link of the node that the pointer leads to.
  unfoldable pub refresh_top : Tree D → Tree D → Option ℕ
  unfolding get_rightest
  refresh_top leaf root = address_of (get_rightest root)
  refresh_top (node l n r) root = address_of (get_rightest (node l n r))

  unfoldable pub refresh_bottom : Tree D → Tree D → Option ℕ
  unfolding get_leftest
  refresh_bottom leaf root = address_of (get_leftest root)
  refresh_bottom (node l n r) root = address_of (get_leftest (node l n r))

  -- The two tests of `_trash_bintreenode` and of the ends of `_pop_from_tree`, for a node with its
  -- links.
  unfoldable pub refresh : Bintree D → ℕ → Tree D → Tree D → Bintree D
  unfolding refresh_top refresh_bottom
  refresh this a left right = record this {
    top = if points_to this.top a then refresh_top left this.root else this.top;
    bottom = if points_to this.bottom a then refresh_bottom right this.root else this.bottom;
  }

  -- None of the nodes that `_get_rightest_value` and `_get_leftest_value` visit is freed.
  unfoldable pub right_clear : List ℕ → Tree D → Bool
  unfolding is_freed
  right_clear freed leaf = true
  right_clear freed (node l n r) = not (is_freed n.address freed) && right_clear freed r

  unfoldable pub left_clear : List ℕ → Tree D → Bool
  unfolding is_freed
  left_clear freed leaf = true
  left_clear freed (node l n r) = not (is_freed n.address freed) && left_clear freed l

  -- Where `_refresh_top` and `_refresh_bottom` search: behind the link, or in the whole tree.
  abbrev pub searched : Tree D → Tree D → Tree D
  searched leaf root = root
  searched (node l n r) root = node l n r

  -- `_trash_bintreenode` of a node with its links; `none` where it reads a node that was freed.
  unfoldable pub trash_bintreenode :
      Bintree D → ℕ → Tree D → Tree D → Trash → Option (Bintree D × Trash)
  unfolding refresh right_clear left_clear discard
  trash_bintreenode this a left right t =
      if points_to this.top a && not (right_clear t.freed (searched left this.root))
        || points_to this.bottom a && not (left_clear t.freed (searched right this.root))
      then none
      else some (refresh this a left right, discard a t)

  -- `_ruin_full`.
  unfoldable pub ruin_full : Tree D → Bintree D × Trash → Option (Bintree D × Trash)
  unfolding trash_bintreenode
  ruin_full leaf s = some s
  ruin_full (node l n r) s = elim (ruin_full l s) [
    | none ↦ none
    | some s' ↦ elim (ruin_full r s') [
      | none ↦ none
      | some (this, t) ↦ elim (trash_bintreenode this n.address l r t) [
        | none ↦ none
        | some (this', t') ↦ some (record this' { node_counter = this'.node_counter - 1 }, t')
      ]
    ]
  ]

  -- `bintree_reset`, with the number of nodes in the recycle puffer, which it empties.
  unfoldable pub bintree_reset : ℕ → Bintree D → Option (Bintree D)
  unfolding ruin_full
  bintree_reset recycled this =
      elim (ruin_full this.root (this, record { recycled = recycled; freed = [] })) [
        | none ↦ none
        | some (this', t) ↦ some (record this' { root = leaf; node_counter = 0 })
      ]

  -- `bintree_get_top_data` and `bintree_get_bottom_data`; the outer `none` is a dangling pointer.
  unfoldable pub read_pointer : Option ℕ → Tree D → Option (Option D)
  unfolding at_address
  read_pointer none root = some none
  read_pointer (some a) root = elim (at_address root a) [
    | none ↦ none
    | some n ↦ some (some n.datum)
  ]

  unfoldable pub bintree_get_top_data : Bintree D → Option (Option D)
  unfolding read_pointer
  bintree_get_top_data this = read_pointer this.top this.root

  unfoldable pub bintree_get_bottom_data : Bintree D → Option (Option D)
  unfolding read_pointer
  bintree_get_bottom_data this = read_pointer this.bottom this.root

  unfoldable pub bintree_get_nodenum : Bintree D → ℕ
  bintree_get_nodenum this = this.node_counter

  unfoldable pub bintree_get_refnum : Bintree D → ℕ
  unfolding add32
  bintree_get_refnum this = add32 this.node_counter this.duplicate_counter
