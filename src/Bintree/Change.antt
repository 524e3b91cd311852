-- ===== src/Bintree/Change.antt =====
-- lib/lib_bintree.c: search, insertion and removal.
use ntrt.Prelude.{
  ℕ, zero, suc, ◌+◌, ◌-◌, Bool, true, false, Option, none, some, ◌∷◌, ◌==◌, ltb, if◌then◌else◌,
}
use ntrt.Prelude.Word.{add32, sub32}
use Prim.Native.Nat.{compare}
use Prim.Native.Nat.Ordering.{lt, eq, gt}
use ntrt.Bintree.{Bintreenode, Tree, leaf, node, Bintree, get_rightest, read_pointer, refresh}

module _ {ℓ} {D : Type ℓ} where
  -- The candidate of a node that has one link at most; `none` is the case `replace`.
  unfoldable pub only_link : Tree D → Tree D → Option (Tree D)
  only_link leaf r = some r
  only_link (node ll m lr) leaf = some (node ll m lr)
  only_link (node ll m lr) (node rl o rr) = none

module _ {ℓ} {D : Type ℓ} (rank : D → ℕ) where
  -- `_search_value`, with the links of the node found.
  unfoldable pub search_value : Tree D → ℕ → Option (Tree D × Bintreenode D × Tree D)
  search_value leaf k = none
  search_value (node l n r) k = elim (compare k (rank n.datum)) [
    | lt ↦ search_value l k
    | eq ↦ some (l, n, r)
    | gt ↦ search_value r k
  ]

  -- The link to the node found, from its parent or the root, is set to `candidate`.
  unfoldable pub relink : Tree D → ℕ → Tree D → Tree D
  relink leaf k candidate = leaf
  relink (node l n r) k candidate = elim (compare k (rank n.datum)) [
    | lt ↦ node (relink l k candidate) n r
    | eq ↦ candidate
    | gt ↦ node l n (relink r k candidate)
  ]

  -- The node found is overwritten where it stands.
  unfoldable pub overwrite : Tree D → ℕ → Bintreenode D → Tree D
  overwrite leaf k m = leaf
  overwrite (node l n r) k m = elim (compare k (rank n.datum)) [
    | lt ↦ node (overwrite l k m) n r
    | eq ↦ node l m r
    | gt ↦ node l n (overwrite r k m)
  ]

  -- `_insert_into_tree`: the tree, what `*insert` is afterwards, and the data that the node merged
  -- with had, if there was one.
  unfoldable pub insert_into_tree : Tree D → Bintreenode D → Tree D × Bintreenode D × Option D
  insert_into_tree leaf insert = (node leaf insert leaf, insert, none)
  insert_into_tree (node l actual r) insert =
      elim (compare (rank actual.datum) (rank insert.datum)) [
        | eq ↦
            let merged : Bintreenode D = record actual {
              ref = actual.ref + insert.ref;
              datum = insert.datum;
            } in
            (node l merged r, merged, some actual.datum)
        | lt ↦ let (right, m, old) = insert_into_tree r insert in (node l actual right, m, old)
        | gt ↦ let (left, m, old) = insert_into_tree l insert in (node left actual r, m, old)
      ]

  -- The counters and the notifier in `_insert_into_tree`.
  unfoldable pub count_insert : Bintree D → Tree D → Option D → Bintree D
  unfolding add32
  count_insert this root none = record this { root = root; node_counter = this.node_counter + 1 }
  count_insert this root (some old) = record this {
    root = root;
    notified = elim this.notified [ none ↦ none | some given ↦ some (old ∷ given) ];
    duplicate_counter = add32 this.duplicate_counter 1;
  }

  -- The end of `_insert`, where the tree has more than one node.
  unfoldable pub compare_ends : Bintree D → Bintreenode D → Option (Bintree D)
  unfolding read_pointer
  compare_ends this insert = elim (read_pointer this.top this.root) [
    | none ↦ none
    | some none ↦ none
    | some (some top) ↦ elim (ltb (rank top) (rank insert.datum)) [
      | true ↦ some (record this { top = some insert.address })
      | false ↦ elim (read_pointer this.bottom this.root) [
        | none ↦ none
        | some none ↦ none
        | some (some bottom) ↦ some (
            if ltb (rank insert.datum) (rank bottom)
            then record this { bottom = some insert.address }
            else this)
      ]
    ]
  ]

  -- `_insert`, and the assignment of the root behind it: `bintree_insert_node`. A node that is
  -- merged goes to the recycle puffer; it is in no tree, so that neither pointer leads to it.
  unfoldable pub bintree_insert_node : Bintree D → Bintreenode D → Option (Bintree D)
  unfolding insert_into_tree count_insert compare_ends
  bintree_insert_node this insert =
      let (root, m, old) = insert_into_tree this.root insert in
      let this' = count_insert this root old in
      elim (this'.node_counter == 1) [
        | true ↦ some (record this' { top = some m.address; bottom = some m.address })
        | false ↦ compare_ends this' m
      ]

  -- `bintree_insert_data`, with `_make_bintreenode` at the address of the new node.
  unfoldable pub bintree_insert_data : Bintree D → ℕ → D → Option (Bintree D)
  unfolding bintree_insert_node
  bintree_insert_data this address d =
      bintree_insert_node this (record { address = address; datum = d; ref = 1 })

  -- `bintree_has_value`.
  unfoldable pub bintree_has_value : Bintree D → D → Bool
  unfolding search_value
  bintree_has_value this d = elim (search_value this.root (rank d)) [
    | none ↦ false
    | some found ↦ true
  ]

  -- The case `remove` of `_pop_from_tree`.
  unfoldable pub pop_out : Bintree D → ℕ → Bintreenode D → Tree D → Bintree D
  unfolding relink sub32 refresh
  pop_out this k n candidate =
      refresh
        (record this {
          root = relink this.root k candidate;
          node_counter = this.node_counter - 1;
          duplicate_counter = sub32 this.duplicate_counter (sub32 n.ref 1);
        })
        n.address leaf leaf

  -- The end of the case `replace` in both functions: the node found gets the values of the candidate
  -- that was popped.
  unfoldable pub copy_values : Bintree D → ℕ → Bintreenode D → Bintreenode D → Bintree D
  unfolding overwrite refresh
  copy_values this k n candidate =
      refresh
        (record this {
          root = overwrite this.root k (record n { datum = candidate.datum; ref = candidate.ref });
        })
        candidate.address leaf leaf

  -- `_pop_from_tree`: the node found, or NULL, taken out of the tree. The inner call is for the
  -- greatest node on the left, which has no right link, so that the fuel of two calls is enough.
  unfoldable pub pop_from_tree : ℕ → Bintree D → ℕ → Option (Option (Bintreenode D) × Bintree D)
  unfolding search_value only_link get_rightest pop_out copy_values
  pop_from_tree zero this k = none
  pop_from_tree (suc fuel) this k = elim (search_value this.root k) [
    | none ↦ some (none, this)
    | some (l, n, r) ↦ elim (only_link l r) [
      | some child ↦ some (some n, pop_out this k n child)
      | none ↦ elim (get_rightest l) [
        | none ↦ none
        | some c ↦ elim (pop_from_tree fuel this (rank c.datum)) [
          | none ↦ none
          | some (none, this') ↦ none
          | some (some candidate, this') ↦ some (
            some (record candidate { datum = n.datum; ref = n.ref }),
            copy_values this' k n candidate,
          )
        ]
      ]
    ]
  ]

  -- The case `remove` of `_deref_from_tree`.
  unfoldable pub remove_node : Bintree D → ℕ → Tree D → Bintreenode D → Tree D → Tree D → Bintree D
  unfolding relink refresh
  remove_node this k l n r candidate =
      let this' = refresh (record this { root = relink this.root k candidate }) n.address l r in
      record this' { node_counter = this'.node_counter - 1 }

  -- `_deref_from_tree`.
  unfoldable pub deref_from_tree : Bintree D → ℕ → Option (Bintree D)
  unfolding search_value only_link overwrite remove_node get_rightest pop_from_tree copy_values
      sub32
  deref_from_tree this k = elim (search_value this.root k) [
    | none ↦ some this
    | some (l, n, r) ↦ elim (ltb 1 n.ref) [
      | true ↦ some (record this {
        root = overwrite this.root k (record n { ref = n.ref - 1 });
        duplicate_counter = sub32 this.duplicate_counter 1;
      })
      | false ↦ elim (only_link l r) [
        | some child ↦ some (remove_node this k l n r child)
        | none ↦ elim (get_rightest l) [
          | none ↦ none
          | some c ↦ elim (pop_from_tree 2 this (rank c.datum)) [
            | none ↦ none
            | some (none, this') ↦ none
            | some (some candidate, this') ↦ some (copy_values this' k n candidate)
          ]
        ]
      ]
    ]
  ]

  -- `bintree_delete_value`.
  unfoldable pub bintree_delete_value : Bintree D → D → Option (Bintree D)
  unfolding deref_from_tree
  bintree_delete_value this d = deref_from_tree this (rank d)

  -- `bintree_pop_node`, and `bintree_pop_top_node` and `bintree_pop_bottom_node`.
  unfoldable pub bintree_pop_node : Bintree D → D → Option (Option (Bintreenode D) × Bintree D)
  unfolding pop_from_tree
  bintree_pop_node this d = pop_from_tree 2 this (rank d)

  unfoldable pub pop_pointed : Option ℕ → Bintree D → Option (Option (Bintreenode D) × Bintree D)
  unfolding read_pointer bintree_pop_node
  pop_pointed pointer this = elim (read_pointer pointer this.root) [
    | none ↦ none
    | some none ↦ some (none, this)
    | some (some d) ↦ bintree_pop_node this d
  ]

  unfoldable pub bintree_pop_top_node : Bintree D → Option (Option (Bintreenode D) × Bintree D)
  unfolding pop_pointed
  bintree_pop_top_node this = pop_pointed this.top this

  unfoldable pub bintree_pop_bottom_node : Bintree D → Option (Option (Bintreenode D) × Bintree D)
  unfolding pop_pointed
  bintree_pop_bottom_node this = pop_pointed this.bottom this

  -- `bintree_pop_top_data` and `bintree_pop_bottom_data`.
  unfoldable pub deref_pointed : Option ℕ → Bintree D → Option (Option D × Bintree D)
  unfolding read_pointer deref_from_tree
  deref_pointed pointer this = elim (read_pointer pointer this.root) [
    | none ↦ none
    | some none ↦ some (none, this)
    | some (some d) ↦ elim (deref_from_tree this (rank d)) [
      | none ↦ none
      | some this' ↦ some (some d, this')
    ]
  ]

  unfoldable pub bintree_pop_top_data : Bintree D → Option (Option D × Bintree D)
  unfolding deref_pointed
  bintree_pop_top_data this = deref_pointed this.top this

  unfoldable pub bintree_pop_bottom_data : Bintree D → Option (Option D × Bintree D)
  unfolding deref_pointed
  bintree_pop_bottom_data this = deref_pointed this.bottom this
