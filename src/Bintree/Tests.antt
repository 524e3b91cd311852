-- ===== src/Bintree/Tests.antt =====
-- A small tree of numbers.
use ntrt.Prelude.{ℕ, ◌<◌, ◌⊎◌, ◌≡◌, refl, Option, none, some, List, [], ◌∷◌, ◌++◌, arith}
use ntrt.Bintree.{
  get_rightest, Bintreenode, leaf, node, Bintree, bintree_get_refnum, bintree_get_top_data,
  bintree_reset,
}
use ntrt.Bintree.Change.{
  search_value, only_link, bintree_insert_data, bintree_delete_value, bintree_pop_top_data,
  bintree_pop_bottom_data,
}
use ntrt.Bintree.Nodes.{nodes}
use ntrt.Bintree.Valid.{Valid}
use ntrt.Bintree.Delete.{Deleted}
use ntrt.Bintree.Deletion.{bintree_delete_value_lem}
use ntrt.Bintree.Miscount.{miscounted}
use ntrt.Prelude.Word.{sub32}
use ntrt.Bintree.Insertion.{Inserted}
use ntrt.Bintree.Growth.{bintree_insert_data_lem}
use ntrt.Bintree.Pops.{Popped, pop_data_lem}
use ntrt.Bintree.Reset.{bintree_reset_lem}
use ntrt.Bintree.Ruin.{NotNull}

abbrev itself : ℕ → ℕ
itself n = n

abbrev one_twice : Bintreenode ℕ
one_twice = record { address = 11; datum = 1; ref = 2 }

abbrev two_once : Bintreenode ℕ
two_once = record { address = 10; datum = 2; ref = 1 }

abbrev three_once : Bintreenode ℕ
three_once = record { address = 12; datum = 3; ref = 1 }

-- The numbers 2, 1, 1 and 3.
abbrev small_tree : Bintree ℕ
small_tree = record {
  root = node (node leaf one_twice leaf) two_once (node leaf three_once leaf);
  bottom = some 11;
  top = some 12;
  node_counter = 3;
  duplicate_counter = 1;
  notified = none;
}

abbrev small_nodes : List (Bintreenode ℕ)
small_nodes = one_twice ∷ two_once ∷ three_once ∷ []

small_tree-Valid : Valid itself small_tree small_nodes
unfolding nodes
small_tree-Valid = record {
  holds = refl;
  sorted = ((omega arith, (omega arith, tt)), ((omega arith, tt), (tt, tt)));
  distinct = (((λ e. omega arith), ((λ e. omega arith), tt)), (((λ e. omega arith), tt), (tt, tt)));
  ends = record { top = refl; bottom = refl };
  counted = refl;
}

bintree_delete_value_lem_example :
    Deleted itself (bintree_delete_value itself small_tree 2) 2 small_nodes
bintree_delete_value_lem_example =
    bintree_delete_value_lem itself small_tree small_nodes 2 small_tree-Valid

bintree_insert_data_lem_example :
    Inserted itself (bintree_insert_data itself small_tree 13 4) 4 1 small_nodes
bintree_insert_data_lem_example =
    bintree_insert_data_lem itself small_tree small_nodes 13 4 small_tree-Valid
      ((λ e. omega arith), ((λ e. omega arith), ((λ e. omega arith), tt)))

pop_data_lem_example :
    Popped itself (bintree_pop_top_data itself small_tree) (some 3) small_nodes
    × Popped itself (bintree_pop_bottom_data itself small_tree) (some 1) small_nodes
pop_data_lem_example = pop_data_lem itself small_tree small_nodes small_tree-Valid

bintree_reset_lem_example :
    ((bintree_reset 0 small_tree ≡ none) × (32 < 3))
    ⊎ ((next : Bintree ℕ) × (bintree_reset 0 small_tree ≡ some next)
        × NotNull next.top
        × (bintree_get_top_data next ≡ none))
bintree_reset_lem_example =
    bintree_reset_lem small_tree (node leaf one_twice leaf) two_once (node leaf three_once leaf) 0
      refl (12, refl)

-- The greatest node has a left link, and the recycle puffer is full: the reset reads the node behind
-- that link after it has freed it.
reset_run :
    bintree_reset 32
      (record small_tree { root = node (node leaf one_twice leaf) two_once leaf; top = some 10 })
    ≡ none
unfolding bintree_reset
reset_run = refl

-- Four numbers are counted before the deletion of the 2, and only two after it: the 3 and one of the
-- two 1s.
refnum_before : bintree_get_refnum small_tree ≡ 4
unfolding bintree_get_refnum
refnum_before = refl

refnum_of : Option (Bintree ℕ) → ℕ
unfolding bintree_get_refnum
refnum_of none = 0
refnum_of (some t) = bintree_get_refnum t

refnum_after : refnum_of (bintree_delete_value itself small_tree 2) ≡ 2
unfolding bintree_delete_value refnum_of
refnum_after = refl

small_search :
    search_value itself small_tree.root 2
    ≡ some (node leaf one_twice leaf, two_once, node leaf three_once leaf)
unfolding search_value
small_search = refl

small_links : only_link (node leaf one_twice leaf) (node leaf three_once leaf) ≡ none
unfolding only_link
small_links = refl

small_rightest : get_rightest (node leaf one_twice leaf) ≡ some one_twice
unfolding get_rightest
small_rightest = refl

miscounted_example :
    (next : Bintree ℕ) × (bintree_delete_value itself small_tree 2 ≡ some next)
    × (next.node_counter ≡ 2)
    × (next.duplicate_counter ≡ sub32 1 (sub32 2 1))
    × ((xs : List (Bintreenode ℕ)) × (ys : List (Bintreenode ℕ)) × (small_nodes
          ≡ xs ++ one_twice ∷ (two_once ∷ ys))
        × (nodes next.root ≡ xs ++ record two_once { datum = 1; ref = 2 } ∷ ys))
miscounted_example =
    miscounted itself small_tree small_nodes 2 (node leaf one_twice leaf) two_once
      (node leaf three_once leaf) one_twice small_tree-Valid small_search refl small_links
      small_rightest
