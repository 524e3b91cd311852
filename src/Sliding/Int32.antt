-- ===== src/Sliding/Int32.antt =====
-- lib/lib_puffers.c, the windows of `int32_t` with their storage, and lib/lib_swplugins.c, the
-- plugin that keeps their sum. An int32_t is its bit pattern, below 2^32, and wraps.
use ntrt.Prelude.{
  ℕ, ◌+◌, Option, none, some, List, [], ◌∷◌, ◌==◌, if◌then◌else◌, get_or, set, replicate, Bool,
  true, false, ◌||◌, leb, length,
}
use ntrt.Prelude.Word.{add32, sub32}
use ntrt.Clock.{Mtime}
use ntrt.Sliding.{
  Swplugin, SlidingWindow, slidingwindow_ctor, slidingwindow_add_data, slidingwindow_refresh,
  slidingwindow_clear, add_plugin,
}

-- The addresses of numbers: NULL, the parameter `item` of slidingwindow_add_int, and the cells of a
-- storage.
pub data Address : Type 0 where
  null item_address : Address
  cell : ℕ → Address

-- `swstorage_t` of `int32_t`.
pub record Swstorage : Type 0 where
  pub storage : List ℕ
  pub index : ℕ
  pub length : ℕ

-- `swint32summer`; the pipe changes the data that it is given.
pub record Swint32summer {ℓ} (O : Type ℓ) : Type ℓ where
  pub sum : ℕ
  pub pipe : Option (O → ℕ → O)
  pub pipe_data : O

-- The memory that a window of numbers works on, and whether an access was outside of it since its
-- storage was made.
pub record Memory {ℓ} (O : Type ℓ) : Type ℓ where
  pub item : ℕ
  pub swstorage : Swstorage
  pub summer : Swint32summer O
  pub faulted : Bool

-- The windows of numbers; their plugins' data is in the memory.
abbrev pub IntWindow {ℓ} : Type ℓ → Type ℓ
IntWindow O = SlidingWindow {0, 0, ℓ} (Unit {0}) Address (Memory O)

module _ {ℓ} {O : Type ℓ} where
  -- NULL, and a cell that the storage does not have: to access it is a fault.
  unfoldable pub is_outside : Memory O → Address → Bool
  is_outside m null = true
  is_outside m item_address = false
  is_outside m (cell i) = leb (length m.swstorage.storage) i

  -- `*(int32_t*)address`, where the access is no fault.
  unfoldable pub deref : Memory O → Address → ℕ
  deref m null = 0
  deref m item_address = m.item
  deref m (cell i) = get_or m.swstorage.storage i 0

  -- `_swstorage_store_int32`, of `SWSTORAGE_STOREFNC`.
  unfoldable pub swstorage_store_int32 : Memory O → Address → Memory O × Address
  unfolding deref is_outside
  swstorage_store_int32 m src =
      let s = m.swstorage in
      (
        record m {
          swstorage = record s {
            storage = set s.storage s.index (deref m src);
            index = if s.index + 1 == s.length then 0 else s.index + 1;
          };
          faulted = m.faulted || is_outside m src || is_outside m (cell s.index);
        },
        cell s.index,
      )

  -- `make_swstorage_int32`, of `SWSTORAGE_MAKER`. malloc(3) leaves the cells undefined: here 0.
  unfoldable pub make_swstorage_int32 :
      ℕ → Memory O → Memory O × (Memory O → Address → Memory O × Address)
  unfolding swstorage_store_int32
  make_swstorage_int32 num_limit m = (
    record m {
      swstorage = record {
        storage = replicate (num_limit + 1) 0;
        index = 0;
        length = num_limit + 1;
      };
      faulted = false;
    },
    swstorage_store_int32,
  )

  -- The end of the two pipes of a summer.
  unfoldable pub pipe_sum : Swint32summer O → Swint32summer O
  pipe_sum p = elim p.pipe [
    | none ↦ p
    | some pipe ↦ record p { pipe_data = pipe p.pipe_data p.sum }
  ]

  -- `_swint32sum_add_pipe` and `_swint32sum_rem_pipe`.
  unfoldable pub swint32sum_add_pipe : Unit {0} → Address → Memory O → Memory O
  unfolding deref is_outside pipe_sum add32
  swint32sum_add_pipe dataptr itemptr m = record m {
    summer = pipe_sum (record m.summer { sum = add32 m.summer.sum (deref m itemptr) });
    faulted = m.faulted || is_outside m itemptr;
  }

  unfoldable pub swint32sum_rem_pipe : Unit {0} → Address → Memory O → Memory O
  unfolding deref is_outside pipe_sum sub32
  swint32sum_rem_pipe dataptr itemptr m = record m {
    summer = pipe_sum (record m.summer { sum = sub32 m.summer.sum (deref m itemptr) });
    faulted = m.faulted || is_outside m itemptr;
  }

  -- `make_swint32_stater` and `_swint32summer_ctor`.
  abbrev pub swint32_stater : Swplugin {0, 0, ℓ} (Unit {0}) Address (Memory O)
  swint32_stater = record {
    rem_pipe = some swint32sum_rem_pipe;
    rem_data = tt;
    add_pipe = some swint32sum_add_pipe;
    add_data = tt;
  }

  unfoldable pub make_swint32_stater :
      Option (O → ℕ → O)
      → O
      → Memory O
      → Swplugin {0, 0, ℓ} (Unit {0}) Address (Memory O) × Memory O
  make_swint32_stater pipe pipe_data m =
      (swint32_stater, record m { summer = record { sum = 0; pipe = pipe; pipe_data = pipe_data } })

  -- `slidingwindow_int32_ctor`.
  unfoldable pub slidingwindow_int32_ctor : ℕ → ℕ → Memory O → IntWindow O × Memory O
  unfolding slidingwindow_ctor make_swstorage_int32
  slidingwindow_int32_ctor num_limit time_limit =
      slidingwindow_ctor num_limit time_limit (some make_swstorage_int32)

  -- `slidingwindow_add_int`, of `SLIDINGWINDOW_TYPE_ADDER`.
  unfoldable pub slidingwindow_add_int :
      (ℕ → Mtime) → IntWindow O → ℕ → Memory O → Option (IntWindow O × Memory O)
  unfolding slidingwindow_add_data
  slidingwindow_add_int now s v m =
      slidingwindow_add_data null now s item_address (record m { item = v })

  -- A window of numbers with a summer, as `slidingwindow_test` sets one up.
  unfoldable pub summed_window : ℕ → ℕ → Option (O → ℕ → O) → O → Memory O → IntWindow O × Memory O
  unfolding slidingwindow_int32_ctor make_swint32_stater add_plugin
  summed_window num_limit time_limit pipe pipe_data m =
      let (s, m') = slidingwindow_int32_ctor num_limit time_limit m in
      let (plugin, m'') = make_swint32_stater pipe pipe_data m' in (add_plugin s plugin, m'')

-- The calls of a window's user, each with its clock.
pub data Call : Type 0 where
  add : (ℕ → Mtime) → ℕ → Call
  refresh : (ℕ → Mtime) → Call
  clear : Call

module _ {ℓ} {O : Type ℓ} where
  unfoldable pub call : Call → IntWindow O → Memory O → Option (IntWindow O × Memory O)
  unfolding slidingwindow_add_int slidingwindow_refresh slidingwindow_clear
  call (add now v) s m = slidingwindow_add_int now s v m
  call (refresh now) s m = elim (slidingwindow_refresh null now s m) [
    | none ↦ none
    | some (k, s', m') ↦ some (s', m')
  ]
  call clear s m = slidingwindow_clear null s m

  unfoldable pub call_all : List Call → IntWindow O → Memory O → Option (IntWindow O × Memory O)
  unfolding call
  call_all [] s m = some (s, m)
  call_all (c ∷ calls) s m = elim (call c s m) [
    | none ↦ none
    | some (s', m') ↦ call_all calls s' m'
  ]
