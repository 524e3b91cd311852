-- ===== src/Puffer.antt =====
-- lib/lib_puffers.c, the ring puffer `datapuffer_t` of pointers.
-- A slot is `none` for NULL. An index out of range, which the source does not check, reads `none`
-- and writes nothing; no puffer that satisfies `Holds.Holds` uses one.
pub mod Holds
pub mod Vacant
mod Tests
use ntrt.Prelude.{
  ℕ, zero, suc, ◌+◌, ◌-◌, Bool, Option, none, some, List, [], ◌∷◌, leb, ◌==◌, if◌then◌else◌, get_or,
  set, replicate,
}

-- `datapuffer_t`; its field `read` is the first part of what `read` returns.
pub record Puffer {ℓ} (A : Type ℓ) : Type ℓ where
  pub items : List (Option A)
  pub abs_length : ℕ
  pub start : ℕ
  pub end : ℕ
  pub count : ℕ

module _ {ℓ} {A : Type ℓ} where
  unfoldable pub ctor : ℕ → Puffer A
  ctor size = record {
    items = replicate size none;
    abs_length = size;
    start = 0;
    end = 0;
    count = 0;
  }

  unfoldable pub write : Puffer A → A → Puffer A
  write p item = record p {
    items = set p.items p.end (some item);
    end = if leb p.abs_length (p.end + 1) then 0 else p.end + 1;
    count = p.count + 1;
  }

  unfoldable pub read : Puffer A → Option A × Puffer A
  read p = (
    get_or p.items p.start none,
    record p {
      items = set p.items p.start none;
      start = if leb p.abs_length (p.start + 1) then 0 else p.start + 1;
      count = p.count - 1;
    },
  )

  unfoldable pub peek_first : Puffer A → Option A
  peek_first p = get_or p.items p.start none

  unfoldable pub read_capacity : Puffer A → ℕ
  read_capacity p = p.count

  unfoldable pub write_capacity : Puffer A → ℕ
  write_capacity p = p.abs_length - p.count

  unfoldable pub is_full : Puffer A → Bool
  is_full p = p.count == p.abs_length

  unfoldable pub is_empty : Puffer A → Bool
  is_empty p = p.count == 0

  -- The loop of `datapuffer_clear`, `c` rounds: the items handed to the destructor, in order.
  unfoldable pub clear_loop : ℕ → Puffer A → List (Option A) × Puffer A
  clear_loop zero p = ([], p)
  clear_loop (suc c) p =
      let (item, p') = read p in let (rest, q) = clear_loop c p' in (item ∷ rest, q)

  unfoldable pub clear : Puffer A → List (Option A) × Puffer A
  unfolding clear_loop read_capacity
  clear p = clear_loop (read_capacity p) p
