-- ===== src/Prelude/Int.antt =====
-- Signed integers over the native numbers: what the source keeps in an `int32_t` that can be negative.
use Prim.Native.Nat.{ℕ, ◌-◌}
use mathlib.Core.Bool.{Bool, false}
use ntrt.Prelude.Tests.{leb, if◌then◌else◌, ◌==◌}

-- `negsuc n` is -(n + 1).
pub data ℤ : Type 0 where
  pos : ℕ → ℤ
  negsuc : ℕ → ℤ

-- a - b, as an integer.
abbrev pub sub_ℕ : ℕ → ℕ → ℤ
sub_ℕ a b = if leb b a then pos (a - b) else negsuc (b - a - 1)

-- A signed integer compared with an unsigned value of a smaller type.
abbrev pub eq_ℕ : ℤ → ℕ → Bool
eq_ℕ (pos n) m = n == m
eq_ℕ (negsuc _) m = false
