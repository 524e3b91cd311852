-- ===== src/Prelude/Word.antt =====
-- Unsigned machine words as native numbers that wrap, and multi-byte loads in either byte order.
use Prim.Native.Nat.{ℕ, ◌+◌, ◌-◌, ◌*◌, ◌/◌, ◌%◌, ◌^◌, ◌<◌}
use mathlib.Core.Path.{◌≡◌}
use native.Mathlib.Omega.{arith}

-- uint32_t addition and subtraction. `-` on ℕ stops at 0, so the modulus is added first.
unfoldable pub add32 : ℕ → ℕ → ℕ
add32 a b = (a + b) % 2 ^ 32

unfoldable pub sub32 : ℕ → ℕ → ℕ
sub32 a b = (a + 2 ^ 32 - b % 2 ^ 32) % 2 ^ 32

-- The order in which the host keeps the bytes of a word.
pub data ByteOrder : Type 0 where
  little big : ByteOrder

-- A u_short read through a pointer to the bytes `a`, `b`.
unfoldable pub load16 : ByteOrder → ℕ → ℕ → ℕ
load16 little a b = b * 256 + a
load16 big a b = a * 256 + b

-- A u_int read through a pointer to the bytes `a`, `b`, `c`, `d`.
unfoldable pub load32 : ByteOrder → ℕ → ℕ → ℕ → ℕ → ℕ
load32 little a b c d = ((d * 256 + c) * 256 + b) * 256 + a
load32 big a b c d = ((a * 256 + b) * 256 + c) * 256 + d

-- ntohs(3) and ntohl(3): the identity on a big-endian host, else the bytes are swapped.
unfoldable pub ntohs : ByteOrder → ℕ → ℕ
ntohs little x = x % 256 * 256 + x / 256 % 256
ntohs big x = x

unfoldable pub ntohl : ByteOrder → ℕ → ℕ
ntohl little x =
    ((x % 256 * 256 + x / 2 ^ 8 % 256) * 256 + x / 2 ^ 16 % 256) * 256 + x / 2 ^ 24 % 256
ntohl big x = x

-- Bytes in network order give the same value on every host.
pub ntohs-load16 :
    (o : ByteOrder) (a b : ℕ) → a < 256 → b < 256 → ntohs o (load16 o a b) ≡ a * 256 + b
unfolding ntohs load16
ntohs-load16 little a b ha hb = omega arith
ntohs-load16 big a b ha hb = omega arith

pub ntohl-load32 :
    (o : ByteOrder) (a b c d : ℕ)
    → a < 256
    → b < 256
    → c < 256
    → d < 256
    → ntohl o (load32 o a b c d) ≡ ((a * 256 + b) * 256 + c) * 256 + d
unfolding ntohl load32
ntohl-load32 little a b c d ha hb hc hd = omega arith
ntohl-load32 big a b c d ha hb hc hd = omega arith
