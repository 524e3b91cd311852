-- ===== src/Clock.antt =====
-- inc/inc_mtime.c, time stamps from gettimeofday(2) and their difference in milliseconds. A clock is
-- the list of its readings as a function: reading 0 is the next one. The source's doubles hold whole
-- numbers here, which they represent exactly below 2^53.
use ntrt.Prelude.{ℕ, ◌+◌, ◌*◌, ◌/◌, Bool, true, false, ltb}
use ntrt.Prelude.Int.{ℤ, pos, negsuc, sub_ℕ}

-- `mtime_t`, a struct timeval.
pub record Mtime : Type 0 where
  pub tv_sec : ℕ
  pub tv_usec : ℕ

-- The reading of a time stamp in milliseconds.
abbrev pub millis : Mtime → ℕ
millis t = t.tv_sec * 1000 + t.tv_usec / 1000

-- `diffmtime`.
unfoldable pub diffmtime : Mtime → Mtime → ℤ
diffmtime begin end = sub_ℕ (millis begin) (millis end)

-- `diffmtime_fromnow`, at the clock's reading `now`.
unfoldable pub diffmtime_fromnow : Mtime → Mtime → ℤ
unfolding diffmtime
diffmtime_fromnow now begin = diffmtime now begin

-- A C comparison `n < d` of an unsigned number and a difference.
abbrev pub ltb_ℤ : ℕ → ℤ → Bool
ltb_ℤ n (pos d) = ltb n d
ltb_ℤ n (negsuc d) = false

-- A C comparison `d < n` of a difference and an int.
abbrev pub ltb_int : ℤ → ℤ → Bool
ltb_int (pos d) (pos n) = ltb d n
ltb_int (pos d) (negsuc n) = false
ltb_int (negsuc d) (pos n) = true
ltb_int (negsuc d) (negsuc n) = ltb n d

-- A C comparison `d < n` of a difference and an unsigned number.
abbrev pub ltb_ℕ : ℤ → ℕ → Bool
ltb_ℕ (pos d) n = ltb d n
ltb_ℕ (negsuc d) n = true
