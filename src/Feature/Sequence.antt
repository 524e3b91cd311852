-- ===== src/Feature/Sequence.antt =====
-- lib/lib_features.c, the arithmetic on RTP sequence numbers and the two ways to count losses.
-- The C functions return u_short: -1 comes back as 65535.
use ntrt.Prelude.{ℕ, ◌+◌, ◌-◌, ◌%◌, ◌^◌, true, not, ◌&&◌, ltb, leb, ◌==◌, if◌then◌else◌}
use ntrt.Feature.Monad.{Container}

-- `_u_short_diff`; `~` of a u_short cast back to u_short is 65535 minus it.
unfoldable pub u_short_diff : ℕ → ℕ → ℕ
u_short_diff start end = if leb start end then end - start else 65535 - (start - end)

-- `_cmp_u_short`.
unfoldable pub cmp_u_short : ℕ → ℕ → ℕ
cmp_u_short x y =
    if x == y
    then 0
    else if ltb x y && ltb (y - x) 32768
    then 65535
    else if ltb y x && ltb 32768 (x - y)
    then 65535
    else if ltb x y && ltb 32768 (y - x)
    then 1
    else if ltb y x && ltb (x - y) 32768
    then 1
    else 0

-- The tail of `_lost_rtp_packets_evaluator`, from `rtph_seq_num` on; `diff - 1` is an int, which
-- the return converts to uint32_t.
unfoldable pub count_lost_packets : ℕ → Container → ℕ × Container
unfolding u_short_diff cmp_u_short
count_lost_packets seq d =
    if not d.seq_num_initialized
    then (0, record d { seq_num = seq; seq_num_initialized = true })
    else if leb (cmp_u_short seq d.seq_num) 0
    then (0, d)
    else ((u_short_diff d.seq_num seq + 2 ^ 32 - 1) % 2 ^ 32, record d { seq_num = seq })

-- The tail of `_lost_rtp_frames_evaluator`, from `rtph_seq_num` on.
unfoldable pub count_lost_frames : ℕ → ℕ → Container → ℕ × Container
unfolding u_short_diff cmp_u_short
count_lost_frames seq ts d =
    if not d.seq_num_initialized
    then (0, record d { seq_num = seq; seq_num_initialized = true })
    else if leb (cmp_u_short seq d.seq_num) 0
    then (0, d)
    else if ltb 1 (u_short_diff d.seq_num seq) && not (ts == d.last_timestamp)
    then (1, record d { seq_num = seq; last_timestamp = ts })
    else (0, record d { seq_num = seq; last_timestamp = ts })
