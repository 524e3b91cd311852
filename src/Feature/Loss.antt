-- ===== src/Feature/Loss.antt =====
-- What the loss counters do on a sequence number, for each way that it can stand to the last one.
use ntrt.Prelude.{
  ℕ, ◌+◌, ◌-◌, ◌%◌, ◌^◌, ◌≤◌, ◌<◌, ◌≡◌, ◌≢◌, ◌⊎◌, ◌↔◌, refl, true, false, List, [], ◌∷◌, arith,
  length,
}
use ntrt.Feature.Monad.{Container}
use ntrt.Feature.Spec.{packets_between, frames_between}
use ntrt.Feature.Sequence.{count_lost_packets, count_lost_frames}

-- The two comparisons of the code come to the distance between the numbers.
pub count_lost_packets_lem :
    (seq : ℕ) (d : Container) → count_lost_packets seq d ≡ packets_between seq d
unfolding count_lost_packets packets_between
count_lost_packets_lem seq d = ground arith

pub count_lost_frames_lem :
    (seq ts : ℕ) (d : Container) → count_lost_frames seq ts d ≡ frames_between seq ts d
unfolding count_lost_frames frames_between
count_lost_frames_lem seq ts d = ground arith

-- How far forward, in a space of 2^16 numbers, `seq` is from `last`.
abbrev pub ahead : ℕ → ℕ → ℕ
ahead last seq = (seq + 65536 - last) % 65536

-- The first packet of a stream is no loss; it starts the count.
pub first_packet :
    (seq : ℕ) (d : Container)
    → d.seq_num_initialized ≡ false
    → count_lost_packets seq d ≡ (0, record d { seq_num = seq; seq_num_initialized = true })
unfolding count_lost_packets
first_packet seq d e = ground arith

module _ (d : Container) (started : d.seq_num_initialized ≡ true) where
  -- In order and without a wrap of the sequence number, the loss is the number of packets between
  -- the last one and this one, however far apart short of half the space or beyond it.
  pub forward_step :
      (seq : ℕ)
      → seq < 65536
      → d.seq_num < seq
      → seq - d.seq_num ≢ 32768
      → count_lost_packets seq d ≡ (seq - d.seq_num - 1, record d { seq_num = seq })
  unfolding count_lost_packets
  forward_step seq h l n = ground arith

  -- A repeated number, or one exactly half the space away, is no loss and changes nothing.
  pub ignored_step :
      (seq : ℕ)
      → (seq ≡ d.seq_num) ⊎ ((seq + 32768 ≡ d.seq_num) ⊎ (d.seq_num + 32768 ≡ seq))
      → count_lost_packets seq d ≡ (0, d)
  unfolding count_lost_packets
  ignored_step seq h = ground arith

  -- Once a number has been seen, one below the last, unless it is exactly 32768 below it, is not taken
  -- for a late packet: whether the sequence wrapped or the packet is out of order, the count goes back
  -- to it and adds two less than the distance ahead (as a uint32_t, which wraps where that distance is
  -- 1).
  pub backward_step :
      (seq : ℕ)
      → seq < d.seq_num
      → d.seq_num < 65536
      → d.seq_num - seq ≢ 32768
      → count_lost_packets seq d
        ≡ ((ahead d.seq_num seq + 2 ^ 32 - 2) % 2 ^ 32, record d { seq_num = seq })
  unfolding count_lost_packets
  backward_step seq h l n = ground arith

-- Numbers that ascend from `last`, below 2^16, none exactly half the space beyond the one before.
abbrev pub Ascends : ℕ → List ℕ → Type 0
Ascends last [] = last < 65536
Ascends last (seq ∷ seqs) = (last < seq) × (seq - last ≢ 32768) × Ascends seq seqs

abbrev pub last_of : ℕ → List ℕ → ℕ
last_of last [] = last
last_of last (seq ∷ seqs) = last_of seq seqs

-- The losses that a stream of sequence numbers adds up to, in one container.
pub total_lost : List ℕ → Container → ℕ × Container
total_lost [] d = (0, d)
total_lost (seq ∷ seqs) d =
    let (n, d') = count_lost_packets seq d in
    let (rest, d'') = total_lost seqs d' in (n + rest, d'')

Ascends-lt : (last : ℕ) (seqs : List ℕ) → Ascends last seqs → last < 65536
Ascends-lt last [] a = a
Ascends-lt last (seq ∷ seqs) a = omega (arith, Ascends-lt seq seqs a.2)

-- Once a number has been seen, along numbers that ascend below 2^16, none exactly 32768 beyond the
-- one before, the losses are exactly the numbers that were skipped: with the packets received they
-- make up the distance covered.
pub total_lost_lem :
    (seqs : List ℕ) (d : Container)
    → d.seq_num_initialized ≡ true
    → Ascends d.seq_num seqs
    → ((total_lost seqs d).0 + length seqs + d.seq_num ≡ last_of d.seq_num seqs)
      × ((total_lost seqs d).1 ≡ record d { seq_num = last_of d.seq_num seqs })
unfolding total_lost
total_lost_lem [] d e a = (omega arith, refl)
total_lost_lem (seq ∷ seqs) d e a = ground (
  arith,
  forward_step d e seq (Ascends-lt seq seqs a.2) a.0,
  total_lost_lem seqs (record d { seq_num = seq }) e a.2,
)

-- A frame counter adds at most one, and does so exactly if it has started, the distance is more than
-- one and the timestamp is new.
pub lost_frames_lem :
    (seq ts : ℕ) (d : Container)
    → seq < 65536
    → d.seq_num < 65536
    → d.seq_num_initialized ≡ true
    → d.seq_num < seq
    → seq - d.seq_num ≢ 32768
    → ((count_lost_frames seq ts d).0 ≤ 1)
      × (((count_lost_frames seq ts d).0 ≡ 1) ↔ ((d.seq_num + 1 < seq) × (ts ≢ d.last_timestamp)))
      × ((count_lost_frames seq ts d).1 ≡ record d { seq_num = seq; last_timestamp = ts })
unfolding count_lost_frames
lost_frames_lem seq ts d h l e lt ne = ground arith
