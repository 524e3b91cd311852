-- ===== src/Feature/Spec.antt =====
-- What each feature counts, as a table over the bytes of a packet: the README's list, but that the
-- features of losses count what lies between two sequence numbers, where the README has gaps.
use ntrt.Prelude.{
  ℕ, ◌+◌, ◌-◌, ◌%◌, ◌^◌, ltb, leb, Bool, true, ◌&&◌, ◌||◌, Option, none, some, ◌==◌, ◌≡◌,
  if◌then◌else◌,
}
use ntrt.Prelude.Int.{eq_ℕ}
use ntrt.Prelude.Word.{ByteOrder, load32}
use ntrt.Sniff.{Sniff}
use ntrt.Sniff.Packet.{
  is_ip, is_udp, is_tcp, be16, be32, total_length, src_port, dst_port, payload_at,
}
use ntrt.Sniff.Memo.{IsValid}
use ntrt.Feature.Monad.{Container}
use ntrt.Feature.Table.{
  Feature, ip_packets, ip_packets_by_src, ip_bytes, tcp_packets, tcp_bytes, udp_packets, udp_bytes,
  rtp_packets, rtp_bytes, lost_rtp_packets, lost_rtp_frames, src_udp_packets, src_udp_bytes,
  src_tcp_packets, src_tcp_bytes, src_rtp_packets, src_rtp_bytes, src_lost_rtp_packets,
  src_lost_rtp_frames, dst_udp_packets, dst_udp_bytes, dst_tcp_packets, dst_tcp_bytes,
  dst_rtp_packets, dst_rtp_bytes, dst_lost_rtp_packets, dst_lost_rtp_frames,
}

-- The packets that a feature looks at.
pub data Carrier : Type 0 where
  on_ip on_udp on_tcp on_media : Carrier

-- The end that it restricts.
pub data End : Type 0 where
  anywhere from_host from_port to_port : End

-- Whether it wants an RTP payload type.
pub data Typing : Type 0 where
  untyped typed : Typing

pub data Measure : Type 0 where
  packets bytes lost_packets lost_frames : Measure

pub record Meaning : Type 0 where
  pub carrier : Carrier
  pub end : End
  pub typing : Typing
  pub measure : Measure

abbrev means : Carrier → End → Typing → Measure → Meaning
means c e t m = record { carrier = c; end = e; typing = t; measure = m }

abbrev pub meaning : Feature → Meaning
meaning ip_packets = means on_ip anywhere untyped packets
meaning ip_packets_by_src = means on_ip from_host untyped packets
meaning ip_bytes = means on_ip anywhere untyped bytes
meaning tcp_packets = means on_tcp anywhere untyped packets
meaning tcp_bytes = means on_tcp anywhere untyped bytes
meaning udp_packets = means on_udp anywhere untyped packets
meaning udp_bytes = means on_udp anywhere untyped bytes
meaning rtp_packets = means on_media anywhere typed packets
meaning rtp_bytes = means on_media anywhere typed bytes
meaning lost_rtp_packets = means on_media anywhere typed lost_packets
meaning lost_rtp_frames = means on_media anywhere typed lost_frames
meaning src_udp_packets = means on_udp from_port untyped packets
meaning src_udp_bytes = means on_udp from_port untyped bytes
meaning src_tcp_packets = means on_tcp from_port untyped packets
meaning src_tcp_bytes = means on_tcp from_port untyped bytes
meaning src_rtp_packets = means on_media from_port typed packets
meaning src_rtp_bytes = means on_media from_port typed bytes
meaning src_lost_rtp_packets = means on_media from_port typed lost_packets
meaning src_lost_rtp_frames = means on_media from_port typed lost_frames
meaning dst_udp_packets = means on_udp to_port untyped packets
meaning dst_udp_bytes = means on_udp to_port untyped bytes
meaning dst_tcp_packets = means on_tcp to_port untyped packets
meaning dst_tcp_bytes = means on_tcp to_port untyped bytes
meaning dst_rtp_packets = means on_media to_port typed packets
meaning dst_rtp_bytes = means on_media to_port typed bytes
meaning dst_lost_rtp_packets = means on_media to_port typed lost_packets
meaning dst_lost_rtp_frames = means on_media to_port typed lost_frames

abbrev pub is_carried : Carrier → (ℕ → ℕ) → Bool
is_carried on_ip m = is_ip m
is_carried on_udp m = is_udp m
is_carried on_tcp m = is_tcp m
is_carried on_media m = is_udp m || is_tcp m

-- The address of an item is compared as the host loads it; ports are in network order.
abbrev pub is_end : ByteOrder → End → (ℕ → ℕ) → Container → Bool
is_end o anywhere m d = true
is_end o from_host m d = load32 o (m 26) (m 27) (m 28) (m 29) == d.src_ipv4
is_end o from_port m d = eq_ℕ d.port_num (src_port m)
is_end o to_port m d = eq_ℕ d.port_num (dst_port m)

abbrev pub is_typed : Typing → (ℕ → ℕ) → Container → Bool
is_typed untyped m d = true
is_typed typed m d = eq_ℕ d.payload_type (m (payload_at m + 1) % 128)

-- A sequence number says nothing of losses where it is the last one, or half of the 2^16 numbers
-- away from it.
unfoldable pub is_silent : ℕ → ℕ → Bool
is_silent last seq = seq == last || last + 32768 == seq || seq + 32768 == last

-- How far ahead of the last number one is, which is taken to be behind a wrap where it is less: that
-- distance is one short, as 65535 stands for the 2^16 numbers.
unfoldable pub distance : ℕ → ℕ → ℕ
distance last seq = if ltb last seq then seq - last else 65535 + seq - last

-- The packets between the last number and this one, as a uint32_t: none at a distance of 1, 2^32 - 1
-- at a distance of 0. The first packet starts the count.
unfoldable pub packets_between : ℕ → Container → ℕ × Container
unfolding is_silent distance
packets_between seq d =
    if d.seq_num_initialized
    then if is_silent d.seq_num seq
      then (0, d)
      else ((distance d.seq_num seq + 2 ^ 32 - 1) % 2 ^ 32, record d { seq_num = seq })
    else (0, record d { seq_num = seq; seq_num_initialized = true })

-- One frame is missing where packets are and the timestamp is new.
unfoldable pub frames_between : ℕ → ℕ → Container → ℕ × Container
unfolding is_silent distance
frames_between seq ts d =
    if d.seq_num_initialized
    then if is_silent d.seq_num seq then (0, d) else (
      if leb (distance d.seq_num seq) 1 || ts == d.last_timestamp then 0 else 1,
      record d { seq_num = seq; last_timestamp = ts },
    )
    else (0, record d { seq_num = seq; seq_num_initialized = true })

abbrev pub tally : Measure → (ℕ → ℕ) → Container → ℕ × Container
tally packets m d = (1, d)
tally bytes m d = (total_length m, d)
tally lost_packets m d = packets_between (be16 m (payload_at m + 2)) d
tally lost_frames m d = frames_between (be16 m (payload_at m + 2)) (be32 m (payload_at m + 4)) d

-- What a feature with this meaning counts for a packet.
abbrev pub counted : ByteOrder → Meaning → (ℕ → ℕ) → Container → ℕ × Container
counted o f m d =
    if is_carried f.carrier m && is_end o f.end m d && is_typed f.typing m d
    then tally f.measure m d
    else (0, d)

-- An evaluation ends without a fault, counts `a`, and leaves the memo of the packet true.
abbrev pub Counts : ByteOrder → (ℕ → ℕ) → Option ((ℕ × Container) × Sniff) → ℕ × Container → Type 0
Counts o m none a = ⊥
Counts o m (some (x, s)) a = (x ≡ a) × IsValid o m s
