-- ===== src/Feature/MediaCounts.antt =====
-- The RTP features count what they mean, on every packet, and never read through a NULL payload.
use ntrt.Prelude.{ℕ, ◌+◌, ◌%◌, ◌≡◌, true, ◌||◌, some, arith}
use ntrt.Prelude.Word.{ByteOrder, load16, load32}
use ntrt.Sniff.{Sniff, is_udp_or_tcp, sniff_get_payload}
use ntrt.Sniff.Packet.{IsBytes, is_udp, is_tcp, payload_at, be16, be32}
use ntrt.Sniff.Memo.{IsValid}
use ntrt.Sniff.Queries.{
  is_udp_or_tcp_lem, is_udp_or_tcp-Carried, get_payload_lem, get_payload-Carried,
}
use ntrt.Feature.Monad.{Container, RtpHeader}
use ntrt.Feature.Media.{rtp_header, rtp_packets, rtp_bytes, lost_rtp_packets, lost_rtp_frames}
use ntrt.Feature.Src.{src_rtp_packets, src_rtp_bytes, src_lost_rtp_packets, src_lost_rtp_frames}
use ntrt.Feature.Dst.{dst_rtp_packets, dst_rtp_bytes, dst_lost_rtp_packets, dst_lost_rtp_frames}
use ntrt.Feature.Loads.{length_lem, src_port_lem, dst_port_lem, seq_lem, ts_lem}
use ntrt.Feature.Loss.{count_lost_packets_lem, count_lost_frames_lem}
use ntrt.Feature.Table.{Feature}
use ntrt.Feature.Spec.{Counts, counted, meaning}

-- The header that a load through the payload gives.
abbrev header_at : ByteOrder → (ℕ → ℕ) → RtpHeader
header_at o m =
    let at = payload_at m in
    record {
      pt = m (at + 1) % 128;
      seq_num = load16 o (m (at + 2)) (m (at + 3));
      ts = load32 o (m (at + 4)) (m (at + 5)) (m (at + 6)) (m (at + 7));
    }

module _ (o : ByteOrder) (m : ℕ → ℕ) where
  rtp_header_lem :
      (s : Sniff)
      → IsValid o m s
      → (is_udp m || is_tcp m) ≡ true
      → rtp_header o s ≡ some (header_at o m, (sniff_get_payload o s).1)
  unfolding rtp_header
  rtp_header_lem s v e = ground (arith, get_payload_lem o m s v)

module _ (o : ByteOrder) (m : ℕ → ℕ) (bytes : IsBytes m) (s : Sniff) (v : IsValid o m s)
    (d : Container) where
  valid : IsValid o m (is_udp_or_tcp o s).1
  valid = (is_udp_or_tcp_lem o m s v).1

  pub rtp_packets_lem : Counts o m (rtp_packets o d s) (counted o (meaning Feature.rtp_packets) m d)
  unfolding rtp_packets
  rtp_packets_lem = ground (
    arith,
    is_udp_or_tcp_lem o m s v,
    is_udp_or_tcp-Carried o m s v,
    rtp_header_lem o m (is_udp_or_tcp o s).1 valid,
    get_payload_lem o m (is_udp_or_tcp o s).1 valid,
  )

  pub rtp_bytes_lem : Counts o m (rtp_bytes o d s) (counted o (meaning Feature.rtp_bytes) m d)
  unfolding rtp_bytes
  rtp_bytes_lem = ground (
    arith,
    is_udp_or_tcp_lem o m s v,
    is_udp_or_tcp-Carried o m s v,
    rtp_header_lem o m (is_udp_or_tcp o s).1 valid,
    get_payload_lem o m (is_udp_or_tcp o s).1 valid,
    length_lem o m bytes,
    get_payload-Carried o m (is_udp_or_tcp o s).1 valid,
  )

  pub lost_rtp_packets_lem :
      Counts o m (lost_rtp_packets o d s) (counted o (meaning Feature.lost_rtp_packets) m d)
  unfolding lost_rtp_packets
  lost_rtp_packets_lem = ground (
    arith,
    is_udp_or_tcp_lem o m s v,
    is_udp_or_tcp-Carried o m s v,
    rtp_header_lem o m (is_udp_or_tcp o s).1 valid,
    get_payload_lem o m (is_udp_or_tcp o s).1 valid,
    seq_lem o m bytes,
    count_lost_packets_lem (be16 m (payload_at m + 2)) d,
  )

  pub lost_rtp_frames_lem :
      Counts o m (lost_rtp_frames o d s) (counted o (meaning Feature.lost_rtp_frames) m d)
  unfolding lost_rtp_frames
  lost_rtp_frames_lem = ground (
    arith,
    is_udp_or_tcp_lem o m s v,
    is_udp_or_tcp-Carried o m s v,
    rtp_header_lem o m (is_udp_or_tcp o s).1 valid,
    get_payload_lem o m (is_udp_or_tcp o s).1 valid,
    seq_lem o m bytes,
    count_lost_frames_lem (be16 m (payload_at m + 2)) (be32 m (payload_at m + 4)) d,
    ts_lem o m bytes,
  )

  pub src_rtp_packets_lem :
      Counts o m (src_rtp_packets o d s) (counted o (meaning Feature.src_rtp_packets) m d)
  unfolding src_rtp_packets
  src_rtp_packets_lem = ground (
    arith,
    is_udp_or_tcp_lem o m s v,
    is_udp_or_tcp-Carried o m s v,
    rtp_header_lem o m (is_udp_or_tcp o s).1 valid,
    get_payload_lem o m (is_udp_or_tcp o s).1 valid,
    src_port_lem o m bytes,
  )

  pub src_rtp_bytes_lem :
      Counts o m (src_rtp_bytes o d s) (counted o (meaning Feature.src_rtp_bytes) m d)
  unfolding src_rtp_bytes
  src_rtp_bytes_lem = ground (
    arith,
    is_udp_or_tcp_lem o m s v,
    is_udp_or_tcp-Carried o m s v,
    rtp_header_lem o m (is_udp_or_tcp o s).1 valid,
    get_payload_lem o m (is_udp_or_tcp o s).1 valid,
    length_lem o m bytes,
    get_payload-Carried o m (is_udp_or_tcp o s).1 valid,
    src_port_lem o m bytes,
  )

  pub src_lost_rtp_packets_lem :
      Counts o m (src_lost_rtp_packets o d s) (counted o (meaning Feature.src_lost_rtp_packets) m d)
  unfolding src_lost_rtp_packets
  src_lost_rtp_packets_lem = ground (
    arith,
    is_udp_or_tcp_lem o m s v,
    is_udp_or_tcp-Carried o m s v,
    rtp_header_lem o m (is_udp_or_tcp o s).1 valid,
    get_payload_lem o m (is_udp_or_tcp o s).1 valid,
    seq_lem o m bytes,
    count_lost_packets_lem (be16 m (payload_at m + 2)) d,
    src_port_lem o m bytes,
  )

  pub src_lost_rtp_frames_lem :
      Counts o m (src_lost_rtp_frames o d s) (counted o (meaning Feature.src_lost_rtp_frames) m d)
  unfolding src_lost_rtp_frames
  src_lost_rtp_frames_lem = ground (
    arith,
    is_udp_or_tcp_lem o m s v,
    is_udp_or_tcp-Carried o m s v,
    rtp_header_lem o m (is_udp_or_tcp o s).1 valid,
    get_payload_lem o m (is_udp_or_tcp o s).1 valid,
    seq_lem o m bytes,
    count_lost_frames_lem (be16 m (payload_at m + 2)) (be32 m (payload_at m + 4)) d,
    ts_lem o m bytes,
    src_port_lem o m bytes,
  )

  pub dst_rtp_packets_lem :
      Counts o m (dst_rtp_packets o d s) (counted o (meaning Feature.dst_rtp_packets) m d)
  unfolding dst_rtp_packets
  dst_rtp_packets_lem = ground (
    arith,
    is_udp_or_tcp_lem o m s v,
    is_udp_or_tcp-Carried o m s v,
    rtp_header_lem o m (is_udp_or_tcp o s).1 valid,
    get_payload_lem o m (is_udp_or_tcp o s).1 valid,
    dst_port_lem o m bytes,
  )

  pub dst_rtp_bytes_lem :
      Counts o m (dst_rtp_bytes o d s) (counted o (meaning Feature.dst_rtp_bytes) m d)
  unfolding dst_rtp_bytes
  dst_rtp_bytes_lem = ground (
    arith,
    is_udp_or_tcp_lem o m s v,
    is_udp_or_tcp-Carried o m s v,
    rtp_header_lem o m (is_udp_or_tcp o s).1 valid,
    get_payload_lem o m (is_udp_or_tcp o s).1 valid,
    length_lem o m bytes,
    get_payload-Carried o m (is_udp_or_tcp o s).1 valid,
    dst_port_lem o m bytes,
  )

  pub dst_lost_rtp_packets_lem :
      Counts o m (dst_lost_rtp_packets o d s) (counted o (meaning Feature.dst_lost_rtp_packets) m d)
  unfolding dst_lost_rtp_packets
  dst_lost_rtp_packets_lem = ground (
    arith,
    is_udp_or_tcp_lem o m s v,
    is_udp_or_tcp-Carried o m s v,
    rtp_header_lem o m (is_udp_or_tcp o s).1 valid,
    get_payload_lem o m (is_udp_or_tcp o s).1 valid,
    seq_lem o m bytes,
    count_lost_packets_lem (be16 m (payload_at m + 2)) d,
    dst_port_lem o m bytes,
  )

  pub dst_lost_rtp_frames_lem :
      Counts o m (dst_lost_rtp_frames o d s) (counted o (meaning Feature.dst_lost_rtp_frames) m d)
  unfolding dst_lost_rtp_frames
  dst_lost_rtp_frames_lem = ground (
    arith,
    is_udp_or_tcp_lem o m s v,
    is_udp_or_tcp-Carried o m s v,
    rtp_header_lem o m (is_udp_or_tcp o s).1 valid,
    get_payload_lem o m (is_udp_or_tcp o s).1 valid,
    seq_lem o m bytes,
    count_lost_frames_lem (be16 m (payload_at m + 2)) (be32 m (payload_at m + 4)) d,
    ts_lem o m bytes,
    dst_port_lem o m bytes,
  )
