-- ===== src/Feature/Keeps.antt =====
-- No evaluator changes the listener that a sniff belongs to.
use ntrt.Prelude.{ℕ, ◌≡◌, arith, Option, none, some}
use ntrt.Prelude.Word.{ByteOrder}
use ntrt.Sniff.{
  Sniff, sniff_is_ip_packet, sniff_is_tcp_packet, sniff_is_udp_packet, is_udp_or_tcp,
  sniff_get_payload,
}
use ntrt.Feature.Monad.{Container}
use ntrt.Feature.Plain
use ntrt.Feature.Media
use ntrt.Feature.Media.{load_rtp, rtp_header}
use ntrt.Feature.Src
use ntrt.Feature.Dst
use ntrt.Feature.Table.{
  Feature, evaluator, ip_packets, ip_packets_by_src, ip_bytes, tcp_packets, tcp_bytes, udp_packets,
  udp_bytes, rtp_packets, rtp_bytes, lost_rtp_packets, lost_rtp_frames, src_udp_packets,
  src_udp_bytes, src_tcp_packets, src_tcp_bytes, src_rtp_packets, src_rtp_bytes,
  src_lost_rtp_packets, src_lost_rtp_frames, dst_udp_packets, dst_udp_bytes, dst_tcp_packets,
  dst_tcp_bytes, dst_rtp_packets, dst_rtp_bytes, dst_lost_rtp_packets, dst_lost_rtp_frames,
}

-- The sniff that an evaluation leaves, if it ends, belongs to the listener `id`.
abbrev pub Belongs : {A : Type 0} → ℕ → Option (A × Sniff) → Type 0
Belongs id none = Unit
Belongs id (some (x, s)) = s.listener_id ≡ id

module _ (o : ByteOrder) where
  ip_keeps : (s : Sniff) → (sniff_is_ip_packet o s).1.listener_id ≡ s.listener_id
  unfolding sniff_is_ip_packet
  ip_keeps s = ground arith

  tcp_keeps : (s : Sniff) → (sniff_is_tcp_packet o s).1.listener_id ≡ s.listener_id
  unfolding sniff_is_tcp_packet
  tcp_keeps s = ground (arith, ip_keeps s)

  udp_keeps : (s : Sniff) → (sniff_is_udp_packet o s).1.listener_id ≡ s.listener_id
  unfolding sniff_is_udp_packet
  udp_keeps s = ground (arith, ip_keeps s)

  either_keeps : (s : Sniff) → (is_udp_or_tcp o s).1.listener_id ≡ s.listener_id
  unfolding is_udp_or_tcp
  either_keeps s = ground (arith, udp_keeps s, tcp_keeps (sniff_is_udp_packet o s).1)

  payload_keeps : (s : Sniff) → (sniff_get_payload o s).1.listener_id ≡ s.listener_id
  unfolding sniff_get_payload
  payload_keeps s = ground (arith, ip_keeps s, either_keeps (sniff_is_ip_packet o s).1)

  module _ (d : Container) (s : Sniff) where
    ip_packets_keeps : Belongs s.listener_id (Plain.ip_packets o d s)
    unfolding Plain.ip_packets
    ip_packets_keeps = ground (arith, ip_keeps s)

    ip_packets_by_src_keeps : Belongs s.listener_id (Plain.ip_packets_by_src o d s)
    unfolding Plain.ip_packets_by_src
    ip_packets_by_src_keeps = ground (arith, ip_keeps s)

    ip_bytes_keeps : Belongs s.listener_id (Plain.ip_bytes o d s)
    unfolding Plain.ip_bytes
    ip_bytes_keeps = ground (arith, ip_keeps s)

    tcp_packets_keeps : Belongs s.listener_id (Plain.tcp_packets o d s)
    unfolding Plain.tcp_packets
    tcp_packets_keeps = ground (arith, tcp_keeps s)

    tcp_bytes_keeps : Belongs s.listener_id (Plain.tcp_bytes o d s)
    unfolding Plain.tcp_bytes
    tcp_bytes_keeps = ground (arith, tcp_keeps s)

    udp_packets_keeps : Belongs s.listener_id (Plain.udp_packets o d s)
    unfolding Plain.udp_packets
    udp_packets_keeps = ground (arith, udp_keeps s)

    udp_bytes_keeps : Belongs s.listener_id (Plain.udp_bytes o d s)
    unfolding Plain.udp_bytes
    udp_bytes_keeps = ground (arith, udp_keeps s)

    src_udp_packets_keeps : Belongs s.listener_id (Src.src_udp_packets o d s)
    unfolding Src.src_udp_packets
    src_udp_packets_keeps = ground (arith, udp_keeps s)

    src_udp_bytes_keeps : Belongs s.listener_id (Src.src_udp_bytes o d s)
    unfolding Src.src_udp_bytes
    src_udp_bytes_keeps = ground (arith, udp_keeps s)

    src_tcp_packets_keeps : Belongs s.listener_id (Src.src_tcp_packets o d s)
    unfolding Src.src_tcp_packets
    src_tcp_packets_keeps = ground (arith, tcp_keeps s)

    src_tcp_bytes_keeps : Belongs s.listener_id (Src.src_tcp_bytes o d s)
    unfolding Src.src_tcp_bytes
    src_tcp_bytes_keeps = ground (arith, tcp_keeps s)

    dst_udp_packets_keeps : Belongs s.listener_id (Dst.dst_udp_packets o d s)
    unfolding Dst.dst_udp_packets
    dst_udp_packets_keeps = ground (arith, udp_keeps s)

    dst_udp_bytes_keeps : Belongs s.listener_id (Dst.dst_udp_bytes o d s)
    unfolding Dst.dst_udp_bytes
    dst_udp_bytes_keeps = ground (arith, udp_keeps s)

    dst_tcp_packets_keeps : Belongs s.listener_id (Dst.dst_tcp_packets o d s)
    unfolding Dst.dst_tcp_packets
    dst_tcp_packets_keeps = ground (arith, tcp_keeps s)

    dst_tcp_bytes_keeps : Belongs s.listener_id (Dst.dst_tcp_bytes o d s)
    unfolding Dst.dst_tcp_bytes
    dst_tcp_bytes_keeps = ground (arith, tcp_keeps s)

    rtp_packets_keeps : Belongs s.listener_id (Media.rtp_packets o d s)
    unfolding Media.rtp_packets
    rtp_packets_keeps = ground (arith, either_keeps s, payload_keeps (is_udp_or_tcp o s).1)

    rtp_bytes_keeps : Belongs s.listener_id (Media.rtp_bytes o d s)
    unfolding Media.rtp_bytes
    rtp_bytes_keeps = ground (arith, either_keeps s, payload_keeps (is_udp_or_tcp o s).1)

    lost_rtp_packets_keeps : Belongs s.listener_id (Media.lost_rtp_packets o d s)
    unfolding Media.lost_rtp_packets
    lost_rtp_packets_keeps = ground (arith, either_keeps s, payload_keeps (is_udp_or_tcp o s).1)

    lost_rtp_frames_keeps : Belongs s.listener_id (Media.lost_rtp_frames o d s)
    unfolding Media.lost_rtp_frames
    lost_rtp_frames_keeps = ground (arith, either_keeps s, payload_keeps (is_udp_or_tcp o s).1)

    src_rtp_packets_keeps : Belongs s.listener_id (Src.src_rtp_packets o d s)
    unfolding Src.src_rtp_packets
    src_rtp_packets_keeps = ground (arith, either_keeps s, payload_keeps (is_udp_or_tcp o s).1)

    src_rtp_bytes_keeps : Belongs s.listener_id (Src.src_rtp_bytes o d s)
    unfolding Src.src_rtp_bytes
    src_rtp_bytes_keeps = ground (arith, either_keeps s, payload_keeps (is_udp_or_tcp o s).1)

    src_lost_rtp_packets_keeps : Belongs s.listener_id (Src.src_lost_rtp_packets o d s)
    unfolding Src.src_lost_rtp_packets
    src_lost_rtp_packets_keeps = ground (arith, either_keeps s, payload_keeps (is_udp_or_tcp o s).1)

    src_lost_rtp_frames_keeps : Belongs s.listener_id (Src.src_lost_rtp_frames o d s)
    unfolding Src.src_lost_rtp_frames
    src_lost_rtp_frames_keeps = ground (arith, either_keeps s, payload_keeps (is_udp_or_tcp o s).1)

    dst_rtp_packets_keeps : Belongs s.listener_id (Dst.dst_rtp_packets o d s)
    unfolding Dst.dst_rtp_packets
    dst_rtp_packets_keeps = ground (arith, either_keeps s, payload_keeps (is_udp_or_tcp o s).1)

    dst_rtp_bytes_keeps : Belongs s.listener_id (Dst.dst_rtp_bytes o d s)
    unfolding Dst.dst_rtp_bytes
    dst_rtp_bytes_keeps = ground (arith, either_keeps s, payload_keeps (is_udp_or_tcp o s).1)

    dst_lost_rtp_packets_keeps : Belongs s.listener_id (Dst.dst_lost_rtp_packets o d s)
    unfolding Dst.dst_lost_rtp_packets
    dst_lost_rtp_packets_keeps = ground (arith, either_keeps s, payload_keeps (is_udp_or_tcp o s).1)

    dst_lost_rtp_frames_keeps : Belongs s.listener_id (Dst.dst_lost_rtp_frames o d s)
    unfolding Dst.dst_lost_rtp_frames
    dst_lost_rtp_frames_keeps = ground (arith, either_keeps s, payload_keeps (is_udp_or_tcp o s).1)

  pub evaluator_keeps :
      (f : Feature) (d : Container) (s : Sniff) → Belongs s.listener_id (evaluator o f d s)
  unfolding evaluator
  evaluator_keeps ip_packets d s = ip_packets_keeps d s
  evaluator_keeps ip_packets_by_src d s = ip_packets_by_src_keeps d s
  evaluator_keeps ip_bytes d s = ip_bytes_keeps d s
  evaluator_keeps tcp_packets d s = tcp_packets_keeps d s
  evaluator_keeps tcp_bytes d s = tcp_bytes_keeps d s
  evaluator_keeps udp_packets d s = udp_packets_keeps d s
  evaluator_keeps udp_bytes d s = udp_bytes_keeps d s
  evaluator_keeps rtp_packets d s = rtp_packets_keeps d s
  evaluator_keeps rtp_bytes d s = rtp_bytes_keeps d s
  evaluator_keeps lost_rtp_packets d s = lost_rtp_packets_keeps d s
  evaluator_keeps lost_rtp_frames d s = lost_rtp_frames_keeps d s
  evaluator_keeps src_udp_packets d s = src_udp_packets_keeps d s
  evaluator_keeps src_udp_bytes d s = src_udp_bytes_keeps d s
  evaluator_keeps src_tcp_packets d s = src_tcp_packets_keeps d s
  evaluator_keeps src_tcp_bytes d s = src_tcp_bytes_keeps d s
  evaluator_keeps src_rtp_packets d s = src_rtp_packets_keeps d s
  evaluator_keeps src_rtp_bytes d s = src_rtp_bytes_keeps d s
  evaluator_keeps src_lost_rtp_packets d s = src_lost_rtp_packets_keeps d s
  evaluator_keeps src_lost_rtp_frames d s = src_lost_rtp_frames_keeps d s
  evaluator_keeps dst_udp_packets d s = dst_udp_packets_keeps d s
  evaluator_keeps dst_udp_bytes d s = dst_udp_bytes_keeps d s
  evaluator_keeps dst_tcp_packets d s = dst_tcp_packets_keeps d s
  evaluator_keeps dst_tcp_bytes d s = dst_tcp_bytes_keeps d s
  evaluator_keeps dst_rtp_packets d s = dst_rtp_packets_keeps d s
  evaluator_keeps dst_rtp_bytes d s = dst_rtp_bytes_keeps d s
  evaluator_keeps dst_lost_rtp_packets d s = dst_lost_rtp_packets_keeps d s
  evaluator_keeps dst_lost_rtp_frames d s = dst_lost_rtp_frames_keeps d s
