-- ===== src/Feature/Counts.antt =====
-- Every feature that the program installs counts what the table of meanings says.
use ntrt.Prelude.{ℕ}
use ntrt.Prelude.Word.{ByteOrder}
use ntrt.Sniff.{Sniff}
use ntrt.Sniff.Packet.{IsBytes}
use ntrt.Sniff.Memo.{IsValid}
use ntrt.Feature.Monad.{Container}
use ntrt.Feature.PlainCounts.{
  ip_packets_lem, ip_packets_by_src_lem, ip_bytes_lem, tcp_packets_lem, tcp_bytes_lem,
  udp_packets_lem, udp_bytes_lem, src_udp_packets_lem, src_udp_bytes_lem, src_tcp_packets_lem,
  src_tcp_bytes_lem, dst_udp_packets_lem, dst_udp_bytes_lem, dst_tcp_packets_lem, dst_tcp_bytes_lem,
}
use ntrt.Feature.MediaCounts.{
  rtp_packets_lem, rtp_bytes_lem, lost_rtp_packets_lem, lost_rtp_frames_lem, src_rtp_packets_lem,
  src_rtp_bytes_lem, src_lost_rtp_packets_lem, src_lost_rtp_frames_lem, dst_rtp_packets_lem,
  dst_rtp_bytes_lem, dst_lost_rtp_packets_lem, dst_lost_rtp_frames_lem,
}
use ntrt.Feature.Table.{
  Feature, evaluator, ip_packets, ip_packets_by_src, ip_bytes, tcp_packets, tcp_bytes, udp_packets,
  udp_bytes, rtp_packets, rtp_bytes, lost_rtp_packets, lost_rtp_frames, src_udp_packets,
  src_udp_bytes, src_tcp_packets, src_tcp_bytes, src_rtp_packets, src_rtp_bytes,
  src_lost_rtp_packets, src_lost_rtp_frames, dst_udp_packets, dst_udp_bytes, dst_tcp_packets,
  dst_tcp_bytes, dst_rtp_packets, dst_rtp_bytes, dst_lost_rtp_packets, dst_lost_rtp_frames,
}
use ntrt.Feature.Spec.{Counts, counted, meaning}

-- On every packet, and whatever was asked of its sniff before, the evaluator of a feature ends
-- without a fault and counts what the feature means: the packet if it is of the right protocol,
-- end and payload type, as one packet, as its IP length, or by its sequence number. The memo of the
-- sniff stays true, so the next feature may use it.
pub evaluator_lem :
    (f : Feature) (o : ByteOrder) (m : ℕ → ℕ) (bytes : IsBytes m) (s : Sniff) (v : IsValid o m s)
    (d : Container)
    → Counts o m (evaluator o f d s) (counted o (meaning f) m d)
unfolding evaluator
evaluator_lem ip_packets o m bytes s v d = ip_packets_lem o m bytes s v d
evaluator_lem ip_packets_by_src o m bytes s v d = ip_packets_by_src_lem o m bytes s v d
evaluator_lem ip_bytes o m bytes s v d = ip_bytes_lem o m bytes s v d
evaluator_lem tcp_packets o m bytes s v d = tcp_packets_lem o m bytes s v d
evaluator_lem tcp_bytes o m bytes s v d = tcp_bytes_lem o m bytes s v d
evaluator_lem udp_packets o m bytes s v d = udp_packets_lem o m bytes s v d
evaluator_lem udp_bytes o m bytes s v d = udp_bytes_lem o m bytes s v d
evaluator_lem rtp_packets o m bytes s v d = rtp_packets_lem o m bytes s v d
evaluator_lem rtp_bytes o m bytes s v d = rtp_bytes_lem o m bytes s v d
evaluator_lem lost_rtp_packets o m bytes s v d = lost_rtp_packets_lem o m bytes s v d
evaluator_lem lost_rtp_frames o m bytes s v d = lost_rtp_frames_lem o m bytes s v d
evaluator_lem src_udp_packets o m bytes s v d = src_udp_packets_lem o m bytes s v d
evaluator_lem src_udp_bytes o m bytes s v d = src_udp_bytes_lem o m bytes s v d
evaluator_lem src_tcp_packets o m bytes s v d = src_tcp_packets_lem o m bytes s v d
evaluator_lem src_tcp_bytes o m bytes s v d = src_tcp_bytes_lem o m bytes s v d
evaluator_lem src_rtp_packets o m bytes s v d = src_rtp_packets_lem o m bytes s v d
evaluator_lem src_rtp_bytes o m bytes s v d = src_rtp_bytes_lem o m bytes s v d
evaluator_lem src_lost_rtp_packets o m bytes s v d = src_lost_rtp_packets_lem o m bytes s v d
evaluator_lem src_lost_rtp_frames o m bytes s v d = src_lost_rtp_frames_lem o m bytes s v d
evaluator_lem dst_udp_packets o m bytes s v d = dst_udp_packets_lem o m bytes s v d
evaluator_lem dst_udp_bytes o m bytes s v d = dst_udp_bytes_lem o m bytes s v d
evaluator_lem dst_tcp_packets o m bytes s v d = dst_tcp_packets_lem o m bytes s v d
evaluator_lem dst_tcp_bytes o m bytes s v d = dst_tcp_bytes_lem o m bytes s v d
evaluator_lem dst_rtp_packets o m bytes s v d = dst_rtp_packets_lem o m bytes s v d
evaluator_lem dst_rtp_bytes o m bytes s v d = dst_rtp_bytes_lem o m bytes s v d
evaluator_lem dst_lost_rtp_packets o m bytes s v d = dst_lost_rtp_packets_lem o m bytes s v d
evaluator_lem dst_lost_rtp_frames o m bytes s v d = dst_lost_rtp_frames_lem o m bytes s v d
