-- ===== src/Feature/PlainCounts.antt =====
-- The features of IP, UDP and TCP packets count what they mean, on every packet.
use ntrt.Prelude.{ℕ, arith}
use ntrt.Prelude.Word.{ByteOrder}
use ntrt.Sniff.{Sniff}
use ntrt.Sniff.Packet.{IsBytes}
use ntrt.Sniff.Memo.{IsValid, is_ip_lem, is_udp_lem, is_tcp_lem}
use ntrt.Sniff.Queries.{is_ip-fields, is_udp-Carried, is_tcp-Carried}
use ntrt.Feature.Monad.{Container}
use ntrt.Feature.Plain.{
  ip_packets, ip_packets_by_src, ip_bytes, tcp_packets, tcp_bytes, udp_packets, udp_bytes,
}
use ntrt.Feature.Src.{src_udp_packets, src_udp_bytes, src_tcp_packets, src_tcp_bytes}
use ntrt.Feature.Dst.{dst_udp_packets, dst_udp_bytes, dst_tcp_packets, dst_tcp_bytes}
use ntrt.Feature.Table.{Feature}
use ntrt.Feature.Loads.{length_lem, src_port_lem, dst_port_lem}
use ntrt.Feature.Spec.{Counts, counted, meaning}

module _ (o : ByteOrder) (m : ℕ → ℕ) (bytes : IsBytes m) (s : Sniff) (v : IsValid o m s)
    (d : Container) where
  pub ip_packets_lem : Counts o m (ip_packets o d s) (counted o (meaning Feature.ip_packets) m d)
  unfolding ip_packets
  ip_packets_lem = ground (arith, is_ip_lem o m s v)

  pub ip_packets_by_src_lem :
      Counts o m (ip_packets_by_src o d s) (counted o (meaning Feature.ip_packets_by_src) m d)
  unfolding ip_packets_by_src
  ip_packets_by_src_lem = ground (arith, is_ip_lem o m s v, is_ip-fields o m s v)

  pub ip_bytes_lem : Counts o m (ip_bytes o d s) (counted o (meaning Feature.ip_bytes) m d)
  unfolding ip_bytes
  ip_bytes_lem = ground (arith, is_ip_lem o m s v, is_ip-fields o m s v, length_lem o m bytes)

  pub tcp_packets_lem : Counts o m (tcp_packets o d s) (counted o (meaning Feature.tcp_packets) m d)
  unfolding tcp_packets
  tcp_packets_lem = ground (arith, is_tcp_lem o m s v, is_tcp-Carried o m s v)

  pub tcp_bytes_lem : Counts o m (tcp_bytes o d s) (counted o (meaning Feature.tcp_bytes) m d)
  unfolding tcp_bytes
  tcp_bytes_lem = ground (arith, is_tcp_lem o m s v, is_tcp-Carried o m s v, length_lem o m bytes)

  pub udp_packets_lem : Counts o m (udp_packets o d s) (counted o (meaning Feature.udp_packets) m d)
  unfolding udp_packets
  udp_packets_lem = ground (arith, is_udp_lem o m s v, is_udp-Carried o m s v)

  pub udp_bytes_lem : Counts o m (udp_bytes o d s) (counted o (meaning Feature.udp_bytes) m d)
  unfolding udp_bytes
  udp_bytes_lem = ground (arith, is_udp_lem o m s v, is_udp-Carried o m s v, length_lem o m bytes)

  pub src_udp_packets_lem :
      Counts o m (src_udp_packets o d s) (counted o (meaning Feature.src_udp_packets) m d)
  unfolding src_udp_packets
  src_udp_packets_lem =
      ground (arith, is_udp_lem o m s v, is_udp-Carried o m s v, src_port_lem o m bytes)

  pub src_udp_bytes_lem :
      Counts o m (src_udp_bytes o d s) (counted o (meaning Feature.src_udp_bytes) m d)
  unfolding src_udp_bytes
  src_udp_bytes_lem = ground (
    arith,
    is_udp_lem o m s v,
    is_udp-Carried o m s v,
    length_lem o m bytes,
    src_port_lem o m bytes,
  )

  pub src_tcp_packets_lem :
      Counts o m (src_tcp_packets o d s) (counted o (meaning Feature.src_tcp_packets) m d)
  unfolding src_tcp_packets
  src_tcp_packets_lem =
      ground (arith, is_tcp_lem o m s v, is_tcp-Carried o m s v, src_port_lem o m bytes)

  pub src_tcp_bytes_lem :
      Counts o m (src_tcp_bytes o d s) (counted o (meaning Feature.src_tcp_bytes) m d)
  unfolding src_tcp_bytes
  src_tcp_bytes_lem = ground (
    arith,
    is_tcp_lem o m s v,
    is_tcp-Carried o m s v,
    length_lem o m bytes,
    src_port_lem o m bytes,
  )

  pub dst_udp_packets_lem :
      Counts o m (dst_udp_packets o d s) (counted o (meaning Feature.dst_udp_packets) m d)
  unfolding dst_udp_packets
  dst_udp_packets_lem =
      ground (arith, is_udp_lem o m s v, is_udp-Carried o m s v, dst_port_lem o m bytes)

  pub dst_udp_bytes_lem :
      Counts o m (dst_udp_bytes o d s) (counted o (meaning Feature.dst_udp_bytes) m d)
  unfolding dst_udp_bytes
  dst_udp_bytes_lem = ground (
    arith,
    is_udp_lem o m s v,
    is_udp-Carried o m s v,
    length_lem o m bytes,
    dst_port_lem o m bytes,
  )

  pub dst_tcp_packets_lem :
      Counts o m (dst_tcp_packets o d s) (counted o (meaning Feature.dst_tcp_packets) m d)
  unfolding dst_tcp_packets
  dst_tcp_packets_lem =
      ground (arith, is_tcp_lem o m s v, is_tcp-Carried o m s v, dst_port_lem o m bytes)

  pub dst_tcp_bytes_lem :
      Counts o m (dst_tcp_bytes o d s) (counted o (meaning Feature.dst_tcp_bytes) m d)
  unfolding dst_tcp_bytes
  dst_tcp_bytes_lem = ground (
    arith,
    is_tcp_lem o m s v,
    is_tcp-Carried o m s v,
    length_lem o m bytes,
    dst_port_lem o m bytes,
  )
