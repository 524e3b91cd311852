-- ===== src/Feature/Plain.antt =====
-- lib/lib_features.c, the features of IP, TCP and UDP packets as such.
use ntrt.Prelude.{not, ◌==◌, if◌then◌else◌}
use ntrt.Prelude.Word.{ByteOrder, ntohs}
use ntrt.Sniff.{sniff_is_ip_packet, sniff_is_udp_packet, sniff_is_tcp_packet}
use ntrt.Feature.Monad.{pure, ◌>>=◌, call, field, Evaluator}

module _ (o : ByteOrder) where
  unfoldable pub ip_packets : Evaluator
  ip_packets d = do ip ← call (sniff_is_ip_packet o); pure (if ip then 1 else 0, d)

  unfoldable pub ip_packets_by_src : Evaluator
  ip_packets_by_src d = do
    ip ← call (sniff_is_ip_packet o)
    ip_src ← field (λ s. s.ip_src)
    pure (if not ip then 0 else if ip_src == d.src_ipv4 then 1 else 0, d)

  unfoldable pub ip_bytes : Evaluator
  ip_bytes d = do
    ip ← call (sniff_is_ip_packet o)
    ip_len ← field (λ s. s.ip_len)
    pure (if not ip then 0 else ntohs o ip_len, d)

  unfoldable pub tcp_packets : Evaluator
  tcp_packets d = do tcp ← call (sniff_is_tcp_packet o); pure (if tcp then 1 else 0, d)

  unfoldable pub tcp_bytes : Evaluator
  tcp_bytes d = do
    tcp ← call (sniff_is_tcp_packet o)
    ip_len ← field (λ s. s.ip_len)
    pure (if not tcp then 0 else ntohs o ip_len, d)

  unfoldable pub udp_packets : Evaluator
  udp_packets d = do udp ← call (sniff_is_udp_packet o); pure (if udp then 1 else 0, d)

  unfoldable pub udp_bytes : Evaluator
  udp_bytes d = do
    udp ← call (sniff_is_udp_packet o)
    ip_len ← field (λ s. s.ip_len)
    pure (if not udp then 0 else ntohs o ip_len, d)
