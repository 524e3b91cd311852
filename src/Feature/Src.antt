-- ===== src/Feature/Src.antt =====
-- lib/lib_features.c, the features of packets sent from the container's port.
use ntrt.Prelude.{not, if◌then◌else◌}
use ntrt.Prelude.Word.{ByteOrder, ntohs, ntohl}
use ntrt.Prelude.Int.{eq_ℕ}
use ntrt.Sniff.{sniff_is_udp_packet, sniff_is_tcp_packet, is_udp_or_tcp}
use ntrt.Feature.Monad.{pure, ◌>>=◌, call, field, Evaluator}
use ntrt.Feature.Media.{rtp_header}
use ntrt.Feature.Sequence.{count_lost_packets, count_lost_frames}

module _ (o : ByteOrder) where
  unfoldable pub src_udp_packets : Evaluator
  src_udp_packets d = do
    udp ← call (sniff_is_udp_packet o)
    port_src ← field (λ s. s.port_src)
    pure (if not udp then 0 else if not (eq_ℕ d.port_num (ntohs o port_src)) then 0 else 1, d)

  unfoldable pub src_udp_bytes : Evaluator
  src_udp_bytes d = do
    udp ← call (sniff_is_udp_packet o)
    port_src ← field (λ s. s.port_src)
    ip_len ← field (λ s. s.ip_len)
    pure (
      if not udp then 0 else if not (eq_ℕ d.port_num (ntohs o port_src)) then 0 else ntohs o ip_len,
      d,
    )

  unfoldable pub src_tcp_packets : Evaluator
  src_tcp_packets d = do
    tcp ← call (sniff_is_tcp_packet o)
    port_src ← field (λ s. s.port_src)
    pure (if not tcp then 0 else if not (eq_ℕ d.port_num (ntohs o port_src)) then 0 else 1, d)

  unfoldable pub src_tcp_bytes : Evaluator
  src_tcp_bytes d = do
    tcp ← call (sniff_is_tcp_packet o)
    port_src ← field (λ s. s.port_src)
    ip_len ← field (λ s. s.ip_len)
    pure (
      if not tcp then 0 else if not (eq_ℕ d.port_num (ntohs o port_src)) then 0 else ntohs o ip_len,
      d,
    )

  unfoldable pub src_rtp_packets : Evaluator
  unfolding rtp_header
  src_rtp_packets d = do
    carried ← call (is_udp_or_tcp o)
    port_src ← field (λ s. s.port_src)
    if not carried
        then pure (0, d)
        else if not (eq_ℕ d.port_num (ntohs o port_src))
        then pure (0, d)
        else do rtph ← rtp_header o; pure (if not (eq_ℕ d.payload_type rtph.pt) then 0 else 1, d)

  unfoldable pub src_rtp_bytes : Evaluator
  unfolding rtp_header
  src_rtp_bytes d = do
    carried ← call (is_udp_or_tcp o)
    port_src ← field (λ s. s.port_src)
    if not carried
        then pure (0, d)
        else if not (eq_ℕ d.port_num (ntohs o port_src))
        then pure (0, d)
        else do
          rtph ← rtp_header o
          ip_len ← field (λ s. s.ip_len)
          pure (if not (eq_ℕ d.payload_type rtph.pt) then 0 else ntohs o ip_len, d)

  unfoldable pub src_lost_rtp_packets : Evaluator
  unfolding rtp_header count_lost_packets
  src_lost_rtp_packets d = do
    carried ← call (is_udp_or_tcp o)
    port_src ← field (λ s. s.port_src)
    if not carried
        then pure (0, d)
        else if not (eq_ℕ d.port_num (ntohs o port_src))
        then pure (0, d)
        else do
          rtph ← rtp_header o
          pure (
              if not (eq_ℕ d.payload_type rtph.pt)
              then (0, d)
              else count_lost_packets (ntohs o rtph.seq_num) d)

  unfoldable pub src_lost_rtp_frames : Evaluator
  unfolding rtp_header count_lost_frames
  src_lost_rtp_frames d = do
    carried ← call (is_udp_or_tcp o)
    port_src ← field (λ s. s.port_src)
    if not carried
        then pure (0, d)
        else if not (eq_ℕ d.port_num (ntohs o port_src))
        then pure (0, d)
        else do
          rtph ← rtp_header o
          pure (
              if not (eq_ℕ d.payload_type rtph.pt)
              then (0, d)
              else count_lost_frames (ntohs o rtph.seq_num) (ntohl o rtph.ts) d)
