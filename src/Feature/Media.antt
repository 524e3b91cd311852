-- ===== src/Feature/Media.antt =====
-- lib/lib_features.c, the features of RTP packets on any port.
use ntrt.Prelude.{ℕ, Option, none, some, not, if◌then◌else◌}
use ntrt.Prelude.Word.{ByteOrder, ntohs, ntohl}
use ntrt.Prelude.Int.{eq_ℕ}
use ntrt.Sniff.{is_udp_or_tcp, sniff_get_payload, rtp_pt, rtp_seq, rtp_ts}
use ntrt.Feature.Monad.{M, pure, ◌>>=◌, call, field, Evaluator, RtpHeader}
use ntrt.Feature.Sequence.{count_lost_packets, count_lost_frames}

module _ (o : ByteOrder) where
  -- The loads through `rtph`; a NULL payload or packet is a fault.
  unfoldable pub load_rtp : Option (ℕ → ℕ) → Option ℕ → M RtpHeader
  load_rtp none _ s = none
  load_rtp (some m) none s = none
  load_rtp (some m) (some at) s =
      some (record { pt = rtp_pt o m at; seq_num = rtp_seq o m at; ts = rtp_ts o m at }, s)

  -- `rtph = (sniff_rtp_t *) sniff_get_payload(sniff)` and the reads that follow.
  unfoldable pub rtp_header : M RtpHeader
  unfolding load_rtp
  rtp_header = do
    payload ← call (sniff_get_payload o)
    packet ← field (λ s. s.packet)
    load_rtp packet payload

  unfoldable pub rtp_packets : Evaluator
  unfolding rtp_header
  rtp_packets d = do
    carried ← call (is_udp_or_tcp o)
    if not carried
        then pure (0, d)
        else do rtph ← rtp_header; pure (if not (eq_ℕ d.payload_type rtph.pt) then 0 else 1, d)

  unfoldable pub rtp_bytes : Evaluator
  unfolding rtp_header
  rtp_bytes d = do
    carried ← call (is_udp_or_tcp o)
    if not carried then pure (0, d) else do
      rtph ← rtp_header
      ip_len ← field (λ s. s.ip_len)
      pure (if not (eq_ℕ d.payload_type rtph.pt) then 0 else ntohs o ip_len, d)

  unfoldable pub lost_rtp_packets : Evaluator
  unfolding rtp_header count_lost_packets
  lost_rtp_packets d = do
    carried ← call (is_udp_or_tcp o)
    if not carried then pure (0, d) else do
      rtph ← rtp_header
      pure (
          if not (eq_ℕ d.payload_type rtph.pt)
          then (0, d)
          else count_lost_packets (ntohs o rtph.seq_num) d)

  unfoldable pub lost_rtp_frames : Evaluator
  unfolding rtp_header count_lost_frames
  lost_rtp_frames d = do
    carried ← call (is_udp_or_tcp o)
    if not carried then pure (0, d) else do
      rtph ← rtp_header
      pure (
          if not (eq_ℕ d.payload_type rtph.pt)
          then (0, d)
          else count_lost_frames (ntohs o rtph.seq_num) (ntohl o rtph.ts) d)
