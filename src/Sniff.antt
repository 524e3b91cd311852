-- ===== src/Sniff.antt =====
-- etc/etc_sniffex.c, the lazy dissection of a captured packet, over `sniff_t` of lib/lib_descs.h.
-- The packet is a view of memory from the packet pointer on: the source checks no read against the
-- captured length, so every offset has a value. `payload` is an offset from the packet pointer.
-- `sniff->header`, which these functions only copy, is left out.
pub mod Packet
pub mod Memo
pub mod Queries
pub mod Sample
mod Tests
use ntrt.Prelude.{
  ℕ, ◌+◌, ◌*◌, ◌/◌, ◌%◌, Bool, true, false, not, ◌||◌, Option, none, some, ltb, ◌==◌, if◌then◌else◌,
}
use ntrt.Prelude.Int.{ℤ, pos, sub_ℕ}
use ntrt.Prelude.Word.{ByteOrder, load16, load32, ntohs}

pub data ExtBool : Type 0 where
  undefined ext_false ext_true : ExtBool

pub record Sniff : Type 0 where
  pub packet : Option (ℕ → ℕ)
  pub is_ip_packet : ExtBool
  pub is_udp_packet : ExtBool
  pub is_tcp_packet : ExtBool
  pub ip_src : ℕ
  pub ip_dst : ℕ
  pub ip_p : ℕ
  pub ip_len : ℕ
  pub size_ip : ℕ
  pub port_src : ℕ
  pub port_dst : ℕ
  pub size_payload : ℤ
  pub payload : Option ℕ
  pub listener_id : ℕ
  pub rtp_analyzed : ExtBool
  pub rtp_payload_type : ℕ
  pub rtp_seq_num : ℕ

-- `_reset_sniff` of cmp/cmp_sniffer.c.
unfoldable pub reset_sniff : Sniff
reset_sniff = record {
  packet = none;
  is_ip_packet = undefined;
  is_udp_packet = undefined;
  is_tcp_packet = undefined;
  ip_src = 0;
  ip_dst = 0;
  ip_p = 0;
  ip_len = 0;
  size_ip = 0;
  port_src = 0;
  port_dst = 0;
  size_payload = pos 0;
  payload = none;
  listener_id = 0;
  rtp_analyzed = undefined;
  rtp_payload_type = 0;
  rtp_seq_num = 0;
}

-- The sniff that the loop of `_thr_listener_proc_main` hands out for a packet.
unfoldable pub setup_sniff : (ℕ → ℕ) → ℕ → Sniff
unfolding reset_sniff
setup_sniff m id = record reset_sniff { packet = some m; listener_id = id }

abbrev pub size_ethernet : ℕ
size_ethernet = 14

module _ (o : ByteOrder) where
  -- The part of `sniff_is_ip_packet` behind the memo.
  unfoldable pub parse_ip : (ℕ → ℕ) → Sniff → Bool × Sniff
  parse_ip m s =
      let size_ip : ℕ = m size_ethernet % 16 * 4 in
      if ltb size_ip 20 then (false, record s { is_ip_packet = ext_false }) else (
        true,
        record s {
          ip_src = load32 o (m 26) (m 27) (m 28) (m 29);
          ip_dst = load32 o (m 30) (m 31) (m 32) (m 33);
          ip_p = m 23;
          ip_len = load16 o (m 16) (m 17);
          size_ip = size_ip;
          is_ip_packet = ext_true;
        },
      )

  unfoldable pub memo_ip : (ℕ → ℕ) → ExtBool → Sniff → Bool × Sniff
  unfolding parse_ip
  memo_ip m undefined s = parse_ip m s
  memo_ip m ext_false s = (false, s)
  memo_ip m ext_true s = (true, s)

  unfoldable pub sniff_is_ip_packet : Sniff → Bool × Sniff
  unfolding memo_ip
  sniff_is_ip_packet s = elim s.packet [
    | none ↦ (false, record s { is_udp_packet = ext_false })
    | some m ↦ memo_ip m s.is_ip_packet s
  ]

  -- The part of `sniff_is_tcp_packet` behind the memo; IPPROTO_TCP is 6.
  unfoldable pub parse_tcp : (ℕ → ℕ) → Sniff → Bool × Sniff
  parse_tcp m s =
      let (ip, s') = sniff_is_ip_packet s in
      let at : ℕ = size_ethernet + s'.size_ip in
      let size_tcp : ℕ = m (at + 12) / 16 % 16 * 4 in
      if not ip || not (s'.ip_p == 6) || ltb size_tcp 20
      then (false, record s' { is_tcp_packet = ext_false })
      else (
        true,
        record s' {
          port_src = load16 o (m at) (m (at + 1));
          port_dst = load16 o (m (at + 2)) (m (at + 3));
          payload = some (at + size_tcp);
          size_payload = sub_ℕ (ntohs o s'.ip_len) (s'.size_ip + size_tcp);
          is_tcp_packet = ext_true;
        },
      )

  unfoldable pub memo_tcp : (ℕ → ℕ) → ExtBool → Sniff → Bool × Sniff
  unfolding parse_tcp
  memo_tcp m undefined s = parse_tcp m s
  memo_tcp m ext_false s = (false, s)
  memo_tcp m ext_true s = (true, s)

  unfoldable pub sniff_is_tcp_packet : Sniff → Bool × Sniff
  unfolding memo_tcp
  sniff_is_tcp_packet s = elim s.packet [
    | none ↦ (false, record s { is_udp_packet = ext_false })
    | some m ↦ memo_tcp m s.is_tcp_packet s
  ]

  -- The part of `sniff_is_udp_packet` behind the memo; IPPROTO_UDP is 17.
  unfoldable pub parse_udp : (ℕ → ℕ) → Sniff → Bool × Sniff
  parse_udp m s =
      let (ip, s') = sniff_is_ip_packet s in
      let at : ℕ = size_ethernet + s'.size_ip in
      if not ip || not (s'.ip_p == 17) then (false, record s' { is_udp_packet = ext_false }) else (
        true,
        record s' {
          port_src = load16 o (m at) (m (at + 1));
          port_dst = load16 o (m (at + 2)) (m (at + 3));
          payload = some (at + 8);
          size_payload = sub_ℕ (ntohs o s'.ip_len) (s'.size_ip + 8);
          is_udp_packet = ext_true;
        },
      )

  unfoldable pub memo_udp : (ℕ → ℕ) → ExtBool → Sniff → Bool × Sniff
  unfolding parse_udp
  memo_udp m undefined s = parse_udp m s
  memo_udp m ext_false s = (false, s)
  memo_udp m ext_true s = (true, s)

  unfoldable pub sniff_is_udp_packet : Sniff → Bool × Sniff
  unfolding memo_udp
  sniff_is_udp_packet s = elim s.packet [
    | none ↦ (false, record s { is_udp_packet = ext_false })
    | some m ↦ memo_udp m s.is_udp_packet s
  ]

  -- `sniff_is_udp_packet(sniff) || sniff_is_tcp_packet(sniff)`, the second only if the first fails.
  unfoldable pub is_udp_or_tcp : Sniff → Bool × Sniff
  is_udp_or_tcp s =
      let (udp, s') = sniff_is_udp_packet s in if udp then (true, s') else sniff_is_tcp_packet s'

  unfoldable pub sniff_get_payload : Sniff → Option ℕ × Sniff
  sniff_get_payload s =
      let (ip, s') = sniff_is_ip_packet s in
      let (carried, s'') = is_udp_or_tcp s' in
      if not ip then (none, s') else if carried then (s''.payload, s'') else (none, s'')

  -- `rtph->PT`, `rtph->seq_num` and `rtph->TS` of the RTP header at offset `at`. Both byte orders
  -- lay PT over the low seven bits of its byte.
  abbrev pub rtp_pt : (ℕ → ℕ) → ℕ → ℕ
  rtp_pt m at = m (at + 1) % 128

  abbrev pub rtp_seq : (ℕ → ℕ) → ℕ → ℕ
  rtp_seq m at = load16 o (m (at + 2)) (m (at + 3))

  abbrev pub rtp_ts : (ℕ → ℕ) → ℕ → ℕ
  rtp_ts m at = load32 o (m (at + 4)) (m (at + 5)) (m (at + 6)) (m (at + 7))

  -- Reads of the packet through `payload`; a sniff with no packet has no payload.
  unfoldable pub analyze_rtp : Option (ℕ → ℕ) → Option ℕ → Sniff → Sniff
  analyze_rtp none _ s = record s { rtp_analyzed = ext_false }
  analyze_rtp (some m) none s = record s { rtp_analyzed = ext_false }
  analyze_rtp (some m) (some at) s = record s {
    rtp_analyzed = ext_true;
    rtp_payload_type = m (at + 1) % 128;
    rtp_seq_num = load16 o (m (at + 2)) (m (at + 3));
  }

  unfoldable pub sniff_rtp_packet : Sniff → Sniff
  unfolding analyze_rtp
  sniff_rtp_packet s = elim s.rtp_analyzed [
    | undefined ↦ let (at, s') = sniff_get_payload s in analyze_rtp s'.packet at s'
    | _ ↦ s
  ]
