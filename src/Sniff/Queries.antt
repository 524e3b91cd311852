-- ===== src/Sniff/Queries.antt =====
-- The combined tests, the payload, and any sequence of questions about one packet.
use ntrt.Prelude.{
  ℕ, ◌+◌, ◌%◌, ◌≡◌, refl, ap₂, Bool, true, false, ◌||◌, Option, none, some, List, [], ◌∷◌, map,
  arith, if◌then◌else◌,
}
use ntrt.Prelude.Word.{ByteOrder, load16}
use ntrt.Sniff.{
  Sniff, undefined, ext_true, setup_sniff, sniff_is_ip_packet, sniff_is_udp_packet,
  sniff_is_tcp_packet, is_udp_or_tcp, sniff_get_payload, sniff_rtp_packet,
}
use ntrt.Sniff.Packet.{is_ip, is_udp, is_tcp, payload_at}
use ntrt.Sniff.Memo.{
  ext_of, IpFields, TransportFields, IsValid, setup_sniff-IsValid, is_ip_lem, is_udp_lem,
  is_tcp_lem,
}

-- Where the payload of a packet lies, if it is a UDP or TCP packet.
abbrev pub payload_of : (ℕ → ℕ) → Option ℕ
payload_of m = if is_udp m || is_tcp m then some (payload_at m) else none

-- A question that the rest of the program asks of a sniff, and its answer.
pub data Query : Type 0 where
  ask_ip ask_udp ask_tcp ask_payload : Query

pub data Answer : Type 0 where
  verdict : Bool → Answer
  place : Option ℕ → Answer

-- The answer that the bytes give.
pub answer_of : (ℕ → ℕ) → Query → Answer
answer_of m ask_ip = verdict (is_ip m)
answer_of m ask_udp = verdict (is_udp m)
answer_of m ask_tcp = verdict (is_tcp m)
answer_of m ask_payload = place (payload_of m)

-- What the tests of a protocol leave alone.
abbrev KeepsRtp : Sniff → Sniff → Type 0
KeepsRtp s' s = (s'.rtp_payload_type ≡ s.rtp_payload_type) × (s'.rtp_seq_num ≡ s.rtp_seq_num)

module _ (o : ByteOrder) where
  unfoldable pub ask : Query → Sniff → Answer × Sniff
  ask ask_ip s = let (b, s') = sniff_is_ip_packet o s in (verdict b, s')
  ask ask_udp s = let (b, s') = sniff_is_udp_packet o s in (verdict b, s')
  ask ask_tcp s = let (b, s') = sniff_is_tcp_packet o s in (verdict b, s')
  ask ask_payload s = let (p, s') = sniff_get_payload o s in (place p, s')

  unfoldable pub ask_all : List Query → Sniff → List Answer
  unfolding ask
  ask_all [] s = []
  ask_all (q ∷ qs) s = let (a, s') = ask q s in a ∷ ask_all qs s'

  -- What holds after the test for either transport has passed.
  pub record Carried (m : ℕ → ℕ) (s : Sniff) : Type 0 where
    pub ip_fields : IpFields o m s
    pub fields : TransportFields o m s

  pub is_ip-fields :
      (m : ℕ → ℕ) (s : Sniff)
      → IsValid o m s
      → is_ip m ≡ true
      → IpFields o m (sniff_is_ip_packet o s).1
  is_ip-fields m s v e = let (_, flag, v') = is_ip_lem o m s v in v'.ip_fields (ground arith)

  pub is_udp-Carried :
      (m : ℕ → ℕ) (s : Sniff)
      → IsValid o m s
      → is_udp m ≡ true
      → Carried m (sniff_is_udp_packet o s).1
  is_udp-Carried m s v e =
      let (_, flag, v') = is_udp_lem o m s v in
      let known : (sniff_is_udp_packet o s).1.is_udp_packet ≡ ext_true = ground arith in
      record { ip_fields = v'.ip_fields (v'.udp_ip known); fields = v'.udp_fields known }

  pub is_tcp-Carried :
      (m : ℕ → ℕ) (s : Sniff)
      → IsValid o m s
      → is_tcp m ≡ true
      → Carried m (sniff_is_tcp_packet o s).1
  is_tcp-Carried m s v e =
      let (_, flag, v') = is_tcp_lem o m s v in
      let known : (sniff_is_tcp_packet o s).1.is_tcp_packet ≡ ext_true = ground arith in
      record { ip_fields = v'.ip_fields (v'.tcp_ip known); fields = v'.tcp_fields known }

  pub is_udp_or_tcp_lem :
      (m : ℕ → ℕ) (s : Sniff)
      → IsValid o m s
      → ((is_udp_or_tcp o s).0 ≡ (is_udp m || is_tcp m)) × IsValid o m (is_udp_or_tcp o s).1
  unfolding is_udp_or_tcp
  is_udp_or_tcp_lem m s v =
      let (b, flag, v') = is_udp_lem o m s v in
      ground (arith, is_tcp_lem o m (sniff_is_udp_packet o s).1 v')

  pub is_udp_or_tcp-Carried :
      (m : ℕ → ℕ) (s : Sniff)
      → IsValid o m s
      → (is_udp m || is_tcp m) ≡ true
      → Carried m (is_udp_or_tcp o s).1
  unfolding is_udp_or_tcp
  is_udp_or_tcp-Carried m s v e =
      let (b, flag, v') = is_udp_lem o m s v in
      ground (arith, is_udp-Carried m s v, is_tcp-Carried m (sniff_is_udp_packet o s).1 v')

  -- `sniff_get_payload` gives the offset of the transport's data, and NULL for other packets.
  pub get_payload_lem :
      (m : ℕ → ℕ) (s : Sniff)
      → IsValid o m s
      → ((sniff_get_payload o s).0 ≡ payload_of m) × IsValid o m (sniff_get_payload o s).1
  unfolding sniff_get_payload
  get_payload_lem m s v =
      let (b, flag, v') = is_ip_lem o m s v in
      ground (
        arith,
        is_udp_or_tcp_lem m (sniff_is_ip_packet o s).1 v',
        is_udp_or_tcp-Carried m (sniff_is_ip_packet o s).1 v',
      )

  pub get_payload-Carried :
      (m : ℕ → ℕ) (s : Sniff)
      → IsValid o m s
      → (is_udp m || is_tcp m) ≡ true
      → Carried m (sniff_get_payload o s).1
  unfolding sniff_get_payload
  get_payload-Carried m s v e =
      let (b, flag, v') = is_ip_lem o m s v in
      ground (
        arith,
        is_udp_or_tcp_lem m (sniff_is_ip_packet o s).1 v',
        is_udp_or_tcp-Carried m (sniff_is_ip_packet o s).1 v',
      )

  ask_lem :
      (m : ℕ → ℕ) (q : Query) (s : Sniff)
      → IsValid o m s
      → ((ask q s).0 ≡ answer_of m q) × IsValid o m (ask q s).1
  unfolding ask answer_of
  ask_lem m ask_ip s v = ground (arith, is_ip_lem o m s v)
  ask_lem m ask_udp s v = ground (arith, is_udp_lem o m s v)
  ask_lem m ask_tcp s v = ground (arith, is_tcp_lem o m s v)
  ask_lem m ask_payload s v = ground (arith, get_payload_lem m s v)

  ask_all-valid :
      (m : ℕ → ℕ) (qs : List Query) (s : Sniff)
      → IsValid o m s
      → ask_all qs s ≡ map (answer_of m) qs
  unfolding ask_all
  ask_all-valid m [] s v = refl
  ask_all-valid m (q ∷ qs) s v =
      let (a, v') = ask_lem m q s v in ap₂ ◌∷◌ a (ask_all-valid m qs (ask q s).1 v')

  -- Asked any questions in any order and as often as one likes, a fresh sniff of a packet gives
  -- the answers that the packet's bytes give: no memo written by one test misleads a later one.
  pub ask_all_lem :
      (m : ℕ → ℕ) (id : ℕ) (qs : List Query) → ask_all qs (setup_sniff m id) ≡ map (answer_of m) qs
  ask_all_lem m id qs = ask_all-valid m qs (setup_sniff m id) (setup_sniff-IsValid o m id)

  -- A sniff with no packet is of no protocol and has no payload, whatever its memo says.
  no_packet_lem :
      (s : Sniff)
      → s.packet ≡ none
      → ((sniff_is_ip_packet o s).0 ≡ false)
        × ((sniff_is_udp_packet o s).0 ≡ false)
        × ((sniff_is_tcp_packet o s).0 ≡ false)
        × ((sniff_get_payload o s).0 ≡ none)
  unfolding sniff_is_ip_packet sniff_is_udp_packet sniff_is_tcp_packet sniff_get_payload
      is_udp_or_tcp
  no_packet_lem s e = ground arith

  ip_keeps : (s : Sniff) → KeepsRtp (sniff_is_ip_packet o s).1 s
  unfolding sniff_is_ip_packet
  ip_keeps s = ground arith

  udp_keeps : (s : Sniff) → KeepsRtp (sniff_is_udp_packet o s).1 s
  unfolding sniff_is_udp_packet
  udp_keeps s = ground (arith, ip_keeps s)

  tcp_keeps : (s : Sniff) → KeepsRtp (sniff_is_tcp_packet o s).1 s
  unfolding sniff_is_tcp_packet
  tcp_keeps s = ground (arith, ip_keeps s)

  either_keeps : (s : Sniff) → KeepsRtp (is_udp_or_tcp o s).1 s
  unfolding is_udp_or_tcp
  either_keeps s = ground (arith, udp_keeps s, tcp_keeps (sniff_is_udp_packet o s).1)

  get_payload_keeps : (s : Sniff) → KeepsRtp (sniff_get_payload o s).1 s
  unfolding sniff_get_payload
  get_payload_keeps s = ground (arith, ip_keeps s, either_keeps (sniff_is_ip_packet o s).1)

  -- The first call of `sniff_rtp_packet` for a packet, whatever was asked before, notes whether the
  -- packet is a UDP or TCP packet; of one it notes the payload type and the sequence number (as the
  -- host loads it) that lie at the payload, else these fields stay as they were. The memo stays true.
  sniff_rtp_packet_lem :
      (m : ℕ → ℕ) (s : Sniff)
      → IsValid o m s
      → s.rtp_analyzed ≡ undefined
      → let s' = sniff_rtp_packet o s in
        let carried : Bool = is_udp m || is_tcp m in
        (s'.rtp_analyzed ≡ ext_of carried)
        × (s'.rtp_payload_type
            ≡ (if carried then m (payload_at m + 1) % 128 else s.rtp_payload_type))
        × (s'.rtp_seq_num ≡ (
            if carried
            then load16 o (m (payload_at m + 2)) (m (payload_at m + 3))
            else s.rtp_seq_num))
        × IsValid o m s'
  unfolding sniff_rtp_packet
  sniff_rtp_packet_lem m s v e = ground (arith, get_payload_lem m s v, get_payload_keeps s)
