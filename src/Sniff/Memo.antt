-- ===== src/Sniff/Memo.antt =====
-- The memo of a sniff never contradicts its packet, and each test answers what the bytes say.
use ntrt.Prelude.{ℕ, ◌+◌, ◌≡◌, refl, Bool, true, false, some, arith}
use ntrt.Prelude.Word.{ByteOrder, load16, load32}
use ntrt.Sniff.{
  Sniff, ExtBool, undefined, ext_false, ext_true, setup_sniff, sniff_is_ip_packet,
  sniff_is_udp_packet, sniff_is_tcp_packet,
}
use ntrt.Sniff.Packet.{is_ip, is_udp, is_tcp, header_size, transport_at, payload_at}

abbrev pub ext_of : Bool → ExtBool
ext_of true = ext_true
ext_of false = ext_false

-- The memo of a test: unknown, or the truth.
abbrev pub Knows : ExtBool → Bool → Type 0
Knows undefined b = Unit {0}
Knows ext_false b = b ≡ false
Knows ext_true b = b ≡ true

module _ (o : ByteOrder) where
  -- What the memoised IP fields hold.
  pub record IpFields (m : ℕ → ℕ) (s : Sniff) : Type 0 where
    pub ip_src : s.ip_src ≡ load32 o (m 26) (m 27) (m 28) (m 29)
    pub ip_p : s.ip_p ≡ m 23
    pub ip_len : s.ip_len ≡ load16 o (m 16) (m 17)
    pub size_ip : s.size_ip ≡ header_size m

  -- What the memoised transport fields hold.
  pub record TransportFields (m : ℕ → ℕ) (s : Sniff) : Type 0 where
    pub port_src : s.port_src ≡ load16 o (m (transport_at m)) (m (transport_at m + 1))
    pub port_dst : s.port_dst ≡ load16 o (m (transport_at m + 2)) (m (transport_at m + 3))
    pub payload : s.payload ≡ some (payload_at m)

  pub record IsValid (m : ℕ → ℕ) (s : Sniff) : Type 0 where
    pub same : s.packet ≡ some m
    pub ip : Knows s.is_ip_packet (is_ip m)
    pub udp : Knows s.is_udp_packet (is_udp m)
    pub tcp : Knows s.is_tcp_packet (is_tcp m)
    pub ip_fields : s.is_ip_packet ≡ ext_true → IpFields m s
    pub udp_ip : s.is_udp_packet ≡ ext_true → s.is_ip_packet ≡ ext_true
    pub tcp_ip : s.is_tcp_packet ≡ ext_true → s.is_ip_packet ≡ ext_true
    pub udp_fields : s.is_udp_packet ≡ ext_true → TransportFields m s
    pub tcp_fields : s.is_tcp_packet ≡ ext_true → TransportFields m s

  -- A fresh sniff knows nothing.
  pub setup_sniff-IsValid : (m : ℕ → ℕ) (id : ℕ) → IsValid m (setup_sniff m id)
  unfolding setup_sniff
  setup_sniff-IsValid m id = record {
    same = refl;
    ip = tt;
    udp = tt;
    tcp = tt;
    ip_fields = λ e. absurd (cc);
    udp_ip = λ e. absurd (cc);
    tcp_ip = λ e. absurd (cc);
    udp_fields = λ e. absurd (cc);
    tcp_fields = λ e. absurd (cc);
  }

  -- The IP test answers by the header length, remembers it, and keeps the memo true.
  pub is_ip_lem :
      (m : ℕ → ℕ) (s : Sniff)
      → IsValid m s
      → ((sniff_is_ip_packet o s).0 ≡ is_ip m)
        × ((sniff_is_ip_packet o s).1.is_ip_packet ≡ ext_of (is_ip m))
        × IsValid m (sniff_is_ip_packet o s).1
  unfolding sniff_is_ip_packet
  is_ip_lem m s v = ground arith

  -- The UDP test answers by the bytes, remembers it, and keeps the memo true.
  pub is_udp_lem :
      (m : ℕ → ℕ) (s : Sniff)
      → IsValid m s
      → ((sniff_is_udp_packet o s).0 ≡ is_udp m)
        × ((sniff_is_udp_packet o s).1.is_udp_packet ≡ ext_of (is_udp m))
        × IsValid m (sniff_is_udp_packet o s).1
  unfolding sniff_is_udp_packet
  is_udp_lem m s v = ground (arith, is_ip_lem m s v)

  -- The TCP test answers by the bytes, remembers it, and keeps the memo true.
  pub is_tcp_lem :
      (m : ℕ → ℕ) (s : Sniff)
      → IsValid m s
      → ((sniff_is_tcp_packet o s).0 ≡ is_tcp m)
        × ((sniff_is_tcp_packet o s).1.is_tcp_packet ≡ ext_of (is_tcp m))
        × IsValid m (sniff_is_tcp_packet o s).1
  unfolding sniff_is_tcp_packet
  is_tcp_lem m s v = ground (arith, is_ip_lem m s v)
