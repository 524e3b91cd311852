-- ===== src/Sniff/Packet.antt =====
-- What the bytes of a captured packet say, read as the protocols lay them out: network byte order,
-- a 14-byte Ethernet header, an IPv4 header of IHL words, then UDP or TCP.
use ntrt.Prelude.{ℕ, ◌+◌, ◌*◌, ◌/◌, ◌%◌, ◌<◌, Bool, ◌&&◌, leb, ◌==◌, if◌then◌else◌}

-- Every cell of the view holds a byte.
abbrev pub IsBytes : (ℕ → ℕ) → Type 0
IsBytes m = (i : ℕ) → m i < 256

-- Two bytes in network order.
abbrev pub be16 : (ℕ → ℕ) → ℕ → ℕ
be16 m i = m i * 256 + m (i + 1)

abbrev pub be32 : (ℕ → ℕ) → ℕ → ℕ
be32 m i = ((m i * 256 + m (i + 1)) * 256 + m (i + 2)) * 256 + m (i + 3)

abbrev pub header_size : (ℕ → ℕ) → ℕ
header_size m = m 14 % 16 * 4

abbrev pub transport_at : (ℕ → ℕ) → ℕ
transport_at m = 14 + header_size m

abbrev pub tcp_size : (ℕ → ℕ) → ℕ
tcp_size m = m (transport_at m + 12) / 16 % 16 * 4

abbrev pub is_ip : (ℕ → ℕ) → Bool
is_ip m = leb 20 (header_size m)

abbrev pub is_udp : (ℕ → ℕ) → Bool
is_udp m = is_ip m && m 23 == 17

abbrev pub is_tcp : (ℕ → ℕ) → Bool
is_tcp m = is_ip m && m 23 == 6 && leb 20 (tcp_size m)

abbrev pub total_length : (ℕ → ℕ) → ℕ
total_length m = be16 m 16

abbrev pub src_port : (ℕ → ℕ) → ℕ
src_port m = be16 m (transport_at m)

abbrev pub dst_port : (ℕ → ℕ) → ℕ
dst_port m = be16 m (transport_at m + 2)

-- Where the data of a UDP or a TCP packet begins.
abbrev pub payload_at : (ℕ → ℕ) → ℕ
payload_at m = transport_at m + (if m 23 == 17 then 8 else tcp_size m)
