-- ===== src/Sniff/Sample.antt =====
-- Sample packets for the tests: an RTP packet over UDP and a TCP packet, as views of memory.
use ntrt.Prelude.{ℕ, zero, suc, ◌<◌, List, [], ◌∷◌, arith, get_or}
use ntrt.Sniff.Packet.{IsBytes}

abbrev pub AllBytes : List ℕ → Type 0
AllBytes [] = Unit
AllBytes (b ∷ bs) = (b < 256) × AllBytes bs

-- Memory that holds some bytes, and 0 behind them.
abbrev pub view : List ℕ → ℕ → ℕ
view bs i = get_or bs i 0

pub view-IsBytes : (bs : List ℕ) → AllBytes bs → IsBytes (view bs)
view-IsBytes [] h i = omega arith
view-IsBytes (b ∷ bs) h zero = h.0
view-IsBytes (b ∷ bs) h (suc i) = view-IsBytes bs h.1 i

-- From 10.0.0.1, port 5000, to 10.0.0.2, port 4000: payload type 96, sequence number 261.
abbrev pub rtp_packet : List ℕ
rtp_packet =
    0 ∷ 0 ∷ 0 ∷ 0 ∷ 0 ∷ 0 ∷ 0 ∷ 0 ∷ 0 ∷ 0 ∷ 0 ∷ 0 ∷ 8 ∷ 0 ∷ 0x45 ∷ 0 ∷ 0 ∷ 40 ∷ 0 ∷ 0 ∷ 0 ∷ 0 ∷ 64
    ∷ 17 ∷ 0 ∷ 0 ∷ 10 ∷ 0 ∷ 0 ∷ 1 ∷ 10 ∷ 0 ∷ 0 ∷ 2 ∷ 0x13 ∷ 0x88 ∷ 0x0f ∷ 0xa0 ∷ 0 ∷ 20 ∷ 0 ∷ 0
    ∷ 0x80 ∷ 96 ∷ 1 ∷ 5 ∷ 0 ∷ 0 ∷ 2 ∷ 88 ∷ 0 ∷ 0 ∷ 0 ∷ 7 ∷ []

-- From port 80 to port 4000, with a TCP header of 20 bytes.
abbrev pub tcp_packet : List ℕ
tcp_packet =
    0 ∷ 0 ∷ 0 ∷ 0 ∷ 0 ∷ 0 ∷ 0 ∷ 0 ∷ 0 ∷ 0 ∷ 0 ∷ 0 ∷ 8 ∷ 0 ∷ 0x45 ∷ 0 ∷ 0 ∷ 44 ∷ 0 ∷ 0 ∷ 0 ∷ 0 ∷ 64
    ∷ 6 ∷ 0 ∷ 0 ∷ 10 ∷ 0 ∷ 0 ∷ 1 ∷ 10 ∷ 0 ∷ 0 ∷ 2 ∷ 0 ∷ 80 ∷ 0x0f ∷ 0xa0 ∷ 0 ∷ 0 ∷ 0 ∷ 1 ∷ 0 ∷ 0 ∷ 0
    ∷ 0 ∷ 0x50 ∷ 0 ∷ 1 ∷ 2 ∷ 3 ∷ 4 ∷ []

pub rtp_packet-IsBytes : IsBytes (view rtp_packet)
rtp_packet-IsBytes = view-IsBytes rtp_packet (omega arith)

pub tcp_packet-IsBytes : IsBytes (view tcp_packet)
tcp_packet-IsBytes = view-IsBytes tcp_packet (omega arith)
