-- ===== src/Feature/Loads.antt =====
-- The multi-byte loads that the evaluators convert by ntohs and ntohl give the value in network order.
use ntrt.Prelude.{ℕ, ◌+◌, ◌*◌, ◌≡◌, ap, ◌∙◌, arith}
use ntrt.Prelude.Word.{ByteOrder, load16, load32, ntohs, ntohl, ntohs-load16, ntohl-load32}
use ntrt.Sniff.Packet.{IsBytes, payload_at, transport_at, be16, be32}

module _ (o : ByteOrder) (m : ℕ → ℕ) (bytes : IsBytes m) where
  load16_at : (i j : ℕ) → j ≡ i + 1 → ntohs o (load16 o (m i) (m j)) ≡ be16 m i
  load16_at i j e = ntohs-load16 o (m i) (m j) (bytes i) (bytes j) ∙ ap (λ k. m i * 256 + m k) e

  load32_at :
      (i j k l : ℕ)
      → j ≡ i + 1
      → k ≡ i + 2
      → l ≡ i + 3
      → ntohl o (load32 o (m i) (m j) (m k) (m l)) ≡ be32 m i
  load32_at i j k l p q r =
      ntohl-load32 o (m i) (m j) (m k) (m l) (bytes i) (bytes j) (bytes k) (bytes l)
      ∙ ap (λ x. ((m i * 256 + m x) * 256 + m k) * 256 + m l) p
      ∙ ap (λ x. ((m i * 256 + m (i + 1)) * 256 + m x) * 256 + m l) q
      ∙ ap (λ x. ((m i * 256 + m (i + 1)) * 256 + m (i + 2)) * 256 + m x) r

  pub length_lem : ntohs o (load16 o (m 16) (m 17)) ≡ be16 m 16
  length_lem = load16_at 16 17 (omega arith)

  pub src_port_lem :
      ntohs o (load16 o (m (transport_at m)) (m (transport_at m + 1))) ≡ be16 m (transport_at m)
  src_port_lem = load16_at (transport_at m) (transport_at m + 1) (omega arith)

  pub dst_port_lem :
      ntohs o (load16 o (m (transport_at m + 2)) (m (transport_at m + 3)))
      ≡ be16 m (transport_at m + 2)
  dst_port_lem = load16_at (transport_at m + 2) (transport_at m + 3) (omega arith)

  pub seq_lem :
      ntohs o (load16 o (m (payload_at m + 2)) (m (payload_at m + 3))) ≡ be16 m (payload_at m + 2)
  seq_lem = load16_at (payload_at m + 2) (payload_at m + 3) (omega arith)

  pub ts_lem :
      ntohl o (
        load32 o
          (m (payload_at m + 4))
          (m (payload_at m + 5))
          (m (payload_at m + 6))
          (m (payload_at m + 7)))
      ≡ be32 m (payload_at m + 4)
  ts_lem =
      load32_at (payload_at m + 4) (payload_at m + 5) (payload_at m + 6) (payload_at m + 7)
        (omega arith) (omega arith) (omega arith)
