-- ===== src/Feature/Tests.antt =====
-- The features at sample packets and at runs of sequence numbers.
use ntrt.Prelude.{◌+◌, ◌≡◌, refl, true, [], ◌∷◌, arith}
use ntrt.Prelude.Int.{pos}
use ntrt.Prelude.Word.{little}
use ntrt.Sniff.{setup_sniff}
use ntrt.Sniff.Memo.{setup_sniff-IsValid}
use ntrt.Sniff.Sample.{view, rtp_packet, rtp_packet-IsBytes}
use ntrt.Feature.Monad.{Container}
use ntrt.Feature.Sequence.{count_lost_packets}
use ntrt.Feature.Table.{evaluator, src_lost_rtp_packets}
use ntrt.Feature.Spec.{Counts, counted, meaning}
use ntrt.Feature.Counts.{evaluator_lem}
use ntrt.Feature.Loss.{total_lost, total_lost_lem, backward_step}

-- A stream of payload type 96 from port 5000, last seen at sequence number 257.
abbrev stream : Container
stream = record {
  port_num = pos 5000;
  payload_type = pos 96;
  seq_num = 257;
  last_timestamp = 0;
  seq_num_initialized = true;
  src_ipv4 = 0;
}

evaluator_example :
    Counts little
      (view rtp_packet)
      (evaluator little src_lost_rtp_packets stream (setup_sniff (view rtp_packet) 3))
      (counted little (meaning src_lost_rtp_packets) (view rtp_packet) stream)
evaluator_example =
    evaluator_lem src_lost_rtp_packets little (view rtp_packet) rtp_packet-IsBytes
      (setup_sniff (view rtp_packet) 3) (setup_sniff-IsValid little (view rtp_packet) 3) stream

-- Three packets are missing between 257 and 261.
evaluator_run :
    counted little (meaning src_lost_rtp_packets) (view rtp_packet) stream
    ≡ (3, record stream { seq_num = 261 })
unfolding count_lost_packets ntrt.Feature.Spec.packets_between
evaluator_run = refl

total_lost_example :
    ((total_lost (258 ∷ 261 ∷ 300 ∷ []) stream).0 + 3 + 257 ≡ 300)
    × ((total_lost (258 ∷ 261 ∷ 300 ∷ []) stream).1 ≡ record stream { seq_num = 300 })
total_lost_example = total_lost_lem (258 ∷ 261 ∷ 300 ∷ []) stream refl (omega arith)

-- At the wrap from 65535 to 0 nothing is lost, and the counter adds 2^32 - 1.
backward_step_example :
    count_lost_packets 0 (record stream { seq_num = 65535 })
    ≡ (4294967295, record stream { seq_num = 0 })
backward_step_example =
    backward_step (record stream { seq_num = 65535 }) refl 0 (omega arith) (omega arith)
      (omega arith)
