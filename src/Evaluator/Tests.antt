-- ===== src/Evaluator/Tests.antt =====
-- The evaluator and its recycle puffer at small examples.
use ntrt.Prelude.{refl, arith}
use ntrt.Prelude.Word.{little}
use ntrt.Sniff.{setup_sniff}
use ntrt.Sniff.Memo.{setup_sniff-IsValid}
use ntrt.Sniff.Sample.{view, rtp_packet, rtp_packet-IsBytes}
use ntrt.Evaluator.Process.{Processed, evaluator_process_lem}
use ntrt.Evaluator.Sample.{items, fresh_puffer-Stocked, component}
use ntrt.Accumulator.Sample.{seconds}

evaluator_process_example :
    Processed little
      (view rtp_packet)
      rtp_packet-IsBytes
      (seconds 10)
      component
      (setup_sniff (view rtp_packet) 0)
      items
unfolding setup_sniff
evaluator_process_example =
    evaluator_process_lem little (view rtp_packet) rtp_packet-IsBytes (seconds 10) component
      (setup_sniff (view rtp_packet) 0) items 0 (setup_sniff-IsValid little (view rtp_packet) 0)
      fresh_puffer-Stocked refl (omega arith)
