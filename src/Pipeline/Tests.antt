-- ===== src/Pipeline/Tests.antt =====
-- A sample packet through the system.
use ntrt.Prelude.{true, none, some, refl, [], ◌∷◌, arith}
use ntrt.Prelude.Word.{little}
use ntrt.Sniff.{setup_sniff}
use ntrt.Sniff.Memo.{setup_sniff-IsValid}
use ntrt.Sniff.Sample.{view, rtp_packet, rtp_packet-IsBytes, tcp_packet, tcp_packet-IsBytes}
use ntrt.Evaluator.Sample
use ntrt.Accumulator.Sample as Loaded
use ntrt.Pipeline.{System, Readings}
use ntrt.Dmap.{Row}
use ntrt.Listener.{Listener, pcap_listener_ctor}
use ntrt.Accumulator.Component.{zero_accumulator}
use ntrt.Accumulator.Sound.{Sound}
use ntrt.Group.{src_tcp_flows}
use ntrt.Pipeline.Sample.{system, running, running-Running}
use ntrt.Pipeline.Traffic.{Passed, capture_lem}
use ntrt.Pipeline.Totals.{Packets, Totals, capture_all_lem}
use ntrt.Pipeline.Capture.{Captured, send_lem}

send_example :
    Captured little
      (view rtp_packet)
      rtp_packet-IsBytes
      (Loaded.seconds 12)
      (λ _ _. Loaded.seconds 12)
      system
      (setup_sniff (view rtp_packet) 0)
      Sample.items
      (Loaded.early ∷ [])
      (Loaded.early ∷ [])
unfolding setup_sniff
send_example =
    send_lem little (view rtp_packet) rtp_packet-IsBytes (Loaded.seconds 12)
      (λ _ _. Loaded.seconds 12) system (setup_sniff (view rtp_packet) 0) Sample.items 0
      (Loaded.early ∷ []) (Loaded.early ∷ []) (setup_sniff-IsValid little (view rtp_packet) 0)
      Sample.fresh_puffer-Stocked refl (omega arith) (omega arith) Loaded.loaded-Window
      (omega arith)

abbrev readings : Readings
readings = record {
  stamp = Loaded.seconds 12;
  windows = λ _ _. Loaded.seconds 12;
  flows = λ _. Loaded.seconds 12;
}

capture_lem_example :
    Passed little 0 1
      (view tcp_packet)
      tcp_packet-IsBytes
      readings
      running
      Sample.items
      (Loaded.early ∷ [])
capture_lem_example =
    capture_lem little 0 1 (view tcp_packet) tcp_packet-IsBytes readings running Sample.items
      (Loaded.early ∷ []) running-Running

abbrev packets : Packets
packets =
    (readings, some (view rtp_packet, rtp_packet-IsBytes))
    ∷ (readings, none)
    ∷ (readings, some (view tcp_packet, tcp_packet-IsBytes))
    ∷ (readings, some (view rtp_packet, rtp_packet-IsBytes))
    ∷ []

capture_all_lem_example : Totals little 0 1 packets running Sample.items (Loaded.early ∷ [])
capture_all_lem_example =
    capture_all_lem little 0 1 packets running Sample.items (Loaded.early ∷ []) running-Running

-- A table of one listener, and a system that is stopped.
abbrev listener : Listener
listener = record pcap_listener_ctor {
  feature_num = 2;
  puffer_size = 2;
  evaluators = Sample.items.evaluators;
  groupcounter_num = 1;
  groupcounter_prototypes = src_tcp_flows ∷ [];
}

abbrev row : Row Listener
row = record { item = some listener; has_dtor = true }

abbrev stopped : System
stopped = record {
  evaluator = record Sample.component {
    evaluators = record { evaluators = []; feature_num = 0 } ∷ [];
  };
  accumulator = record { accumulators = zero_accumulator ∷ []; accumulation_time = 0 };
  holders = [] ∷ [];
}
