-- ===== src/Evaluator/Sample.antt =====
-- An evaluator with a listener of two features, for the tests.
use ntrt.Prelude.{true, [], ◌∷◌, arith}
use ntrt.Prelude.Int.{pos}
use ntrt.Record.{Record}
use ntrt.Puffer
use ntrt.Puffer.{Puffer}
use ntrt.Puffer.Holds
use ntrt.Feature.Monad.{Container}
use ntrt.Feature.Table.{src_udp_bytes, lost_rtp_packets}
use ntrt.Evaluator.{CmpEvaluatorItem, CmpEvaluator}
use ntrt.Evaluator.Recycle.{Stocked}

-- Of port 5000, and of payload type 96 last seen at sequence number 257.
abbrev pub container : Container
container = record {
  port_num = pos 5000;
  payload_type = pos 96;
  seq_num = 257;
  last_timestamp = 0;
  seq_num_initialized = true;
  src_ipv4 = 0;
}

abbrev pub items : CmpEvaluatorItem
items = record {
  evaluators =
      record { feature = src_udp_bytes; evaluator_container = container }
      ∷ record { feature = lost_rtp_packets; evaluator_container = container }
      ∷ [];
  feature_num = 2;
}

-- The puffer of records is empty at first.
abbrev pub fresh_puffer : Puffer Record
fresh_puffer = Puffer.ctor 2048

pub fresh_puffer-Stocked : Stocked fresh_puffer 0
fresh_puffer-Stocked = Holds.ctor_lem 2048 (omega arith)

abbrev pub component : CmpEvaluator
component = record { evaluators = items ∷ []; recycle = fresh_puffer }
