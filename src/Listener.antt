-- ===== src/Listener.antt =====
-- `pcap_listener_t` of lib/lib_descs.h, the configuration of one capture. The state of libpcap and the
-- accumulation length, which nothing reads, are left out.
use Prim.Native.String.{String}
use ntrt.Prelude.{ℕ, Bool, false, List, [], replicate}
use ntrt.Feature.Monad.{Container}
use ntrt.Feature.Table.{Feature}
use ntrt.Group.{Prototype}

-- `evaluator_item_t`.
pub record EvaluatorItem : Type 0 where
  pub feature : Feature
  pub evaluator_container : Container

-- NTRT_MAX_MAPPED_VARS.
abbrev pub max_mapped_vars : ℕ
max_mapped_vars = 64

-- `pcap_listener_t`; the ints that are only tested against 0 are booleans.
pub record Listener : Type 0 where
  pub feature_num : ℕ
  pub device : String
  pub output : String
  pub puffer_size : ℕ
  pub append_output : Bool
  pub pcap_filter : String
  pub save_aggregation : Bool
  pub aggregation_path : String
  pub mapped_vars_num : ℕ
  pub mapped_var_ids : List ℕ
  pub groupcounter_num : ℕ
  pub evaluators : List EvaluatorItem
  pub groupcounter_prototypes : List Prototype

-- `pcap_listener_ctor`, all bytes 0.
unfoldable pub pcap_listener_ctor : Listener
pcap_listener_ctor = record {
  feature_num = 0;
  device = "";
  output = "";
  puffer_size = 0;
  append_output = false;
  pcap_filter = "";
  save_aggregation = false;
  aggregation_path = "";
  mapped_vars_num = 0;
  mapped_var_ids = replicate max_mapped_vars 0;
  groupcounter_num = 0;
  evaluators = [];
  groupcounter_prototypes = [];
}

-- NTRT_MAX_PCAPLS_NUM.
abbrev pub max_pcapls_num : ℕ
max_pcapls_num = 64
