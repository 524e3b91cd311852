-- ===== src/Conf/Section.antt =====
-- sys/sys_confs.c, `_listener_from_conf` and `conf_load`: the listeners that the sections of the
-- configuration describe, and the tables that they join. The messages are left out.
use Prim.Native.String.{String, len}
use ntrt.Prelude.{
  ℕ, zero, suc, ◌+◌, ◌-◌, ◌%◌, ◌^◌, Bool, true, false, not, Option, none, some, List, [], ◌∷◌, ltb,
  ◌==◌, if◌then◌else◌,
}
use ntrt.Prelude.Int.{ℤ, pos, negsuc}
use ntrt.Feature.Monad.{Container}
use ntrt.Feature.Table.{Feature}
use ntrt.Group.{Prototype, src_udp_flows, dst_udp_flows, src_tcp_flows, dst_tcp_flows}
use ntrt.Dmap.{Row, visit_all, add_row}
use ntrt.Slist.{slist_append}
use ntrt.Listener.{EvaluatorItem, Listener, pcap_listener_ctor, max_mapped_vars}
use ntrt.Recorder.{MappedVar, get_mapped_var}
use ntrt.Conf.{find_named, get_feature_by_identifier}

-- The keys of a section, each printed as `section:name`.
pub data Key : Type 0 where
  device feature_num puffer_size output pcap_filter append_output save_aggregation aggregation_path
        mapped_vars_num groupcounter_num :
      Key
  feature mapped_var_id groupcounter : ℕ → Key

-- The identifiers that `make_groupcounter_prototype` is given.
unfoldable pub prototype_identifier : Prototype → String
prototype_identifier src_udp_flows = "SRC_UDP_FLOWS"
prototype_identifier dst_udp_flows = "DST_UDP_FLOWS"
prototype_identifier src_tcp_flows = "SRC_TCP_FLOWS"
prototype_identifier dst_tcp_flows = "DST_TCP_FLOWS"

-- An int in a uint32_t field.
unfoldable pub to_uint32 : ℤ → ℕ
to_uint32 (pos n) = n % 2 ^ 32
to_uint32 (negsuc n) = 2 ^ 32 - 1 - n % 2 ^ 32

unfoldable pub is_zero : ℤ → Bool
is_zero (pos n) = n == 0
is_zero (negsuc _) = false

-- `evaluator_container` after `memset`.
unfoldable pub zero_container : Container
zero_container = record {
  port_num = pos 0;
  payload_type = pos 0;
  seq_num = 0;
  last_timestamp = 0;
  seq_num_initialized = false;
  src_ipv4 = 0;
}

-- strcpy(3) into an array of `size` bytes; `none` is a write past its end.
unfoldable pub strcpy : ℕ → String → Option String
strcpy size s = if ltb (len s) size then some s else none

-- The tables that a configuration reads and fills.
pub record Tables : Type 0 where
  pub features : List (Option (Row Feature))
  pub prototypes : List (Option (Row Prototype))
  pub mapped_vars : List (Option (Row MappedVar))

-- `_add_mapped_var`: a variable that is not there is added, with the value 0, where there is room.
unfoldable pub add_mapped_var :
    ℕ → List (Option (Row MappedVar)) → Option (List (Option (Row MappedVar)))
unfolding get_mapped_var visit_all add_row
add_mapped_var map_id rows = elim (get_mapped_var map_id (visit_all rows)) [
  | none ↦ none
  | some (some _) ↦ some rows
  | some none ↦
      some
        (add_row none rows (
          some (record {
            item = some (record { identifier = map_id; value = 0 });
            has_dtor = true;
          }))).1
]

-- `iniparser_getstring` and `iniparser_getint` on the section, with their defaults, and sscanf(3).
module _ (getstring : Key → String → String) (getint : Key → ℤ → ℤ)
    (sscanf : String → String → List ℤ) where
  -- The loop over the features, `n` more rounds from `i` on: an identifier that is not found is left
  -- out.
  unfoldable pub add_evaluators :
      List (Option (Row Feature)) → ℕ → ℕ → List EvaluatorItem → Option (List EvaluatorItem)
  unfolding get_feature_by_identifier slist_append zero_container
  add_evaluators rows zero i evaluators = some evaluators
  add_evaluators rows (suc n) i evaluators =
      elim (get_feature_by_identifier sscanf rows (getstring (feature i) "") zero_container) [
        | none ↦ none
        | some (none, c) ↦ add_evaluators rows n (i + 1) evaluators
        | some (some f, c) ↦
            add_evaluators rows n (i + 1)
              (slist_append evaluators (record { feature = f; evaluator_container = c }))
      ]

  -- The loop over the group counters, likewise.
  unfoldable pub add_prototypes :
      List (Option (Row Prototype)) → ℕ → ℕ → List Prototype → Option (List Prototype)
  unfolding find_named visit_all slist_append prototype_identifier
  add_prototypes rows zero i prototypes = some prototypes
  add_prototypes rows (suc n) i prototypes =
      elim (find_named prototype_identifier (getstring (groupcounter i) "") (visit_all rows)) [
        | none ↦ none
        | some none ↦ add_prototypes rows n (i + 1) prototypes
        | some (some p) ↦ add_prototypes rows n (i + 1) (slist_append prototypes p)
      ]

  -- The loop over the mapped variables: it asks for each of the identifiers that there is room for,
  -- whatever `mapped_vars_num` is. The identifiers, and the table.
  unfoldable pub read_mapped_ids :
      ℕ → ℕ → List (Option (Row MappedVar)) → Option (List ℕ × List (Option (Row MappedVar)))
  unfolding add_mapped_var to_uint32
  read_mapped_ids zero i rows = some ([], rows)
  read_mapped_ids (suc n) i rows =
      let map_id : ℕ = to_uint32 (getint (mapped_var_id i) (pos 0)) in
      elim (if ltb 0 map_id then add_mapped_var map_id rows else some rows) [
        | none ↦ none
        | some rows' ↦ elim (read_mapped_ids n (i + 1) rows') [
          | none ↦ none
          | some (ids, rows'') ↦ some (map_id ∷ ids, rows'')
        ]
      ]

  -- The listener that `_listener_from_conf` has made at its end, from what its loops collect and the
  -- four texts that it copies.
  unfoldable pub filled_listener :
      String → String → String → String → List EvaluatorItem → List ℕ → List Prototype → Listener
  unfolding is_zero to_uint32 pcap_listener_ctor
  filled_listener dev out filter path evaluators ids prototypes = record pcap_listener_ctor {
    device = dev;
    feature_num = to_uint32 (getint feature_num (pos 0));
    puffer_size = to_uint32 (getint puffer_size (pos 2000));
    output = out;
    pcap_filter = filter;
    append_output = not (is_zero (getint append_output (pos 0)));
    evaluators = evaluators;
    save_aggregation = not (is_zero (getint save_aggregation (pos 0)));
    aggregation_path = path;
    mapped_vars_num = to_uint32 (getint mapped_vars_num (pos 0));
    mapped_var_ids = ids;
    groupcounter_num = to_uint32 (getint groupcounter_num (pos 0));
    groupcounter_prototypes = prototypes;
  }

  -- The copies go to arrays of the listener; where any of them writes past its array the listener is
  -- not made.
  unfoldable pub make_listener : List EvaluatorItem → List ℕ → List Prototype → Option Listener
  unfolding strcpy filled_listener
  make_listener evaluators ids prototypes = elim (strcpy 255 (getstring device "veth0")) [
    | none ↦ none
    | some dev ↦ elim (strcpy 255 (getstring output "output.csv")) [
      | none ↦ none
      | some out ↦ elim (strcpy 1024 (getstring pcap_filter "")) [
        | none ↦ none
        | some filter ↦ elim (strcpy 255 (getstring aggregation_path "aggregation.csv")) [
          | none ↦ none
          | some path ↦ some (filled_listener dev out filter path evaluators ids prototypes)
        ]
      ]
    ]
  ]

  -- `_listener_from_conf`.
  unfoldable pub listener_from_conf : Tables → Option (Listener × Tables)
  unfolding add_evaluators add_prototypes read_mapped_ids make_listener
  listener_from_conf t =
      elim (add_evaluators t.features (to_uint32 (getint feature_num (pos 0))) 0 []) [
        | none ↦ none
        | some evaluators ↦ elim (read_mapped_ids max_mapped_vars 0 t.mapped_vars) [
          | none ↦ none
          | some (ids, vars) ↦
              elim (add_prototypes t.prototypes (to_uint32 (getint groupcounter_num (pos 0))) 0
                []) [
                  | none ↦ none
                  | some prototypes ↦ elim (make_listener evaluators ids prototypes) [
                    | none ↦ none
                    | some l ↦ some (l, record t { mapped_vars = vars })
                  ]
                ]
        ]
      ]

-- The loop of `conf_load`, `n` more rounds from section `i` on: each listener is added to the table,
-- where there is room. `section i` is what the parser answers for the keys of `pcap_i`.
unfoldable pub load_listeners :
    (ℕ → Key → String → String)
    → (ℕ → Key → ℤ → ℤ)
    → (String → String → List ℤ)
    → ℕ
    → ℕ
    → Tables
    → List (Option (Row Listener))
    → Option (Tables × List (Option (Row Listener)))
unfolding listener_from_conf add_row
load_listeners getstring getint sscanf zero i t rows = some (t, rows)
load_listeners getstring getint sscanf (suc n) i t rows =
    elim (listener_from_conf (getstring i) (getint i) sscanf t) [
      | none ↦ none
      | some (l, t') ↦
          load_listeners getstring getint sscanf n (i + 1) t'
            (add_row none rows (some (record { item = some l; has_dtor = true }))).1
    ]
