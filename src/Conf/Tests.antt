-- ===== src/Conf/Tests.antt =====
-- A sample section of a configuration.
use Prim.Native.String.{String}
use text.Mathlib.Text as Text
use ntrt.Prelude.{
  true, arith, zero, suc, ◌≡◌, refl, Option, none, some, List, [], ◌∷◌, ◌&&◌, if◌then◌else◌,
}
use ntrt.Prelude.Int.{ℤ, pos}
use ntrt.Feature.Monad.{Container}
use ntrt.Feature.Table.{Feature, identifier}
use ntrt.Conf.{find_named, loaded, attempts, store, get_feature_by_identifier, try_each}
use ntrt.Dmap.{Row, visit_all}
use ntrt.Conf.Resolve.{identifier_lem}
use ntrt.Conf.Section.{
  Key, feature, groupcounter, mapped_var_id, zero_container, Tables, to_uint32,
  prototype_identifier,
}
use ntrt.Group.{Prototype, src_udp_flows, src_tcp_flows}
use ntrt.Conf.Listeners.{Resolves, Finds, Configured, listener_from_conf_lem}

-- What sscanf(3) answers for the texts of the section.
abbrev sscanf : String → String → List ℤ
sscanf text format =
    if Text.◌==◌ text "RTP_PACKETS_96" && Text.◌==◌ format "RTP_PACKETS_%d" then pos 96 ∷ [] else []

abbrev getstring : Key → String → String
getstring (feature zero) d = "IP_BYTES"
getstring (feature (suc zero)) d = "IP_BITS"
getstring (feature (suc (suc zero))) d = "RTP_PACKETS_96"
getstring (groupcounter zero) d = "SRC_TCP_FLOWS"
getstring _ d = d

abbrev getint : Key → ℤ → ℤ
getint Key.feature_num d = pos 3
getint Key.groupcounter_num d = pos 1
getint (mapped_var_id zero) d = pos 9
getint _ d = d

identifier_lem_example :
    get_feature_by_identifier sscanf loaded (identifier Feature.udp_bytes) zero_container
    ≡ some (some Feature.udp_bytes, zero_container)
identifier_lem_example = identifier_lem sscanf Feature.udp_bytes zero_container

-- The number behind RTP_PACKETS is stored as a port, and the payload type stays 0.
rtp_packets_run :
    get_feature_by_identifier sscanf loaded "RTP_PACKETS_96" zero_container
    ≡ some (some Feature.rtp_packets, record zero_container { port_num = pos 96 })
unfolding get_feature_by_identifier try_each attempts find_named loaded visit_all identifier store
rtp_packets_run = refl

-- An address writes past its array.
ip_packets_by_src_run :
    get_feature_by_identifier
      (λ text format. pos 10 ∷ pos 0 ∷ pos 0 ∷ pos 1 ∷ [])
      loaded
      "IP_PACKETS_BY_SRC_10_0_0_1"
      zero_container
    ≡ none
unfolding get_feature_by_identifier try_each attempts find_named loaded visit_all identifier store
ip_packets_by_src_run = refl

abbrev outcomes : List (Option Feature × Container)
outcomes =
    (some Feature.ip_bytes, zero_container)
    ∷ (none, zero_container)
    ∷ (some Feature.rtp_packets, record zero_container { port_num = pos 96 })
    ∷ []

abbrev proto : Prototype → Option (Row Prototype)
proto p = some (record { item = some p; has_dtor = true })

abbrev tables : Tables
tables = record {
  features = loaded;
  prototypes = proto src_udp_flows ∷ proto src_tcp_flows ∷ [];
  mapped_vars = none ∷ none ∷ [];
}

-- Three feature keys, of which the second is not found, and one group counter.
listener_from_conf_lem_example :
    Configured getstring getint sscanf tables outcomes (some src_tcp_flows ∷ [])
unfolding Resolves Finds get_feature_by_identifier try_each attempts find_named loaded visit_all
    identifier store to_uint32 prototype_identifier
listener_from_conf_lem_example =
    listener_from_conf_lem getstring getint sscanf tables outcomes (some src_tcp_flows ∷ [])
      (record {
        device = omega arith;
        output = omega arith;
        pcap_filter = omega arith;
        aggregation_path = omega arith;
      })
      tt refl refl (refl, (refl, (refl, tt))) (refl, tt)
