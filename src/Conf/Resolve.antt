-- ===== src/Conf/Resolve.antt =====
-- What the identifiers of a configuration are resolved to.
use Prim.Native.String.{String}
use ntrt.Prelude.{◌≡◌, refl, some, List}
use ntrt.Prelude.Int.{ℤ}
use ntrt.Feature.Monad.{Container}
use ntrt.Feature.Table.{Feature, identifier}
use ntrt.Dmap.{visit_all}
use ntrt.Conf.{find_named, loaded, get_feature_by_identifier}

-- Every installed feature is found by its own identifier, among the loaded features.
pub installed :
    (f : Feature) → find_named identifier (identifier f) (visit_all loaded) ≡ some (some f)
unfolding find_named loaded visit_all identifier
installed Feature.ip_packets = refl
installed Feature.ip_packets_by_src = refl
installed Feature.ip_bytes = refl
installed Feature.tcp_packets = refl
installed Feature.tcp_bytes = refl
installed Feature.udp_packets = refl
installed Feature.udp_bytes = refl
installed Feature.rtp_packets = refl
installed Feature.rtp_bytes = refl
installed Feature.lost_rtp_packets = refl
installed Feature.lost_rtp_frames = refl
installed Feature.src_udp_packets = refl
installed Feature.src_udp_bytes = refl
installed Feature.src_tcp_packets = refl
installed Feature.src_tcp_bytes = refl
installed Feature.src_rtp_packets = refl
installed Feature.src_rtp_bytes = refl
installed Feature.src_lost_rtp_packets = refl
installed Feature.src_lost_rtp_frames = refl
installed Feature.dst_udp_packets = refl
installed Feature.dst_udp_bytes = refl
installed Feature.dst_tcp_packets = refl
installed Feature.dst_tcp_bytes = refl
installed Feature.dst_rtp_packets = refl
installed Feature.dst_rtp_bytes = refl
installed Feature.dst_lost_rtp_packets = refl
installed Feature.dst_lost_rtp_frames = refl

-- The identifier of any installed feature is resolved to that feature, and no number is stored.
pub identifier_lem :
    (sscanf : String → String → List ℤ) (f : Feature) (c : Container)
    → get_feature_by_identifier sscanf loaded (identifier f) c ≡ some (some f, c)
unfolding get_feature_by_identifier
identifier_lem sscanf f c = cc (installed f)
