-- ===== src/Feature/Table.antt =====
-- lib/lib_features.c, the features as `make_feature` sets them up, and sys/sys_confs.c, their order
-- in `features_load`. The display names are left out.
use Prim.Native.String.{String}
use ntrt.Prelude.{List, [], ◌∷◌}
use ntrt.Prelude.Word.{ByteOrder}
use ntrt.Feature.Monad.{Evaluator}
use ntrt.Feature.Plain
use ntrt.Feature.Media
use ntrt.Feature.Src
use ntrt.Feature.Dst

-- One constructor for each `make_feature_*` that `features_load` calls.
pub data Feature : Type 0 where
  ip_packets : Feature
  ip_packets_by_src : Feature
  ip_bytes : Feature
  tcp_packets : Feature
  tcp_bytes : Feature
  udp_packets : Feature
  udp_bytes : Feature
  rtp_packets : Feature
  rtp_bytes : Feature
  lost_rtp_packets : Feature
  lost_rtp_frames : Feature
  src_udp_packets : Feature
  src_udp_bytes : Feature
  src_tcp_packets : Feature
  src_tcp_bytes : Feature
  src_rtp_packets : Feature
  src_rtp_bytes : Feature
  src_lost_rtp_packets : Feature
  src_lost_rtp_frames : Feature
  dst_udp_packets : Feature
  dst_udp_bytes : Feature
  dst_tcp_packets : Feature
  dst_tcp_bytes : Feature
  dst_rtp_packets : Feature
  dst_rtp_bytes : Feature
  dst_lost_rtp_packets : Feature
  dst_lost_rtp_frames : Feature

-- The identifier that `make_feature` is given.
unfoldable pub identifier : Feature → String
identifier ip_packets = "IP_PACKETS"
identifier ip_packets_by_src = "IP_PACKETS_BY_SRC_X_X_X_X"
identifier ip_bytes = "IP_BYTES"
identifier tcp_packets = "TCP_PACKETS"
identifier tcp_bytes = "TCP_BYTES"
identifier udp_packets = "UDP_PACKETS"
identifier udp_bytes = "UDP_BYTES"
identifier rtp_packets = "RTP_PACKETS_X"
identifier rtp_bytes = "RTP_BYTES_X"
identifier lost_rtp_packets = "LOST_RTP_PACKETS_X"
identifier lost_rtp_frames = "LOST_RTP_FRAMES_X"
identifier src_udp_packets = "SRC_UDP_PACKETS_X"
identifier src_udp_bytes = "SRC_UDP_BYTES_X"
identifier src_tcp_packets = "SRC_TCP_PACKETS_X"
identifier src_tcp_bytes = "SRC_TCP_BYTES_X"
identifier src_rtp_packets = "SRC_RTP_PACKETS_X_Y"
identifier src_rtp_bytes = "SRC_RTP_BYTES_X_Y"
identifier src_lost_rtp_packets = "SRC_LOST_RTP_PACKETS_X_Y"
identifier src_lost_rtp_frames = "SRC_LOST_RTP_FRAMES_X_Y"
identifier dst_udp_packets = "DST_UDP_PACKETS_X"
identifier dst_udp_bytes = "DST_UDP_BYTES_X"
identifier dst_tcp_packets = "DST_TCP_PACKETS_X"
identifier dst_tcp_bytes = "DST_TCP_BYTES_X"
identifier dst_rtp_packets = "DST_RTP_PACKETS_X_Y"
identifier dst_rtp_bytes = "DST_RTP_BYTES_X_Y"
identifier dst_lost_rtp_packets = "DST_LOST_RTP_PACKETS_X_Y"
identifier dst_lost_rtp_frames = "DST_LOST_RTP_FRAMES_X_Y"

-- The evaluator that `make_feature` is given.
unfoldable pub evaluator : ByteOrder → Feature → Evaluator
evaluator o ip_packets = Plain.ip_packets o
evaluator o ip_packets_by_src = Plain.ip_packets_by_src o
evaluator o ip_bytes = Plain.ip_bytes o
evaluator o tcp_packets = Plain.tcp_packets o
evaluator o tcp_bytes = Plain.tcp_bytes o
evaluator o udp_packets = Plain.udp_packets o
evaluator o udp_bytes = Plain.udp_bytes o
evaluator o rtp_packets = Media.rtp_packets o
evaluator o rtp_bytes = Media.rtp_bytes o
evaluator o lost_rtp_packets = Media.lost_rtp_packets o
evaluator o lost_rtp_frames = Media.lost_rtp_frames o
evaluator o src_udp_packets = Src.src_udp_packets o
evaluator o src_udp_bytes = Src.src_udp_bytes o
evaluator o src_tcp_packets = Src.src_tcp_packets o
evaluator o src_tcp_bytes = Src.src_tcp_bytes o
evaluator o src_rtp_packets = Src.src_rtp_packets o
evaluator o src_rtp_bytes = Src.src_rtp_bytes o
evaluator o src_lost_rtp_packets = Src.src_lost_rtp_packets o
evaluator o src_lost_rtp_frames = Src.src_lost_rtp_frames o
evaluator o dst_udp_packets = Dst.dst_udp_packets o
evaluator o dst_udp_bytes = Dst.dst_udp_bytes o
evaluator o dst_tcp_packets = Dst.dst_tcp_packets o
evaluator o dst_tcp_bytes = Dst.dst_tcp_bytes o
evaluator o dst_rtp_packets = Dst.dst_rtp_packets o
evaluator o dst_rtp_bytes = Dst.dst_rtp_bytes o
evaluator o dst_lost_rtp_packets = Dst.dst_lost_rtp_packets o
evaluator o dst_lost_rtp_frames = Dst.dst_lost_rtp_frames o

-- The arguments of `_add_features` in `features_load`.
unfoldable pub features_load : List Feature
features_load =
    ip_packets ∷ ip_packets_by_src ∷ ip_bytes ∷ tcp_packets ∷ tcp_bytes ∷ udp_packets ∷ udp_bytes
    ∷ rtp_packets ∷ rtp_bytes ∷ lost_rtp_packets ∷ lost_rtp_frames ∷ src_udp_packets ∷ src_udp_bytes
    ∷ src_tcp_packets ∷ src_tcp_bytes ∷ src_rtp_packets ∷ src_rtp_bytes ∷ src_lost_rtp_packets
    ∷ src_lost_rtp_frames ∷ dst_udp_packets ∷ dst_udp_bytes ∷ dst_tcp_packets ∷ dst_tcp_bytes
    ∷ dst_rtp_packets ∷ dst_rtp_bytes ∷ dst_lost_rtp_packets ∷ dst_lost_rtp_frames ∷ []
