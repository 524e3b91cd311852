-- ===== src/Record.antt =====
-- `record_t` of lib/lib_descs.h: what one packet adds to each feature of a listener.
use ntrt.Prelude.{ℕ, List, replicate}
use ntrt.Clock.{Mtime}

pub record Record : Type 0 where
  pub items : List ℕ
  pub listener_id : ℕ
  pub timestamp : Mtime

-- NTRT_MAX_FEATURES_NUM.
abbrev pub max_features_num : ℕ
max_features_num = 64

-- A record after `memset(record, 0, sizeof(record_t))`.
unfoldable pub zero_record : Record
zero_record = record {
  items = replicate max_features_num 0;
  listener_id = 0;
  timestamp = record { tv_sec = 0; tv_usec = 0 };
}
