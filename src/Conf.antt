-- ===== src/Conf.antt =====
-- sys/sys_confs.c, and the lookups of dmap/dmap_sel.c: how an identifier of the configuration is
-- resolved to a feature, with the numbers that it holds, and how a listener is made of its section.
-- sscanf(3) and the ini parser are parameters. `none` of an option of an option is a fault: a row
-- with a NULL item, or a write past an array.
pub mod Resolve
pub mod Section
pub mod Mapped
pub mod Listeners
mod Tests
use Prim.Native.String.{String}
use text.Mathlib.Text as Text
use ntrt.Prelude.{
  ℕ, zero, suc, ◌+◌, ◌-◌, ◌*◌, ◌%◌, ◌^◌, Bool, true, false, Option, none, some, List, [], ◌∷◌, ◌==◌,
  if◌then◌else◌, length,
}
use ntrt.Prelude.Int.{ℤ, pos, negsuc}
use ntrt.Record.{max_features_num}
use ntrt.Feature.Monad.{Container}
use ntrt.Feature.Table.{Feature, identifier, features_load}
use ntrt.Group.{Prototype}
use ntrt.Dmap.{Row, visit_all, table_init, add_row}
use ntrt.Slist.{slist_append}
use ntrt.Listener.{EvaluatorItem}

-- `dmap_get_feature_by_identifier` and `dmap_get_groupcounter_prototype_by_identifier`, on the rows
-- that the iteration of the table visits.
unfoldable pub find_named {ℓ} :
    {A : Type ℓ} → (A → String) → String → List (ℕ × Row A) → Option (Option A)
find_named name id [] = some none
find_named name id ((_, row) ∷ rows) =
    let rest : Option (Option _) = find_named name id rows in
    elim row.item [ none ↦ none | some a ↦ if Text.◌==◌ id (name a) then some (some a) else rest ]

-- `_add_features`: each feature is added to the table.
unfoldable pub add_features :
    List Feature → List (Option (Row Feature)) → List (Option (Row Feature))
unfolding add_row
add_features [] rows = rows
add_features (f ∷ fs) rows =
    add_features fs (add_row none rows (some (record { item = some f; has_dtor = true }))).1

-- The table of the features after its initialisation and `features_load`.
unfoldable pub loaded : List (Option (Row Feature))
unfolding add_features features_load table_init
loaded = add_features features_load (table_init max_features_num)

-- The fields that the conversions of one sscanf are stored in. The address is a local array.
pub data Target : Type 0 where
  port_num payload_type port_num_payload_type src_ipv4 : Target

-- The container after the conversions made, of which there may be fewer than the format has; `none`
-- is a fault. The address is read into a local `uint8_t ip[4]`, of which each `%d` is given a cell as
-- if it were an int of four bytes: from the second conversion on this writes past the array.
unfoldable pub store : Target → List ℤ → Container → Option Container
store port_num (n ∷ _) c = some (record c { port_num = n })
store payload_type (n ∷ _) c = some (record c { payload_type = n })
store port_num_payload_type (n ∷ []) c = some (record c { port_num = n })
store port_num_payload_type (n ∷ p ∷ _) c = some (record c { port_num = n; payload_type = p })
store src_ipv4 (_ ∷ _ ∷ _) c = none
store _ _ c = some c

-- One `if(sscanf(identifier, format, ...) == count) return dmap_get_feature_by_identifier(name)`.
pub record Attempt : Type 0 where
  pub format : String
  pub target : Target
  pub count : ℕ
  pub name : String

abbrev attempt : String → Target → ℕ → String → Attempt
attempt format target count name = record {
  format = format;
  target = target;
  count = count;
  name = name;
}

-- The attempts of `_get_feature_by_identifier`, in order.
unfoldable pub attempts : List Attempt
attempts =
    attempt "IP_PACKETS_BY_SRC_%d_%d_%d_%d" src_ipv4 4 "IP_PACKETS_BY_SRC_X_X_X_X"
    ∷ attempt "RTP_PACKETS_%d" port_num 1 "RTP_PACKETS_X"
    ∷ attempt "RTP_BYTES_%d" port_num 1 "RTP_BYTES_X"
    ∷ attempt "LOST_RTP_PACKETS_%d" payload_type 1 "LOST_RTP_PACKETS_X"
    ∷ attempt "LOST_RTP_FRAMES_%d" payload_type 1 "LOST_RTP_FRAMES_X"
    ∷ attempt "SRC_UDP_BYTES_%d" port_num 1 "SRC_UDP_BYTES_X"
    ∷ attempt "SRC_UDP_PACKETS_%d" port_num 1 "SRC_UDP_PACKETS_X"
    ∷ attempt "SRC_TCP_PACKETS_%d" port_num 1 "SRC_TCP_PACKETS_X"
    ∷ attempt "SRC_TCP_BYTES_%d" port_num 1 "SRC_TCP_BYTES_X"
    ∷ attempt "SRC_RTP_PACKETS_%d_%d" port_num_payload_type 2 "SRC_RTP_PACKETS_X_Y"
    ∷ attempt "SRC_RTP_BYTES_%d_%d" port_num_payload_type 2 "SRC_RTP_BYTES_X_Y"
    ∷ attempt "SRC_LOST_RTP_PACKETS_%d_%d" port_num_payload_type 2 "SRC_LOST_RTP_PACKETS_X_Y"
    ∷ attempt "SRC_LOST_RTP_FRAMES_%d_%d" port_num_payload_type 2 "SRC_LOST_RTP_FRAMES_X_Y"
    ∷ attempt "DST_UDP_BYTES_%d" port_num 1 "DST_UDP_BYTES_X"
    ∷ attempt "DST_UDP_PACKETS_%d" port_num 1 "DST_UDP_PACKETS_X"
    ∷ attempt "DST_TCP_PACKETS_%d" port_num 1 "DST_TCP_PACKETS_X"
    ∷ attempt "DST_TCP_BYTES_%d" port_num 1 "DST_TCP_BYTES_X"
    ∷ attempt "DST_RTP_PACKETS_%d_%d" port_num_payload_type 2 "DST_RTP_PACKETS_X_Y"
    ∷ attempt "DST_RTP_BYTES_%d_%d" port_num_payload_type 2 "DST_RTP_BYTES_X_Y"
    ∷ attempt "DST_LOST_RTP_PACKETS_%d_%d" port_num_payload_type 2 "DST_LOST_RTP_PACKETS_X_Y"
    ∷ attempt "DST_LOST_RTP_FRAMES_%d_%d" port_num_payload_type 2 "DST_LOST_RTP_FRAMES_X_Y"
    ∷ []

-- What a resolution gives: the feature, if there is one, and the container.
abbrev pub Resolved : Type 0
Resolved = Option (Option Feature × Container)

-- `sscanf text format` are the values of the conversions that sscanf(3) makes, in order.
module _ (sscanf : String → String → List ℤ) (rows : List (Option (Row Feature))) where
  abbrev by_identifier : String → Option (Option Feature)
  by_identifier id = find_named identifier id (visit_all rows)

  abbrev answer : Option (Option Feature) → Container → Resolved
  answer none c = none
  answer (some f) c = some (f, c)

  -- The attempts one after the other, and the comparison behind them.
  unfoldable pub try_each : List Attempt → String → Container → Resolved
  unfolding find_named visit_all store
  try_each [] id c =
      if Text.◌==◌ "IP_PACKETS" id then answer (by_identifier "IP_PACKETS") c else some (none, c)
  try_each (a ∷ rest) id c =
      let values : List ℤ = sscanf id a.format in
      elim (store a.target values c) [
        | none ↦ none
        | some c' ↦
            let later : Resolved = try_each rest id c' in
            if length values == a.count then answer (by_identifier a.name) c' else later
      ]

  -- `_get_feature_by_identifier`.
  unfoldable pub get_feature_by_identifier : String → Container → Resolved
  unfolding try_each attempts
  get_feature_by_identifier id c = elim (by_identifier id) [
    | none ↦ none
    | some (some f) ↦ some (some f, c)
    | some none ↦ try_each attempts id c
  ]
