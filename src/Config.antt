-- ===== src/Config.antt =====
-- bridge/src/config/app_config.rs: the configuration and what is checked when it is read. The text is
-- parsed by serde_yaml; what it hands to the functions of this file is `BridgeConfigRaw`. Durations are
-- in milliseconds.
pub mod Ports
pub mod Spec
pub mod Cli
pub mod Valid
use rusty_kaspa_stratum.Shared.{
  ℕ, zero, suc, ◌+◌, Bool, true, false, ◌||◌, Option, none, some, List, [], ◌∷◌, ◌++◌, Text, codes,
  if◌then◌else◌, is_empty, trim, Result, ok, err, contains, text_key, unwrap_or,
}
use rusty_kaspa_stratum.Numerals.Print.{to_string}
use rusty_kaspa_stratum.Config.Ports.{normalize_port}

pub record InstanceConfig : Type 0 where
  pub stratum_port : Text
  pub min_share_diff : ℕ
  pub prom_port : Option Text
  pub log_to_file : Option Bool
  pub block_wait_time : Option ℕ
  pub extranonce_size : Option ℕ
  pub var_diff : Option Bool
  pub shares_per_min : Option ℕ
  pub var_diff_stats : Option Bool
  pub pow2_clamp : Option Bool

pub record GlobalConfig : Type 0 where
  pub kaspad_address : Text
  pub block_wait_time : ℕ
  pub print_stats : Bool
  pub log_to_file : Bool
  pub health_check_port : Text
  pub web_dashboard_port : Text
  pub var_diff : Bool
  pub shares_per_min : ℕ
  pub var_diff_stats : Bool
  pub extranonce_size : ℕ
  pub pow2_clamp : Bool
  pub approximate_geo_lookup : Bool
  pub coinbase_tag_suffix : Option Text

pub record BridgeConfig : Type 0 where
  pub global : GlobalConfig
  pub instances : List InstanceConfig

-- The ports of the single-instance mode as they stand in the file; those of `instances` have been
-- through `deserialize_port`.
pub record BridgeConfigRaw : Type 0 where
  pub global : GlobalConfig
  pub instances : Option (List InstanceConfig)
  pub stratum_port : Option Text
  pub min_share_diff : Option ℕ
  pub prom_port : Option Text

abbrev pub non_empty : Text → Option Text
non_empty s = if is_empty s then none else some s

unfoldable pub deserialize_optional_port : Option Text → Option Text
deserialize_optional_port none = none
deserialize_optional_port (some s) = non_empty (normalize_port s)

unfoldable pub deserialize_coinbase_tag_suffix : Option Text → Option Text
deserialize_coinbase_tag_suffix none = none
deserialize_coinbase_tag_suffix (some s) = non_empty (trim s)

abbrev pub default_instance : InstanceConfig
default_instance = record {
  stratum_port = codes ":5555";
  min_share_diff = 8192;
  prom_port = none;
  log_to_file = none;
  block_wait_time = none;
  extranonce_size = none;
  var_diff = none;
  shares_per_min = none;
  var_diff_stats = none;
  pow2_clamp = none;
}

abbrev pub missing_port : ℕ → Text
missing_port idx = codes "Instance " ++ (to_string idx ++ codes " missing required 'stratum_port'")

-- Each instance has a port; `idx` counts them.
unfoldable pub check_ports : ℕ → List InstanceConfig → Result Text (List InstanceConfig)
check_ports idx [] = ok []
check_ports idx (instance ∷ instances) =
    let rest = check_ports (idx + 1) instances in
    if is_empty instance.stratum_port
    then err (missing_port idx)
    else elim rest [ err e ↦ err e | ok checked ↦ ok (instance ∷ checked) ]

abbrev pub not_empty : List InstanceConfig → Result Text (List InstanceConfig)
not_empty [] = err (codes "instances array cannot be empty")
not_empty (instance ∷ instances) = check_ports 0 (instance ∷ instances)

unfoldable pub single_instance : BridgeConfigRaw → InstanceConfig
unfolding deserialize_optional_port
single_instance raw = record default_instance {
  prom_port = deserialize_optional_port raw.prom_port;
  stratum_port =
      unwrap_or (deserialize_optional_port raw.stratum_port) default_instance.stratum_port;
  min_share_diff = unwrap_or raw.min_share_diff default_instance.min_share_diff;
}

abbrev pub instances_of :
    BridgeConfigRaw → Option (List InstanceConfig) → Result Text (List InstanceConfig)
instances_of raw (some instances) = not_empty instances
instances_of raw none = ok (single_instance raw ∷ [])

-- The first port that stands twice, over the set of those before it.
unfoldable pub duplicate_port : List Text → List InstanceConfig → Option Text
duplicate_port ports [] = none
duplicate_port ports (instance ∷ instances) =
    let rest = duplicate_port (instance.stratum_port ∷ ports) instances in
    if contains ports instance.stratum_port then some instance.stratum_port else rest

abbrev pub without_duplicates :
    Text → GlobalConfig → List InstanceConfig → Option Text → Result Text BridgeConfig
without_duplicates message global instances none =
    ok (record { global = global; instances = instances })
without_duplicates message global instances (some port) = err (message ++ port)

abbrev pub finish : GlobalConfig → Result Text (List InstanceConfig) → Result Text BridgeConfig
finish global (err e) = err e
finish global (ok instances) =
    without_duplicates (codes "Duplicate stratum_port: ") global instances
      (duplicate_port [] instances)

-- `BridgeConfig::from_yaml` after `serde_yaml::from_str`
unfoldable pub from_yaml : BridgeConfigRaw → Result Text BridgeConfig
unfolding check_ports single_instance duplicate_port
from_yaml raw = finish raw.global (instances_of raw raw.instances)
