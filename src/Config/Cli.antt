-- ===== src/Config/Cli.antt =====
-- bridge/src/cli.rs, `apply_cli_overrides`: the flags of the command line over the configuration. An
-- error is a constructor and not a text; when there is one the program ends.
use rusty_kaspa_stratum.Shared.{
  ℕ, Bool, ◌||◌, Option, none, some, List, [], ◌∷◌, Text, if◌then◌else◌, trim, Result, ok, err,
  is_some, unwrap_or,
}
use rusty_kaspa_stratum.Config.{
  InstanceConfig, GlobalConfig, BridgeConfig, non_empty, duplicate_port,
}
use rusty_kaspa_stratum.Config.Ports.{normalize_port}
use rusty_kaspa_stratum.Config.Spec.{SpecError, parse_instance_spec}

pub record Cli : Type 0 where
  pub kaspad_address : Option Text
  pub block_wait_time : Option ℕ
  pub print_stats : Option Bool
  pub log_to_file : Option Bool
  pub health_check_port : Option Text
  pub web_dashboard_port : Option Text
  pub var_diff : Option Bool
  pub shares_per_min : Option ℕ
  pub var_diff_stats : Option Bool
  pub extranonce_size : Option ℕ
  pub pow2_clamp : Option Bool
  pub coinbase_tag_suffix : Option Text
  pub approximate_geo_lookup : Option Bool
  pub stratum_port : Option Text
  pub min_share_diff : Option ℕ
  pub prom_port : Option Text
  pub instances : List Text
  pub instance_log_to_file : Option Bool
  pub instance_var_diff : Option Bool
  pub instance_shares_per_min : Option ℕ
  pub instance_var_diff_stats : Option Bool
  pub instance_pow2_clamp : Option Bool

pub data CliError : Type 0 where
  single_instance_flags not_one_instance : CliError
  bad_spec : SpecError → CliError
  duplicate_stratum_port : Text → CliError

abbrev pub normalized_or : Option Text → Text → Text
normalized_or none old = old
normalized_or (some port) old = normalize_port port

abbrev pub suffix_or : Option Text → Option Text → Option Text
suffix_or none old = old
suffix_or (some s) old = non_empty (trim s)

abbrev pub replaced {ℓ} : {A : Type ℓ} → Option A → Option A → Option A
replaced none old = old
replaced (some v) old = some v

abbrev pub prom_port_or : Option Text → Option Text → Option Text
prom_port_or none old = old
prom_port_or (some port) old = some (normalize_port port)

unfoldable pub override_global : Cli → GlobalConfig → GlobalConfig
override_global cli g = record g {
  kaspad_address = unwrap_or cli.kaspad_address g.kaspad_address;
  block_wait_time = unwrap_or cli.block_wait_time g.block_wait_time;
  print_stats = unwrap_or cli.print_stats g.print_stats;
  log_to_file = unwrap_or cli.log_to_file g.log_to_file;
  health_check_port = unwrap_or cli.health_check_port g.health_check_port;
  web_dashboard_port = normalized_or cli.web_dashboard_port g.web_dashboard_port;
  var_diff = unwrap_or cli.var_diff g.var_diff;
  shares_per_min = unwrap_or cli.shares_per_min g.shares_per_min;
  var_diff_stats = unwrap_or cli.var_diff_stats g.var_diff_stats;
  extranonce_size = unwrap_or cli.extranonce_size g.extranonce_size;
  pow2_clamp = unwrap_or cli.pow2_clamp g.pow2_clamp;
  coinbase_tag_suffix = suffix_or cli.coinbase_tag_suffix g.coinbase_tag_suffix;
  approximate_geo_lookup = unwrap_or cli.approximate_geo_lookup g.approximate_geo_lookup;
}

-- The flags that `--instance` excludes.
abbrev pub has_single_flags : Cli → Bool
has_single_flags cli =
    is_some cli.stratum_port
    || is_some cli.prom_port
    || is_some cli.instance_log_to_file
    || is_some cli.instance_var_diff
    || is_some cli.instance_shares_per_min
    || is_some cli.instance_var_diff_stats
    || is_some cli.instance_pow2_clamp

abbrev pub cons_instance :
    Result SpecError InstanceConfig
    → Result CliError (List InstanceConfig)
    → Result CliError (List InstanceConfig)
cons_instance (err e) rest = err (bad_spec e)
cons_instance (ok i) (err e) = err e
cons_instance (ok i) (ok is) = ok (i ∷ is)

unfoldable pub parse_specs : Option ℕ → List Text → Result CliError (List InstanceConfig)
parse_specs default_min_share_diff [] = ok []
parse_specs default_min_share_diff (spec ∷ specs) =
    cons_instance (parse_instance_spec spec default_min_share_diff)
      (parse_specs default_min_share_diff specs)

abbrev pub checked_ports :
    GlobalConfig → List InstanceConfig → Option Text → Result CliError BridgeConfig
checked_ports g instances none = ok (record { global = g; instances = instances })
checked_ports g instances (some port) = err (duplicate_stratum_port port)

abbrev pub with_specs :
    GlobalConfig → Result CliError (List InstanceConfig) → Result CliError BridgeConfig
with_specs g (err e) = err e
with_specs g (ok instances) = checked_ports g instances (duplicate_port [] instances)

unfoldable pub override_instance : Cli → InstanceConfig → InstanceConfig
override_instance cli i = record i {
  stratum_port = normalized_or cli.stratum_port i.stratum_port;
  min_share_diff = unwrap_or cli.min_share_diff i.min_share_diff;
  prom_port = prom_port_or cli.prom_port i.prom_port;
  log_to_file = replaced cli.instance_log_to_file i.log_to_file;
  var_diff = replaced cli.instance_var_diff i.var_diff;
  shares_per_min = replaced cli.instance_shares_per_min i.shares_per_min;
  var_diff_stats = replaced cli.instance_var_diff_stats i.var_diff_stats;
  pow2_clamp = replaced cli.instance_pow2_clamp i.pow2_clamp;
}

abbrev pub override_instances : Cli → List InstanceConfig → Result CliError (List InstanceConfig)
override_instances cli (i ∷ []) = ok (override_instance cli i ∷ [])
override_instances cli [] =
    if has_single_flags cli || is_some cli.min_share_diff then err not_one_instance else ok []
override_instances cli (i ∷ j ∷ is) =
    if has_single_flags cli || is_some cli.min_share_diff
    then err not_one_instance
    else ok (i ∷ j ∷ is)

abbrev pub with_instances :
    GlobalConfig → Result CliError (List InstanceConfig) → Result CliError BridgeConfig
with_instances g (err e) = err e
with_instances g (ok instances) = ok (record { global = g; instances = instances })

abbrev pub by_instances :
    Cli → BridgeConfig → GlobalConfig → List Text → Result CliError BridgeConfig
by_instances cli config g [] = with_instances g (override_instances cli config.instances)
by_instances cli config g (spec ∷ specs) =
    if has_single_flags cli
    then err single_instance_flags
    else with_specs g (parse_specs cli.min_share_diff (spec ∷ specs))

unfoldable pub apply_cli_overrides : BridgeConfig → Cli → Result CliError BridgeConfig
unfolding override_global override_instance parse_specs
apply_cli_overrides config cli =
    by_instances cli config (override_global cli config.global) cli.instances
