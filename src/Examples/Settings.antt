-- ===== src/Examples/Settings.antt =====
-- The configuration, the command line and the pages.
use rusty_kaspa_stratum.Shared.{
  ℕ, ◌≤◌, ◌++◌, arith, ◌≡◌, refl, Bool, true, false, Option, none, some, List, [], ◌∷◌, Text, codes,
  Result, ok, err, all,
}
use rusty_kaspa_stratum.Shared
use rusty_kaspa_stratum.Config.{
  InstanceConfig, GlobalConfig, BridgeConfig, BridgeConfigRaw, default_instance, from_yaml,
}
use rusty_kaspa_stratum.Config.Ports.{
  normalize_port, bind_addr_from_port, bind_addr_for_operator_http, http_operator_dashboard_origin,
}
use rusty_kaspa_stratum.Config.Spec.{parse_instance_spec, split_once}
use rusty_kaspa_stratum.Numerals.{from_str_radix, digits, to_digit}
use rusty_kaspa_stratum.Config.Cli.{Cli, apply_cli_overrides}
use rusty_kaspa_stratum.Config.Valid.Overrides.{IsStartable, apply_cli_overrides-from_yaml}
use rusty_kaspa_stratum.Stratum.LineCodec.{char_len, byte_len}
use rusty_kaspa_stratum.Http.Access
use rusty_kaspa_stratum.Http.Access.{OpsConfig, crashed, check_config_route_access}
use rusty_kaspa_stratum.Http.Access.Rate.{
  Post, recent, accepted_posts, check_config_route_access_bounded,
}
use rusty_kaspa_stratum.Http.Access.Headers.{check_config_route_access_crashed}

abbrev global : GlobalConfig
global = record {
  kaspad_address = codes "localhost:16110";
  block_wait_time = 1000;
  print_stats = true;
  log_to_file = true;
  health_check_port = [];
  web_dashboard_port = [];
  var_diff = true;
  shares_per_min = 20;
  var_diff_stats = false;
  extranonce_size = 0;
  pow2_clamp = false;
  approximate_geo_lookup = false;
  coinbase_tag_suffix = none;
}

abbrev raw : BridgeConfigRaw
raw = record {
  global = global;
  instances = none;
  stratum_port = some (codes " 5556 ");
  min_share_diff = none;
  prom_port = none;
}

abbrev read : BridgeConfig
read = record {
  global = global;
  instances = record default_instance { stratum_port = codes ":5556" } ∷ [];
}

abbrev no_flags : Cli
no_flags = record {
  kaspad_address = none;
  block_wait_time = none;
  print_stats = none;
  log_to_file = none;
  health_check_port = none;
  web_dashboard_port = none;
  var_diff = none;
  shares_per_min = none;
  var_diff_stats = none;
  extranonce_size = none;
  pow2_clamp = none;
  coinbase_tag_suffix = none;
  approximate_geo_lookup = none;
  stratum_port = none;
  min_share_diff = none;
  prom_port = none;
  instances = [];
  instance_log_to_file = none;
  instance_var_diff = none;
  instance_shares_per_min = none;
  instance_var_diff_stats = none;
  instance_pow2_clamp = none;
}

abbrev specs : List Text
specs = codes "port=5555,diff=8192" ∷ codes ":5557, diff = 4 ,log=Yes" ∷ []

abbrev specified : List InstanceConfig
specified =
    record default_instance { stratum_port = codes ":5555"; min_share_diff = 8192 }
    ∷ record default_instance {
      stratum_port = codes ":5557";
      min_share_diff = 4;
      log_to_file = some true;
    }
    ∷ []

from_yaml_test : from_yaml raw ≡ ok read
unfolding from_yaml Shared.trim normalize_port Shared.starts_with
from_yaml_test = refl

apply_cli_overrides-from_yaml_example :
    IsStartable (record no_flags { instances = specs }) specified
unfolding from_yaml apply_cli_overrides parse_instance_spec normalize_port Shared.trim
    Shared.starts_with split_once from_str_radix digits to_digit
apply_cli_overrides-from_yaml_example =
    apply_cli_overrides-from_yaml raw (record no_flags { instances = specs }) read
      (record read { instances = specified }) refl refl

bind_addr_test :
    (bind_addr_from_port (codes "5555") ≡ codes "0.0.0.0:5555")
    × (bind_addr_for_operator_http (codes " :3030") ≡ codes "127.0.0.1:3030")
    × (http_operator_dashboard_origin (codes "0.0.0.0:3030")
        ≡ some (codes "http://127.0.0.1:3030/"))
unfolding bind_addr_from_port Shared.trim Shared.starts_with bind_addr_for_operator_http
    http_operator_dashboard_origin
bind_addr_test = (refl, refl, refl)

abbrev ops : OpsConfig
ops = record {
  localhost_only = false;
  ops_bearer = some (codes "t");
  ops_csrf = none;
  rate_per_min = some 2;
}

abbrev good_request : List Text
good_request = codes "POST /api/config HTTP/1.1" ∷ codes "authorization: Bearer t" ∷ []

abbrev post : ℕ → Post
post at = record { at = at; request = good_request; peer_ip = codes "::1"; is_loopback = true }

abbrev posts : List Post
posts = post 0 ∷ post 1 ∷ post 2 ∷ post 70000000000 ∷ []

check_config_route_access_bounded_example :
    recent 70000000000 (accepted_posts ops (codes "::1") posts []) ≤ 2
check_config_route_access_bounded_example =
    check_config_route_access_bounded ops 2 (codes "::1") 70000000000 posts refl (omega arith)

accepted_posts_test : accepted_posts ops (codes "::1") posts [] ≡ 0 ∷ 1 ∷ 70000000000 ∷ []
unfolding accepted_posts byte_len char_len Shared.trim_end_matches Shared.trim_start_matches
    Shared.is_whitespace Shared.get Shared.insert
accepted_posts_test = refl

-- A header between the request line and that of the token.
check_config_route_access_crashed_example :
    check_config_route_access ops
      (codes "GET /api/config HTTP/1.1"
        ∷ codes "Host: bridge"
        ∷ (codes "X-Operator: R" ++ 0xe9 ∷ codes "mi")
        ∷ codes "Authorization: Bearer t"
        ∷ [])
      (codes "::1")
      true
      false
      5
      []
    ≡ (crashed, [])
unfolding byte_len char_len Shared.trim_end_matches Access.header_value Access.find_header
    Access.split_at Shared.trim_start_matches
check_config_route_access_crashed_example =
    check_config_route_access_crashed ops (codes "t")
      (codes "GET /api/config HTTP/1.1" ∷ codes "Host: bridge" ∷ [])
      (codes "X-Operator: R" ++ 0xe9 ∷ codes "mi") (codes "X-Operator: R") (codes "mi") 0xe9 5
      (codes "Authorization: Bearer t" ∷ []) (codes "::1") false [] refl refl refl (omega arith)
      (omega arith)
