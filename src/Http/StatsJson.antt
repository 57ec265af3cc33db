-- ===== src/Http/StatsJson.antt =====
-- bridge/src/prom/http/stats_json: the report of the dashboard, from the metrics that the prometheus
-- registry gathers. Modelled are the workers, the mined blocks and the totals; the gauges of the
-- network, the rates and the order of the report are left out.
pub mod Workers
pub mod Shown
pub mod Report
use rusty_kaspa_stratum.Shared.{
  ℕ, ◌+◌, ◌-◌, ◌^◌, Bool, true, false, not, ◌&&◌, ◌||◌, Option, none, some, List, [], ◌∷◌, ◌++◌,
  Text, codes, if◌then◌else◌, leb, ltb, is_empty, HashMap, get, insert, unwrap_or, text_key,
  text_eq, contains,
}
use rusty_kaspa_stratum.External.{External}

-- prometheus::proto: a family has a name and metrics, a metric has labels and a value.
pub record LabelPair : Type 0 where
  pub label_name : Text
  pub label_value : Text

pub record Sample (F : Type 0) : Type 0 where
  pub labels : List LabelPair
  pub value : F

pub record MetricFamily (F : Type 0) : Type 0 where
  pub family_name : Text
  pub samples : List (Sample F)

-- The families that are read.
pub data Family : Type 0 where
  mined_blocks blocks_mined share_diff valid_share invalid_share : Family
  worker_disconnect worker_job accepted_by_node not_confirmed_blue : Family
  balance_by_wallet worker_errors start_time current_difficulty : Family

abbrev pub family_names : HashMap Text Family
family_names =
    (codes "ks_mined_blocks_gauge", mined_blocks)
    ∷ (codes "ks_blocks_mined", blocks_mined)
    ∷ (codes "ks_valid_share_diff_counter", share_diff)
    ∷ (codes "ks_valid_share_counter", valid_share)
    ∷ (codes "ks_invalid_share_counter", invalid_share)
    ∷ (codes "ks_worker_disconnect_counter", worker_disconnect)
    ∷ (codes "ks_worker_job_counter", worker_job)
    ∷ (codes "ks_blocks_accepted_by_node", accepted_by_node)
    ∷ (codes "ks_blocks_not_confirmed_blue", not_confirmed_blue)
    ∷ (codes "ks_balance_by_wallet_gauge", balance_by_wallet)
    ∷ (codes "ks_worker_errors", worker_errors)
    ∷ (codes "ks_worker_start_time", start_time)
    ∷ (codes "ks_worker_current_difficulty", current_difficulty)
    ∷ []

pub record WorkerInfo (F : Type 0) : Type 0 where
  pub instance_id : Text
  pub worker : Text
  pub wallet : Text
  pub shares : ℕ
  pub stale : ℕ
  pub invalid : ℕ
  pub duplicate_shares : ℕ
  pub weak_shares : ℕ
  pub blocks : ℕ
  pub disconnects : ℕ
  pub jobs : ℕ
  pub balance_kas : Option F
  pub errors : ℕ
  pub blocks_accepted_by_node : ℕ
  pub blocks_not_confirmed_blue : ℕ
  pub last_seen : Option ℕ
  pub status : Option Text
  pub current_difficulty_of : Option F
  pub session_uptime : Option ℕ

-- u64::saturating_add
unfoldable pub saturating_add : ℕ → ℕ → ℕ
saturating_add a b = if leb (a + b) (2 ^ 64 - 1) then a + b else 2 ^ 64 - 1

-- The value of the last label of a name, or an empty text.
unfoldable pub label_of : Text → List LabelPair → Text → Text
label_of name [] found = found
label_of name (label ∷ rest) found =
    label_of name rest (if text_eq label.label_name name then label.label_value else found)

unfoldable pub new_worker_info : {F : Type 0} → Text → Text → Text → WorkerInfo F
new_worker_info id worker wallet = record {
  instance_id = id;
  worker = worker;
  wallet = wallet;
  shares = 0;
  stale = 0;
  invalid = 0;
  duplicate_shares = 0;
  weak_shares = 0;
  blocks = 0;
  disconnects = 0;
  jobs = 0;
  balance_kas = none;
  errors = 0;
  blocks_accepted_by_node = 0;
  blocks_not_confirmed_blue = 0;
  last_seen = none;
  status = none;
  current_difficulty_of = none;
  session_uptime = none;
}

-- format!("{}:{}:{}", instance, worker_key, wallet), and "{instance}:{wallet}"
unfoldable pub wallet_key : Text → Text → Text
wallet_key id wallet = id ++ b':' ∷ wallet

unfoldable pub worker_map_key : Text → Text → Text → Text
worker_map_key id worker wallet = id ++ b':' ∷ (worker ++ b':' ∷ wallet)

unfoldable pub parse_worker_labels : List LabelPair → Text × Text × Text
parse_worker_labels labels = (
  label_of (codes "instance") labels [],
  label_of (codes "worker") labels [],
  label_of (codes "wallet") labels [],
)

unfoldable pub parse_instance_wallet_labels : List LabelPair → Text × Text
parse_instance_wallet_labels labels =
    (label_of (codes "instance") labels [], label_of (codes "wallet") labels [])
