-- ===== src/Shares/Stats.antt =====
-- bridge/src/share_handler/work_stats.rs and the part of lifecycle.rs that keeps the statistics of
-- workers. The counters are `i64`s that only count up from 0, and are natural numbers here. `F`
-- stands for `f64`.
use rusty_kaspa_stratum.Shared.{ℕ, Option, none, HashMap, text_key, Text}
use rusty_kaspa_stratum.Dedupe.Submits.{DuplicateSubmitGuard}

pub record WorkStats (F : Type 0) : Type 0 where
  pub blocks_found : ℕ
  pub shares_found : ℕ
  pub shares_diff : F
  pub stale_shares : ℕ
  pub invalid_shares : ℕ
  pub worker_name : Text
  pub start_time : ℕ
  pub last_share : ℕ
  pub var_diff_start_time : Option ℕ
  pub var_diff_shares_found : ℕ
  pub var_diff_window : ℕ
  pub min_diff : F

-- `WorkStats::new`, at the time `now`; `zero` is 0.0
unfoldable pub new_stats : {F : Type 0} → F → Text → ℕ → WorkStats F
new_stats zero worker_name now = record {
  blocks_found = 0;
  shares_found = 0;
  shares_diff = zero;
  stale_shares = 0;
  invalid_shares = 0;
  worker_name = worker_name;
  start_time = now;
  last_share = now;
  var_diff_start_time = none;
  var_diff_shares_found = 0;
  var_diff_window = 0;
  min_diff = zero;
}

pub record ShareHandler (F : Type 0) : Type 0 where
  pub stats : HashMap Text (WorkStats F)
  pub overall : WorkStats F
  pub duplicate_submit_guard : DuplicateSubmitGuard
