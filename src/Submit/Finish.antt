-- ===== src/Submit/Finish.antt =====
-- bridge/src/share_handler/submit/finish.rs: the share is counted and answered.
pub mod Counts
pub mod Remembers
use rusty_kaspa_stratum.Shared.{
  ℕ, ◌+◌, Bool, true, false, Option, none, some, Exec, Result, ok, err, ◌>>=◌, ◌>>◌, pure, gets,
  ignore,
}
use rusty_kaspa_stratum.External.{External}
use rusty_kaspa_stratum.Mining.State.{MiningState, KaspaDiff}
use rusty_kaspa_stratum.Rpc.{JsonRpcEvent}
use rusty_kaspa_stratum.Stratum.Context.{reply}
use rusty_kaspa_stratum.Dedupe.Submits.{set_outcome, low_diff, accepted}
use rusty_kaspa_stratum.Shares.Stats.{WorkStats}
use rusty_kaspa_stratum.Submit.Session.{
  Session, Run, SubmitRunError, reply_failed, on_ctx, set_guard, record_metric, get_create_stats,
  update_stats, update_overall, weak_share, share_found,
}
use rusty_kaspa_stratum.Submit.Parse.{PreparedSubmit}
use rusty_kaspa_stratum.Submit.Duplicate.{success, try_reply_low_diff}

abbrev pub hash_value_or : {F : Type 0} → Option (KaspaDiff F) → F → F
hash_value_or none zero = zero
hash_value_or (some d) zero = d.hash_value

-- A share for the pool, in the entry of its worker.
abbrev pub credited : (x : External) → ℕ → x.Float → WorkStats x.Float → WorkStats x.Float
credited x now hash_value w = record w {
  shares_found = w.shares_found + 1;
  var_diff_shares_found = w.var_diff_shares_found + 1;
  shares_diff = x.add w.shares_diff hash_value;
  last_share = now;
}

module _ {x : External} (now : ℕ) (event : JsonRpcEvent x.Number) (prep : PreparedSubmit x) where
  unfoldable pub weak_share_found : Run x SubmitRunError (Unit {0})
  weak_share_found = do
    key ← get_create_stats now
    update_stats key (λ w. record w { invalid_shares = w.invalid_shares + 1 })
    update_overall (λ w. record w { invalid_shares = w.invalid_shares + 1 })
    record_metric weak_share
    try_reply_low_diff event.id
    set_guard (λ g. set_outcome g prep.submit_key now low_diff)

  unfoldable pub valid_share_found : Run x SubmitRunError (Unit {0})
  valid_share_found = do
    _ ← get_create_stats now
    key ← get_create_stats now
    hash_value ← gets (λ s. hash_value_or s.ctx.state.stratum_diff x.zero)
    update_stats key (credited x now hash_value)
    update_overall (λ w. record w { shares_found = w.shares_found + 1 })
    record_metric (share_found hash_value)
    set_guard (λ g. set_outcome g prep.submit_key now accepted)
    on_ctx (λ _. reply_failed) (reply (success event.id))

  unfoldable pub after_pow_loop : Bool → Run x SubmitRunError (Unit {0})
  after_pow_loop true = weak_share_found
  after_pow_loop false = valid_share_found
