-- ===== src/Jobs/NewBlock.antt =====
-- bridge/src/stratum/client_handler/job_dispatch/new_block_job.rs: a job for a
-- client when the node has a new block.
use rusty_kaspa_stratum.Shared.{
  ℕ, ◌-◌, Bool, ◌&&◌, Option, none, some, List, codes, if◌then◌else◌, ltb, ◌>>=◌, ◌>>◌, pure, fail,
  gets, is_empty, contains_text,
}
use rusty_kaspa_stratum.External.{External, Block}
use rusty_kaspa_stratum.Mining.State.{KaspaDiff}
use rusty_kaspa_stratum.Jobs.{
  Dispatcher, Task, returned, send_client_diff, fetch_template, store_job, initialize, set_diff,
  after_send_work, client_timeout, disconnect_client,
}
use rusty_kaspa_stratum.Jobs.Params.{is_iceriver, new_block_params, send_work}
use rusty_kaspa_stratum.Shares.Lifecycle.{
  set_client_vardiff, get_client_vardiff, start_client_vardiff,
}
use rusty_kaspa_stratum.Submit.Session.{record_metric, error_no_miner_address}

module _ {x : External} (d : Dispatcher x) where
  -- A client without a wallet gets nothing, and is disconnected if it has been there for more than
  -- `client_timeout`.
  unfoldable pub require_wallet : ℕ → Task x (Unit {0})
  require_wallet now = do
    ctx ← gets (λ s. s.ctx)
    (if is_empty ctx.wallet_addr
        then (if ltb client_timeout (now - ctx.state.connect_time)
            then (do record_metric error_no_miner_address; disconnect_client; fail returned)
            else fail returned)
        else pure tt)

  abbrev pub is_lost : x.Float → x.Float → Bool
  is_lost var_diff current_diff = x.le var_diff x.zero && x.positive current_diff

  -- The difficulty of the worker; one that was lost is put back to the current one.
  unfoldable pub recover_vardiff : ℕ → x.Float → Task x x.Float
  recover_vardiff now current_diff = do
    var_diff ← get_client_vardiff
    (if is_lost var_diff current_diff
        then (do set_client_vardiff now current_diff; start_client_vardiff now; pure current_diff)
        else pure var_diff)

  unfoldable pub change_diff : ℕ → KaspaDiff x.Float → x.Float → Task x (Unit {0})
  unfolding set_diff
  change_diff now stratum_diff var_diff =
      if x.ne var_diff stratum_diff.diff_value
      then (do
        set_diff d stratum_diff var_diff
        send_client_diff var_diff
        start_client_vardiff now)
      else pure tt

  abbrev pub update_known : ℕ → Option (KaspaDiff x.Float) → Task x (Unit {0})
  update_known now none = pure tt
  update_known now (some stratum_diff) = do
    var_diff ← recover_vardiff now stratum_diff.diff_value
    change_diff now stratum_diff var_diff

  -- The difficulty of a client: its first one, or the one that its shares have led to.
  unfoldable pub update_diff : ℕ → Task x (Unit {0})
  unfolding initialize
  update_diff now = do
    state ← gets (λ s. s.ctx.state)
    (if state.initialized then update_known now state.stratum_diff else (do
      initialize d
      send_client_diff d.min_diff
      set_client_vardiff now d.min_diff
      pure tt))

  -- The parameters and the message; the name in it is looked for as it is written.
  unfoldable pub notify_new_block : Block x → ℕ × List ℕ → Task x (Unit {0})
  notify_new_block block job s =
      let app = s.ctx.remote_app in
      let params =
        new_block_params x (is_iceriver (d.to_lowercase app)) s.ctx.state.use_big_job job.0 job.1
          (x.timestamp block.header) in
      let (r, ctx') = send_work x (contains_text app (codes "IceRiver")) job.0 params s.ctx in
      after_send_work d r (record s { ctx = ctx' })

  unfoldable pub new_block_job_task : ℕ → Task x (Unit {0})
  new_block_job_task now = do
    require_wallet now
    block ← fetch_template d
    job ← store_job d block
    update_diff now
    notify_new_block block job
