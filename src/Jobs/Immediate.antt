-- ===== src/Jobs/Immediate.antt =====
-- bridge/src/stratum/client_handler/job_dispatch/immediate_job.rs, and the check of its caller in
-- client_handler/mod.rs: the first job of a client, right after it was authorized.
use rusty_kaspa_stratum.Shared.{
  ℕ, Bool, List, if◌then◌else◌, ◌>>=◌, ◌>>◌, pure, gets, modify, is_empty,
}
use rusty_kaspa_stratum.External.{External, Block}
use rusty_kaspa_stratum.Mining.State.{set_last_header}
use rusty_kaspa_stratum.Jobs.{
  Dispatcher, Task, on_state, record_worker, send_client_diff, run_diff_tasks, fetch_template,
  store_job, initialize, after_send_work,
}
use rusty_kaspa_stratum.Jobs.Params.{is_iceriver, immediate_params, send_work}
use rusty_kaspa_stratum.Shares.Lifecycle.{set_client_vardiff, diff_or}
use rusty_kaspa_stratum.Submit.Session.{Session, worker_difficulty}

module _ {x : External} (d : Dispatcher x) where
  -- The job and the difficulty, up to the pause.
  unfoldable pub prepare_job : ℕ → Task x (Block x × ℕ × List ℕ)
  prepare_job now = do
    block ← fetch_template d
    on_state (λ m. set_last_header m block.header)
    job ← store_job d block
    initialized ← gets (λ s. s.ctx.state.initialized)
    (if initialized then pure tt else initialize d)
    current_diff ← gets (λ s. diff_or d.min_diff s.ctx.state.stratum_diff)
    record_worker (worker_difficulty current_diff)
    send_client_diff current_diff
    set_client_vardiff now d.min_diff
    pure (block, job.0, job.1)

  -- The parameters and the message.
  unfoldable pub notify_job : Block x × ℕ × List ℕ → Task x (Unit {0})
  notify_job job s =
      let (block, job_id, pre_pow_hash) = job in
      let iceriver = is_iceriver (d.to_lowercase s.ctx.remote_app) in
      let params =
        immediate_params x iceriver s.ctx.state.use_big_job job_id pre_pow_hash
          (x.timestamp block.header) in
      let (r, ctx') = send_work x iceriver job_id params s.ctx in
      after_send_work d r (record s { ctx = ctx' })

  -- In the pause of 100 ms the spawned tasks run, if `scheduled`.
  unfoldable pub send_immediate_job_task : Bool → ℕ → Task x (Unit {0})
  send_immediate_job_task scheduled now = do
    job ← prepare_job now
    modify (λ s. if scheduled then run_diff_tasks s else s)
    notify_job job

  -- A client without a wallet, or that is disconnected, is passed over.
  unfoldable pub send_immediate_job_to_client : Bool → ℕ → Session x → Session x
  send_immediate_job_to_client scheduled now s =
      let sent = (send_immediate_job_task scheduled now s).1 in
      if is_empty s.ctx.wallet_addr then s else if s.ctx.disconnecting then s else sent
