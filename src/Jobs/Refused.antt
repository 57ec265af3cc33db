-- ===== src/Jobs/Refused.antt =====
-- Clients that get no job.
use rusty_kaspa_stratum.Shared.{
  ℕ, ◌-◌, ◌≡◌, refl, ap, Bool, true, false, List, [], ◌∷◌, ◌++◌, if◌then◌else◌, ok, err, is_empty,
  ltb, Bool-cases, inl, inr, contains_text, starts_with, strip_prefix, codes, Text,
}
use rusty_kaspa_stratum.External.{External, Block}
use rusty_kaspa_stratum.Stratum.Context.{
  StratumContext, disconnected, disconnect, write_data, send, send_notification,
}
use rusty_kaspa_stratum.Rpc.{Value}
use rusty_kaspa_stratum.Jobs.{Dispatcher, returned, client_timeout, fetch_template, after_send_work}
use rusty_kaspa_stratum.Jobs.Params.{send_work}
use rusty_kaspa_stratum.Jobs.Immediate.{notify_job}
use rusty_kaspa_stratum.Jobs.NewBlock.{require_wallet, new_block_job_task, notify_new_block}
use rusty_kaspa_stratum.Submit.Session.{
  Session, record_metric, error_no_miner_address, error_invalid_address_fmt,
  error_failed_block_fetch, error_failed_send_work,
}

module _ {x : External} where
  send_work_disconnecting :
      (minimal : Bool) (job_id : ℕ) (params : List (Value x.Number)) (ctx : StratumContext x)
      → ctx.disconnecting ≡ true
      → send_work x minimal job_id params ctx ≡ (err disconnected, ctx)
  unfolding send_work send send_notification write_data
  send_work_disconnecting true job_id params ctx h = simp h refl
  send_work_disconnecting false job_id params ctx h = simp h refl

module _ {x : External} (d : Dispatcher x) where
  -- A client that has given no wallet gets no job when a new block is there, and the node is asked for
  -- no template: its session stays as it is, but that a client which has been there for more than
  -- `client_timeout` is disconnected, which is counted.
  new_block_job_task_no_wallet :
      (now : ℕ) (s : Session x)
      → is_empty s.ctx.wallet_addr ≡ true
      → new_block_job_task d now s ≡ (
        err returned,
        if ltb client_timeout (now - s.ctx.state.connect_time)
            then record s {
              metrics = s.metrics ++ error_no_miner_address ∷ [];
              ctx = disconnect s.ctx;
            }
            else s,
      )
  unfolding new_block_job_task require_wallet record_metric
  new_block_job_task_no_wallet now s h =
      elim (Bool-cases (ltb client_timeout (now - s.ctx.state.connect_time))) [
        | inl late ↦ rw (h, late) refl
        | inr early ↦ rw (h, early) refl
      ]

  -- When the node has no template, a client with a wallet gets no job, and its table of jobs stays as
  -- it is; it is disconnected if and only if the node's error says that the address cannot be decoded.
  pub new_block_job_task_no_template :
      (now : ℕ) (s : Session x) (error : Text)
      → is_empty s.ctx.wallet_addr ≡ false
      → d.get_block_template s.ctx.wallet_addr s.ctx.remote_app s.ctx.canxium_addr ≡ err error
      → new_block_job_task d now s ≡ (
        err returned,
        if contains_text error (codes "Could not decode address")
            then record s {
              metrics = s.metrics ++ error_invalid_address_fmt ∷ [];
              ctx = disconnect s.ctx;
            }
            else record s { metrics = s.metrics ++ error_failed_block_fetch ∷ [] },
      )
  unfolding new_block_job_task require_wallet fetch_template record_metric
  new_block_job_task_no_template now s error h e =
      elim (Bool-cases (contains_text error (codes "Could not decode address"))) [
        | inl bad ↦ rw (h, e, bad) refl
        | inr other ↦ rw (h, e, other) refl
      ]

  -- A job for a connection that is disconnecting is not sent, and is counted as work that could not be
  -- sent, in both tasks: never as a disconnection, which is what the code looks for in the error's text.
  notify_disconnecting :
      (s : Session x) (block : Block x) (job : ℕ × List ℕ)
      → s.ctx.disconnecting ≡ true
      → (notify_new_block d block job s
          ≡ (ok tt, record s { metrics = s.metrics ++ error_failed_send_work ∷ [] }))
        × (notify_job d (block, job.0, job.1) s
            ≡ (ok tt, record s { metrics = s.metrics ++ error_failed_send_work ∷ [] }))
  unfolding notify_new_block notify_job after_send_work record_metric contains_text starts_with
      strip_prefix
  notify_disconnecting s block job h = (
    ap (λ r. after_send_work d r.0 (record s { ctx = r.1 }))
        (send_work_disconnecting _ job.0 _ s.ctx h),
    ap (λ r. after_send_work d r.0 (record s { ctx = r.1 }))
        (send_work_disconnecting _ job.0 _ s.ctx h),
  )
