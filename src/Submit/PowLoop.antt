-- ===== src/Submit/PowLoop.antt =====
-- bridge/src/share_handler/submit/pow_loop.rs and pow_step.rs: the proof of work of a share is tried
-- against the job it names, then against older jobs (the workaround for miners that send wrong ids).
pub mod Search
pub mod Credit
use rusty_kaspa_stratum.Shared.{
  ℕ, zero, suc, Bool, true, false, Option, none, some, if◌then◌else◌, ◌==◌, Exec, Result, ok, err,
  ◌>>=◌, pure, gets,
}
use rusty_kaspa_stratum.External.{External, Block}
use rusty_kaspa_stratum.Mining.State.{MiningState, Job, KaspaDiff, get_job}
use rusty_kaspa_stratum.Mining.Target.{calculate_target}
use rusty_kaspa_stratum.Rpc.{JsonRpcEvent}
use rusty_kaspa_stratum.Submit.PowMath.{
  share_too_weak_for_pool, meets_network_target_biguint, pool_target_or_zero,
  weak_share_job_advance, WeakShareJobAdvance, exhausted, no_previous_job, retry_previous_job,
}
use rusty_kaspa_stratum.Submit.Session.{Session, Run, SubmitRunError}
use rusty_kaspa_stratum.Submit.Parse.{PreparedSubmit}
use rusty_kaspa_stratum.Submit.BlockSubmit.{
  SubmitAnswer, BlockSubmitFlowResult, break_with, finished, run_block_found_submit_flow,
}

pub record JobPowSnapshot : Type 0 where
  pub pow_value : ℕ
  pub check_passed : Bool
  pub network_target : ℕ
  pub meets_network_target : Bool
  pub header_bits : ℕ

unfoldable pub evaluate_job_pow : (x : External) → x.Header → ℕ → JobPowSnapshot
evaluate_job_pow x header nonce_val =
    let header_clone = x.set_nonce header nonce_val in
    let (check_passed, pow_value) = x.check_pow header_clone nonce_val in
    let network_target = calculate_target (x.bits header_clone) in
    record {
      pow_value = pow_value;
      check_passed = check_passed;
      network_target = network_target;
      meets_network_target = meets_network_target_biguint pow_value network_target;
      header_bits = x.bits header_clone;
    }

-- `out_of_fuel` is no result of the code: the loop is a recursion on fuel.
pub data PowDone : Type 0 where
  already_finished out_of_fuel : PowDone
  continue_with : Bool → PowDone

abbrev pub after_block : BlockSubmitFlowResult → PowDone
after_block (break_with invalid_share) = continue_with invalid_share
after_block finished = already_finished

abbrev target_of : {F : Type 0} → Option (KaspaDiff F) → Option ℕ
target_of none = none
target_of (some d) = some d.target_value

-- How the loop goes on with another job id, its job and `invalid_share`.
abbrev pub Next : External → Type 0
Next x = ℕ → Job (Block x) → Bool → Run x SubmitRunError PowDone

module _ {x : External} where
  unfoldable pub pool_target : Session x → ℕ
  pool_target s = pool_target_or_zero (target_of s.ctx.state.stratum_diff)

  abbrev retry : Option (Job (Block x)) → ℕ → Bool → Next x → Run x SubmitRunError PowDone
  retry none id invalid next = pure (continue_with invalid)
  retry (some job) id invalid next = next id job invalid

  -- The branch of a share that is too weak for the pool.
  unfoldable pub advance : WeakShareJobAdvance → Bool → Next x → Run x SubmitRunError PowDone
  advance exhausted invalid next s = pure (continue_with invalid) s
  advance no_previous_job invalid next s = pure (continue_with invalid) s
  advance (retry_previous_job id) invalid next s = retry (get_job s.ctx.state id) id invalid next s

  module _ (submit_block : Block x → SubmitAnswer) (now : ℕ) (event : JsonRpcEvent x.Number)
      (prep : PreparedSubmit x) where
    unfoldable pub block_found : Job (Block x) → Run x SubmitRunError PowDone
    block_found job = do
      let header = x.set_nonce job.block.header prep.nonce_val
      result ← run_block_found_submit_flow submit_block now event prep header job
      pure (after_block result)

    -- The body of the loop.
    unfoldable pub pow_step : Next x → Next x
    pow_step next id job invalid s =
        let header = x.set_nonce job.block.header prep.nonce_val in
        let snapshot = evaluate_job_pow x header prep.nonce_val in
        let invalid' = if id == prep.job_id then true else invalid in
        if snapshot.meets_network_target
        then block_found job s
        else if share_too_weak_for_pool snapshot.pow_value (pool_target s)
        then advance (weak_share_job_advance id prep.job_id s.ctx.state.max_jobs) invalid' next s
        else pure (continue_with false) s

    -- `n` is the number of jobs that may still be tried.
    unfoldable pub pow_loop : ℕ → Next x
    pow_loop zero id job invalid = pure out_of_fuel
    pow_loop (suc n) id job invalid = pow_step (pow_loop n) id job invalid

    -- One try for each of the `max_jobs` slots.
    unfoldable pub run_pow_validation_loop : Run x SubmitRunError PowDone
    run_pow_validation_loop s = pow_loop s.ctx.state.max_jobs prep.job_id prep.job false s
