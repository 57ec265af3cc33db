-- ===== src/Submit/PowLoop/Search.antt =====
-- The loop ends within one try per slot of the job table.
use rusty_kaspa_stratum.Shared.{
  ℕ, zero, suc, ◌+◌, ◌≤◌, ◌<◌, ◌≡◌, ◌≢◌, refl, Bool, true, false, Result, ok, err, continue, pure,
  arith, ◌⊎◌, inl, inr, Option-cases,
}
use rusty_kaspa_stratum.External.{External, Block}
use rusty_kaspa_stratum.Mining.State.{Job, get_job}
use rusty_kaspa_stratum.Rpc.{JsonRpcEvent}
use rusty_kaspa_stratum.Submit.PowMath.{
  weak_share_job_advance, WeakShareJobAdvance, exhausted, no_previous_job, retry_previous_job,
  weak_share_job_advance_retry,
}
use rusty_kaspa_stratum.Submit.Session.{Session, SubmitRunError}
use rusty_kaspa_stratum.Submit.Parse.{PreparedSubmit}
use rusty_kaspa_stratum.Submit.BlockSubmit.{
  SubmitAnswer, BlockSubmitFlowResult, break_with, finished, run_block_found_submit_flow,
}
use rusty_kaspa_stratum.Submit.PowLoop.{
  after_block, out_of_fuel, advance, block_found, pow_step, pow_loop, run_pow_validation_loop,
}

pub advance-cases :
    (a : WeakShareJobAdvance)
    → (a ≡ exhausted) ⊎ (a ≡ no_previous_job) ⊎ ((id : ℕ) × (a ≡ retry_previous_job id))
advance-cases exhausted = inl refl
advance-cases no_previous_job = inr (inl refl)
advance-cases (retry_previous_job id) = inr (inr (id, refl))

module _ {x : External} (submit_block : Block x → SubmitAnswer) (now : ℕ)
    (event : JsonRpcEvent x.Number) (prep : PreparedSubmit x) where
  done_of_result :
      (r : Result SubmitRunError BlockSubmitFlowResult) (s : Session x)
      → (continue r (λ b. pure (after_block b)) s).0 ≢ ok out_of_fuel
  done_of_result (ok (break_with b)) s h = cc
  done_of_result (ok finished) s h = cc
  done_of_result (err e) s h = cc

  block_found_done :
      (job : Job (Block x)) (s : Session x)
      → (block_found submit_block now event prep job s).0 ≢ ok out_of_fuel
  unfolding block_found
  block_found_done job s =
      let header = x.set_nonce job.block.header prep.nonce_val in
      let (r, s') = run_block_found_submit_flow submit_block now event prep header job s in
      done_of_result r s'

  -- With k older jobs tried, 300 - k tries are enough.
  pow_loop_done :
      (n k id : ℕ) (job : Job (Block x)) (invalid : Bool) (s : Session x)
      → s.ctx.state.max_jobs ≡ 300
      → id + k ≡ prep.job_id
      → k < 300
      → 300 ≤ n + k
      → (pow_loop submit_block now event prep n id job invalid s).0 ≢ ok out_of_fuel
  unfolding pow_loop pow_step advance
  pow_loop_done zero k id job invalid s m e w f = absurd (omega arith)
  pow_loop_done (suc n) k id job invalid s m e w f =
      elim (advance-cases (weak_share_job_advance id prep.job_id 300)) [
        | inl stop ↦ ground (arith, m, stop, block_found_done job s)
        | inr (inl none_left) ↦ ground (arith, m, none_left, block_found_done job s)
        | inr (inr (id', older)) ↦ elim (Option-cases (get_job s.ctx.state id')) [
          | inl gone ↦ ground (arith, m, older, gone, block_found_done job s)
          | inr (job', found) ↦
              let step = weak_share_job_advance_retry id prep.job_id k id' e w older in
              ground (
                arith,
                m,
                older,
                found,
                block_found_done job s,
                pow_loop_done n (suc k) id' job' true s m (omega (arith, step)) (step.2)
                    (omega arith),
                pow_loop_done n (suc k) id' job' invalid s m (omega (arith, step)) (step.2)
                    (omega arith),
              )
        ]
      ]

  -- Where the table has 300 slots, the loop does not run out of its one try for each slot: it
  -- ends with a result of the code, or with an error.
  pub run_pow_validation_loop_done :
      (s : Session x)
      → s.ctx.state.max_jobs ≡ 300
      → (run_pow_validation_loop submit_block now event prep s).0 ≢ ok out_of_fuel
  unfolding run_pow_validation_loop
  run_pow_validation_loop_done s m =
      pow_loop_done s.ctx.state.max_jobs 0 prep.job_id prep.job false s m (omega arith)
        (omega arith) (omega arith)
