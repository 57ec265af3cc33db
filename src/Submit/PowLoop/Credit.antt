-- ===== src/Submit/PowLoop/Credit.antt =====
-- Which job the loop settles on, and with which result.
use rusty_kaspa_stratum.Shared.{
  ℕ, zero, suc, ◌+◌, ◌≤◌, ◌<◌, ◌≡◌, refl, Bool, true, false, none, some, Result, ok, arith, ◌⊎◌,
  inl, inr, Bool-cases, Option-cases, ◌∙◌, subst, sym, ap,
}
use rusty_kaspa_stratum.External.{External, Block}
use rusty_kaspa_stratum.Mining.State.{Job, get_job}
use rusty_kaspa_stratum.Rpc.{JsonRpcEvent}
use rusty_kaspa_stratum.Submit.PowMath.{
  share_too_weak_for_pool, weak_share_job_advance, retry_previous_job, weak_share_job_advance_retry,
}
use rusty_kaspa_stratum.Submit.Session.{Session, SubmitRunError}
use rusty_kaspa_stratum.Submit.Parse.{PreparedSubmit}
use rusty_kaspa_stratum.Submit.BlockSubmit.{SubmitAnswer}
use rusty_kaspa_stratum.Submit.PowLoop.{
  PowDone, continue_with, pool_target, evaluate_job_pow, advance, block_found, pow_step, pow_loop,
  run_pow_validation_loop, JobPowSnapshot, Next,
}
use rusty_kaspa_stratum.Submit.PowLoop.Search.{advance-cases}

module _ {x : External} (submit_block : Block x → SubmitAnswer) (now : ℕ)
    (event : JsonRpcEvent x.Number) (prep : PreparedSubmit x) (next : Next x) (id : ℕ)
    (job : Job (Block x)) (invalid : Bool) (s : Session x) where
  -- One turn of the loop, by what the proof of work says.
  step_block :
      (evaluate_job_pow x
          (x.set_nonce job.block.header prep.nonce_val)
          prep.nonce_val).meets_network_target
        ≡ true
      → pow_step submit_block now event prep next id job invalid s
        ≡ block_found submit_block now event prep job s
  unfolding pow_step
  step_block h = rw h

  step_share :
      (evaluate_job_pow x
          (x.set_nonce job.block.header prep.nonce_val)
          prep.nonce_val).meets_network_target
        ≡ false
      → share_too_weak_for_pool
          (evaluate_job_pow x
            (x.set_nonce job.block.header prep.nonce_val)
            prep.nonce_val).pow_value
          (pool_target s)
        ≡ false
      → pow_step submit_block now event prep next id job invalid s ≡ (ok (continue_with false), s)
  unfolding pow_step
  step_share h k = rw (h, k)

  step_weak :
      s.ctx.state.max_jobs ≡ 300
      → (evaluate_job_pow x
          (x.set_nonce job.block.header prep.nonce_val)
          prep.nonce_val).meets_network_target
        ≡ false
      → share_too_weak_for_pool
          (evaluate_job_pow x
            (x.set_nonce job.block.header prep.nonce_val)
            prep.nonce_val).pow_value
          (pool_target s)
        ≡ true
      → (invalid ≡ true) ⊎ (id ≡ prep.job_id)
      → pow_step submit_block now event prep next id job invalid s
        ≡ advance (weak_share_job_advance id prep.job_id 300) true next s
  unfolding pow_step
  step_weak m h k i = ground arith

  advance_gone :
      get_job s.ctx.state id ≡ none
      → advance (retry_previous_job id) true next s ≡ (ok (continue_with true), s)
  unfolding advance
  advance_gone h = rw h

  advance_found :
      get_job s.ctx.state id ≡ some job
      → advance (retry_previous_job id) true next s ≡ next id job true s
  unfolding advance
  advance_found h = rw h

retry_below :
    (current id : ℕ)
    → current ≡ suc id
    → 0 < id
    → weak_share_job_advance current current 300 ≡ retry_previous_job id
unfolding weak_share_job_advance
retry_below current id e pos = ground arith

module _ {x : External} (prep : PreparedSubmit x) where
  -- The nonce of the submission on the header of a job.
  abbrev pub snapshot : Job (Block x) → JobPowSnapshot
  snapshot job = evaluate_job_pow x (x.set_nonce job.block.header prep.nonce_val) prep.nonce_val

  abbrev pub finds_block : Job (Block x) → Bool
  finds_block job = (snapshot job).meets_network_target

  abbrev pub too_weak : Session x → Job (Block x) → Bool
  too_weak s job = share_too_weak_for_pool (snapshot job).pow_value (pool_target s)

  -- The jobs that the loop may try: the one that was named, and below one that is too weak the one
  -- just older, while the workaround goes on and the job is stored.
  pub data Tried (s : Session x) : ℕ → Job (Block x) → Type 0 where
    named : Tried s prep.job_id prep.job
    older :
        {id : ℕ} {job : Job (Block x)} (id' : ℕ) (job' : Job (Block x))
        → Tried s id job
        → finds_block job ≡ false
        → too_weak s job ≡ true
        → weak_share_job_advance id prep.job_id 300 ≡ retry_previous_job id'
        → get_job s.ctx.state id' ≡ some job'
        → Tried s id' job'

  -- There is no older job to try below `id`.
  abbrev IsLast : Session x → ℕ → Type 0
  IsLast s id =
      (id' : ℕ)
      → weak_share_job_advance id prep.job_id 300 ≡ retry_previous_job id'
      → get_job s.ctx.state id' ≡ none

  module _ (submit_block : Block x → SubmitAnswer) (now : ℕ) (event : JsonRpcEvent x.Number) where
    -- How the loop may end, on a job that it tried: with a block, with a share for the pool, or,
    -- when no older job is left, with a weak share. Only a block changes the session.
    pub data Outcome (s : Session x) (r : Result SubmitRunError PowDone × Session x) : Type 0 where
      block :
          (id : ℕ) (job : Job (Block x))
          → Tried s id job
          → finds_block job ≡ true
          → r ≡ block_found submit_block now event prep job s
          → Outcome s r
      share :
          (id : ℕ) (job : Job (Block x))
          → Tried s id job
          → finds_block job ≡ false
          → too_weak s job ≡ false
          → r ≡ (ok (continue_with false), s)
          → Outcome s r
      weak :
          (id : ℕ) (job : Job (Block x))
          → Tried s id job
          → finds_block job ≡ false
          → too_weak s job ≡ true
          → IsLast s id
          → r ≡ (ok (continue_with true), s)
          → Outcome s r

    pow_loop-Outcome :
        (n k id : ℕ) (job : Job (Block x)) (invalid : Bool) (s : Session x)
        → s.ctx.state.max_jobs ≡ 300
        → id + k ≡ prep.job_id
        → k < 300
        → 300 ≤ n + k
        → (invalid ≡ true) ⊎ (id ≡ prep.job_id)
        → Tried s id job
        → Outcome s (pow_loop submit_block now event prep n id job invalid s)
    unfolding pow_loop advance
    pow_loop-Outcome zero k id job invalid s m e w f i t = absurd (omega arith)
    pow_loop-Outcome (suc n) k id job invalid s m e w f i t =
        let turn = λ (h : finds_block job ≡ false) (l : too_weak s job ≡ true).
          step_weak submit_block now event prep (pow_loop submit_block now event prep n) id job
            invalid s m h l i in
        elim (Bool-cases (finds_block job)) [
          | inl found ↦
              block id job t found (step_block submit_block now event prep _ id job invalid s found)
          | inr none_found ↦ elim (Bool-cases (too_weak s job)) [
            | inr strong ↦
                share id job t none_found strong
                  (step_share submit_block now event prep _ id job invalid s none_found strong)
            | inl low ↦ elim (advance-cases (weak_share_job_advance id prep.job_id 300)) [
              | inl stop ↦
                  weak id job t none_found low (λ id' next. absurd (cc))
                    (turn none_found low ∙ rw (stop, advance))
              | inr (inl none_left) ↦
                  weak id job t none_found low (λ id' next. absurd (cc))
                    (turn none_found low ∙ rw (none_left, advance))
              | inr (inr (id', next)) ↦ elim (Option-cases (get_job s.ctx.state id')) [
                | inl gone ↦
                    weak id job t none_found low (λ j h. ground (arith, next, gone))
                      (turn none_found low
                        ∙ rw next
                            (advance_gone submit_block now event prep _ id' job invalid s gone))
                | inr (job', found) ↦
                    let one = weak_share_job_advance_retry id prep.job_id k id' e w next in
                    let eq =
                      turn none_found low
                      ∙ rw next
                          (advance_found submit_block now event prep _ id' job' invalid s found) in
                    subst (Outcome s) (sym eq) (
                      pow_loop-Outcome n (suc k) id' job' true s m (omega (arith, one)) one.2
                        (omega arith) (inl refl) (older id' job' t none_found low next found))
              ]
            ]
          ]
        ]

    -- Where the table has 300 slots, every run of the loop ends in one of three ways on a job
    -- that it may try: with the flow of a block that was found, with a share for the pool, or
    -- with a weak share when no older job is left to try; the last two leave the session as it
    -- is.
    pub run_pow_validation_loop-Outcome :
        (s : Session x)
        → s.ctx.state.max_jobs ≡ 300
        → Outcome s (run_pow_validation_loop submit_block now event prep s)
    unfolding run_pow_validation_loop
    run_pow_validation_loop-Outcome s m =
        pow_loop-Outcome s.ctx.state.max_jobs 0 prep.job_id prep.job false s m (omega arith)
          (omega arith) (omega arith) (inr refl) named

    two_tries :
        (n id : ℕ) (job : Job (Block x)) (s : Session x)
        → s.ctx.state.max_jobs ≡ 300
        → prep.job_id ≡ suc id
        → 0 < id
        → get_job s.ctx.state id ≡ some job
        → finds_block prep.job ≡ false
        → too_weak s prep.job ≡ true
        → finds_block job ≡ false
        → too_weak s job ≡ false
        → pow_loop submit_block now event prep (suc (suc n)) prep.job_id prep.job false s
          ≡ (ok (continue_with false), s)
    unfolding pow_loop
    two_tries n id job s m e pos found b l b' l' =
        let go = pow_loop submit_block now event prep (suc n) in
        step_weak submit_block now event prep go prep.job_id prep.job false s m b l (inr refl)
        ∙ rw (retry_below prep.job_id id e pos)
            (advance_found submit_block now event prep go id job false s found)
        ∙ step_share submit_block now event prep (pow_loop submit_block now event prep n) id job
            true s b' l'

    -- Where the table has 300 slots, a submission for the job above `id` whose nonce makes no
    -- block and is too weak for that job, but makes a share for the stored job `id`, is credited
    -- as a share.
    pub credited_from_above :
        (id : ℕ) (job : Job (Block x)) (s : Session x)
        → s.ctx.state.max_jobs ≡ 300
        → prep.job_id ≡ suc id
        → 0 < id
        → get_job s.ctx.state id ≡ some job
        → finds_block prep.job ≡ false
        → too_weak s prep.job ≡ true
        → finds_block job ≡ false
        → too_weak s job ≡ false
        → run_pow_validation_loop submit_block now event prep s ≡ (ok (continue_with false), s)
    unfolding run_pow_validation_loop
    credited_from_above id job s m e pos found b l b' l' =
        ap (λ n. pow_loop submit_block now event prep n prep.job_id prep.job false s) m
        ∙ two_tries 298 id job s m e pos found b l b' l'
