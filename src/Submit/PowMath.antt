-- ===== src/Submit/PowMath.antt =====
-- bridge/src/share_handler/submit/pow_math.rs: the decisions of the submit loop.
use rusty_kaspa_stratum.Shared.{
  ℕ, suc, ◌+◌, ◌-◌, ◌%◌, ◌<◌, ◌≡◌, Bool, true, ◌||◌, Option, none, some, leb, ltb, ◌==◌,
  if◌then◌else◌, arith,
}

-- A `BigUint` is a natural number.
unfoldable pub share_too_weak_for_pool : ℕ → ℕ → Bool
share_too_weak_for_pool pow_value pool_target = leb pool_target pow_value

unfoldable pub meets_network_target_biguint : ℕ → ℕ → Bool
meets_network_target_biguint pow_value network_target = leb pow_value network_target

unfoldable pub job_id_workaround_exhausted : ℕ → ℕ → ℕ → Bool
job_id_workaround_exhausted current submitted max_jobs =
    if max_jobs == 0
    then true
    else current == 1 || (current % max_jobs) == ((submitted % max_jobs + 1) % max_jobs)

unfoldable pub previous_job_id : ℕ → Option ℕ
previous_job_id current = if ltb 1 current then some (current - 1) else none

unfoldable pub pool_target_or_zero : Option ℕ → ℕ
pool_target_or_zero none = 0
pool_target_or_zero (some target) = target

pub data WeakShareJobAdvance : Type 0 where
  exhausted no_previous_job : WeakShareJobAdvance
  retry_previous_job : ℕ → WeakShareJobAdvance

abbrev advance_to : Option ℕ → WeakShareJobAdvance
advance_to none = no_previous_job
advance_to (some job_id) = retry_previous_job job_id

unfoldable pub weak_share_job_advance : ℕ → ℕ → ℕ → WeakShareJobAdvance
unfolding job_id_workaround_exhausted previous_job_id
weak_share_job_advance current submitted max_jobs =
    if job_id_workaround_exhausted current submitted max_jobs
    then exhausted
    else advance_to (previous_job_id current)

-- A retry is always of the id just below, and is refused once 299 older ids were tried.
pub weak_share_job_advance_retry :
    (current submitted k id : ℕ)
    → current + k ≡ submitted
    → k < 300
    → weak_share_job_advance current submitted 300 ≡ retry_previous_job id
    → (id + 1 ≡ current) × (0 < id) × (suc k < 300)
unfolding weak_share_job_advance
weak_share_job_advance_retry current submitted k id e w h = ground arith
