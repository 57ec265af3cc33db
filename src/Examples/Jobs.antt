-- ===== src/Examples/Jobs.antt =====
-- The job table of bridge/src/mining/mining_state.rs.
use rusty_kaspa_stratum.Shared.{ℕ, ◌+◌, ◌-◌, ◌≡◌, refl, some, List, [], ◌∷◌, length, arith, nat_eq}
use rusty_kaspa_stratum.External.{Block}
use rusty_kaspa_stratum.Mining.State.{MiningState, Job, new, add_job, get_job}
use rusty_kaspa_stratum.Mining.State.Window.{after_jobs, get_job-after_jobs}
use rusty_kaspa_stratum.Examples.World.{world, job_of}

abbrev empty : MiningState (Block world) (ℕ × ℕ) ℕ
empty = new 0

abbrev history : List (Job (Block world))
history = job_of 3 ∷ job_of 2 ∷ job_of 1 ∷ []

get_job-after_jobs_example :
    get_job (after_jobs empty history) (empty.job_counter + length history - 1) ≡ some (job_of 2)
unfolding new
get_job-after_jobs_example =
    get_job-after_jobs empty history 1 (job_of 2) (omega arith) (omega arith) refl

abbrev one_job : MiningState (Block world) (ℕ × ℕ) ℕ
one_job = (add_job empty (job_of 1)).1
