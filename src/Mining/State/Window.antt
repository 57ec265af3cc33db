-- ===== src/Mining/State/Window.antt =====
-- The job table as a window: which of the jobs that were added can still be fetched by their id.
use rusty_kaspa_stratum.Shared.{
  ℕ, zero, suc, ◌+◌, ◌-◌, ◌%◌, ◌^◌, ◌<◌, ◌≡◌, refl, some, List, [], ◌∷◌, arith, length, get_elem?,
  get-insert, get-insert_self, insert, nat_eq, ◌∙◌,
}
use rusty_kaspa_stratum.Mining.State.{Job, MiningState, add_job, get_job}

module _ {ℓ} {A : Type ℓ} where
  get_elem?_lt : (xs : List A) (k : ℕ) (a : A) → get_elem? xs k ≡ some a → k < length xs
  get_elem?_lt [] k a h = ground arith
  get_elem?_lt (x ∷ xs) zero a h = omega arith
  get_elem?_lt (x ∷ xs) (suc k) a h = omega (arith, get_elem?_lt xs k a h)

module _ {B H F : Type 0} where
  -- The state after a history of jobs, the newest first.
  pub after_jobs : MiningState B H F → List (Job B) → MiningState B H F
  after_jobs s [] = s
  after_jobs s (j ∷ older) = (add_job (after_jobs s older) j).1

  jobs-add_job :
      (s : MiningState B H F) (j : Job B)
      → (add_job s j).1.jobs ≡ insert ((s.job_counter + 1) % 2 ^ 64 % 300) j s.jobs
  unfolding add_job
  jobs-add_job s j = refl

  id-add_job : (s : MiningState B H F) (j : Job B) → (add_job s j).0 ≡ (s.job_counter + 1) % 2 ^ 64
  unfolding add_job
  id-add_job s j = refl

  counter-add_job :
      (s : MiningState B H F) (j : Job B)
      → (add_job s j).1.job_counter ≡ (s.job_counter + 1) % 2 ^ 64
  unfolding add_job
  counter-add_job s j = refl

  counter-after_jobs :
      (s : MiningState B H F) (h : List (Job B))
      → s.job_counter + length h < 2 ^ 64
      → (after_jobs s h).job_counter ≡ s.job_counter + length h
  unfolding after_jobs
  counter-after_jobs s [] b = omega arith
  counter-after_jobs s (j ∷ older) b =
      omega
        (arith, counter-after_jobs s older (omega arith), counter-add_job (after_jobs s older) j)

  -- The id that `add_job` returns finds the job.
  get_job-add_job :
      (s : MiningState B H F) (j : Job B) → get_job (add_job s j).1 (add_job s j).0 ≡ some j
  unfolding get_job add_job
  get_job-add_job s j = get-insert_self _ j s.jobs

  -- An id that is neither the new one nor 300 or more below it finds what it found before.
  get_job-add_job_older :
      (s : MiningState B H F) (j : Job B) (c id : ℕ)
      → s.job_counter ≡ c
      → c + 1 < 2 ^ 64
      → id < c + 1
      → c < id + 299
      → get_job (add_job s j).1 id ≡ get_job s id
  unfolding get_job
  get_job-add_job_older s j c id e b below near =
      rw (jobs-add_job s j)
        (ground (arith, get-insert ((s.job_counter + 1) % 2 ^ 64 % 300) (id % 300) j s.jobs))

  -- From any state, after any history of jobs that does not wrap the counter, each of the last
  -- 300 ids finds the job that was added under it.
  pub get_job-after_jobs :
      (s : MiningState B H F) (h : List (Job B)) (k : ℕ) (j : Job B)
      → s.job_counter + length h < 2 ^ 64
      → k < 300
      → get_elem? h k ≡ some j
      → get_job (after_jobs s h) (s.job_counter + length h - k) ≡ some j
  unfolding after_jobs
  get_job-after_jobs s [] k j b w e = ground arith
  get_job-after_jobs s (x ∷ older) zero j b w e =
      let id : s.job_counter + suc (length older) - 0 ≡ (add_job (after_jobs s older) x).0 =
        omega
          (arith, id-add_job (after_jobs s older) x, counter-after_jobs s older (omega arith)) in
      rw id (cc (get_job-add_job (after_jobs s older) x))
  get_job-after_jobs s (x ∷ older) (suc k) j b w e =
      let c : (after_jobs s older).job_counter ≡ s.job_counter + length older =
        counter-after_jobs s older (omega arith) in
      let below : k < length older = get_elem?_lt older k j e in
      let id : s.job_counter + suc (length older) - suc k ≡ s.job_counter + length older - k =
        omega arith in
      rw id (
        get_job-add_job_older (after_jobs s older) x _ _ c (omega arith) (omega arith) (omega arith)
        ∙ get_job-after_jobs s older k j (omega arith) (omega arith) e)
