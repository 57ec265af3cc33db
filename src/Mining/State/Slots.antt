-- ===== src/Mining/State/Slots.antt =====
-- The two slot tables of the mining state: `jobs` and `job_ids` fill the same slots, and a slot
-- holds an id that belongs to it.
use rusty_kaspa_stratum.Shared.{
  ℕ, ◌+◌, ◌*◌, ◌%◌, ◌≡◌, some, inl, inr, arith, get, get-empty, get-insert, is_some, nat_eq,
  Option-cases, ap,
}
use rusty_kaspa_stratum.Mining.State.{
  Job, MiningState, new, add_job, next_id, get_job, get_job_id_at_slot,
}

module _ {B H F : Type 0} where
  -- A slot holds a job exactly when it holds an id, and that id is one of the slot.
  pub record SlotsAgree (s : MiningState B H F) : Type 0 where
    pub same : (slot : ℕ) → is_some (get slot s.jobs) ≡ is_some (get slot s.job_ids)
    pub placed : (slot id : ℕ) → get slot s.job_ids ≡ some id → id % 300 ≡ slot

  new-SlotsAgree : (now : ℕ) → SlotsAgree (new now)
  unfolding new
  new-SlotsAgree now = record {
    same = λ slot. ground (arith, get-empty {V = Job B} slot, get-empty {V = ℕ} slot);
    placed = λ slot id e. ground (arith, get-empty {V = ℕ} slot);
  }

  -- Adding a job keeps the two tables in agreement: the same slots are taken in both, and each holds an
  -- id that belongs there.
  add_job-SlotsAgree :
      (s : MiningState B H F) (j : Job B) → SlotsAgree s → SlotsAgree (add_job s j).1
  unfolding add_job
  add_job-SlotsAgree s j v = record {
    same = λ slot. ground (
      arith,
      get-insert (next_id s % 300) slot j s.jobs,
      get-insert (next_id s % 300) slot (next_id s) s.job_ids,
      v.same slot,
    );
    placed = λ slot id e.
        ground (arith, get-insert (next_id s % 300) slot (next_id s) s.job_ids, v.placed slot id);
  }

  -- `get_job` does not compare ids: where the two tables agree, a job that is found under an id
  -- is in a slot that holds an id congruent to it modulo 300.
  get_job-congruent :
      (s : MiningState B H F) (id : ℕ) (j : Job B)
      → SlotsAgree s
      → get_job s id ≡ some j
      → (stored : ℕ) × (get_job_id_at_slot s id ≡ some stored) × (stored % 300 ≡ id % 300)
  unfolding get_job get_job_id_at_slot
  get_job-congruent s id j v e = elim (Option-cases (get (id % 300) s.job_ids)) [
    | inl gone ↦ absurd (ground (arith, v.same (id % 300), gone, e))
    | inr (stored, found) ↦ (stored, found, v.placed (id % 300) stored found)
  ]

  get_job-alias : (s : MiningState B H F) (id n : ℕ) → get_job s (id + 300 * n) ≡ get_job s id
  unfolding get_job
  get_job-alias s id n = ap (λ slot. get slot s.jobs) (omega arith)
