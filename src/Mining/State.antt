-- ===== src/Mining/State.antt =====
-- bridge/src/mining/mining_state.rs: the mining state of one client connection. A mutex around a
-- field is left out: each method is one step on the state. `B`, `H` and `F` stand for the block and
-- the header of kaspa_consensus_core and for `f64`; a `Hash` is the list of its bytes.
pub mod Window
pub mod Slots
use rusty_kaspa_stratum.Shared.{
  ℕ, zero, ◌+◌, ◌%◌, ◌^◌, Bool, false, Option, none, some, List, [], map, Text, HashMap, get,
  insert, nat_eq,
}

abbrev pub max_jobs_limit : ℕ
max_jobs_limit = 300

pub record Job (B : Type 0) : Type 0 where
  pub block : B
  pub pre_pow_hash : Text

-- hasher.rs, `KaspaDiff`
pub record KaspaDiff (F : Type 0) : Type 0 where
  pub hash_value : F
  pub diff_value : F
  pub target_value : ℕ

pub record MiningState (B H F : Type 0) : Type 0 where
  pub jobs : HashMap ℕ (Job B)
  pub job_ids : HashMap ℕ ℕ
  pub job_counter : ℕ
  pub big_diff : ℕ
  pub initialized : Bool
  pub use_big_job : Bool
  pub connect_time : ℕ
  pub stratum_diff : Option (KaspaDiff F)
  pub max_jobs : ℕ
  pub last_header : Option H

module _ {B H F : Type 0} where
  -- `MiningState::new`; `now` is the value of `SystemTime::now()`
  unfoldable pub new : ℕ → MiningState B H F
  new now = record {
    jobs = [];
    job_ids = [];
    job_counter = 0;
    big_diff = 0;
    initialized = false;
    use_big_job = false;
    connect_time = now;
    stratum_diff = none;
    max_jobs = max_jobs_limit % 2 ^ 16;
    last_header = none;
  }

  -- The counter is a `u64`: an unchecked build wraps.
  unfoldable pub next_id : MiningState B H F → ℕ
  next_id s = (s.job_counter + 1) % 2 ^ 64

  unfoldable pub add_job : MiningState B H F → Job B → ℕ × MiningState B H F
  unfolding next_id
  add_job s job =
      let idx = next_id s in
      let slot = idx % max_jobs_limit in
      (
        idx,
        record s {
          job_counter = idx;
          jobs = insert slot job s.jobs;
          job_ids = insert slot idx s.job_ids;
        },
      )

  unfoldable pub get_job : MiningState B H F → ℕ → Option (Job B)
  get_job s id = get (id % max_jobs_limit) s.jobs

  unfoldable pub get_job_id_at_slot : MiningState B H F → ℕ → Option ℕ
  get_job_id_at_slot s slot = get (slot % max_jobs_limit) s.job_ids

  unfoldable pub get_stored_job_ids : MiningState B H F → List ℕ
  get_stored_job_ids s = map (λ p. p.1) s.job_ids

  unfoldable pub set_big_diff : MiningState B H F → ℕ → MiningState B H F
  set_big_diff s diff = record s { big_diff = diff }

  unfoldable pub set_initialized : MiningState B H F → Bool → MiningState B H F
  set_initialized s b = record s { initialized = b }

  unfoldable pub set_use_big_job : MiningState B H F → Bool → MiningState B H F
  set_use_big_job s b = record s { use_big_job = b }

  unfoldable pub set_stratum_diff : MiningState B H F → KaspaDiff F → MiningState B H F
  set_stratum_diff s diff = record s { stratum_diff = some diff }

  unfoldable pub set_last_header : MiningState B H F → H → MiningState B H F
  set_last_header s header = record s { last_header = some header }
