-- ===== src/Jobs.antt =====
-- bridge/src/stratum/client_handler/job_dispatch: a job for a client, from the block template of the
-- node to what the miner is sent. A task runs on the session of its client. It may return early or
-- panic; what it changed before stays. The regex BIG_JOB_REGEX is the parameter `is_big_job`, and the
-- node and `str::to_lowercase` are parameters too. Times count nanoseconds.
pub mod Params
pub mod NewBlock
pub mod Immediate
pub mod Steps
pub mod Sent
pub mod Refused
use rusty_kaspa_stratum.Shared.{
  ℕ, ◌+◌, ◌-◌, ◌*◌, Bool, true, false, not, ◌&&◌, ◌||◌, Option, none, some, List, [], ◌∷◌, ◌++◌,
  Text, codes, if◌then◌else◌, ltb, is_empty, unwrap_or, Exec, Result, ok, err, ◌>>=◌, ◌>>◌, pure,
  fail, gets, modify, contains_text,
}
use rusty_kaspa_stratum.External.{External, Block}
use rusty_kaspa_stratum.Rpc.{Value, number, JsonRpcEvent}
use rusty_kaspa_stratum.Mining.State.{
  MiningState, Job, KaspaDiff, add_job, set_big_diff, set_initialized, set_use_big_job,
  set_stratum_diff,
}
use rusty_kaspa_stratum.Mining.Target.{calculate_target}
use rusty_kaspa_stratum.Mining.Difficulty.{TargetCalc, new_diff, set_diff_value}
use rusty_kaspa_stratum.Mining.Header.{serialize_block_header}
use rusty_kaspa_stratum.Stratum.Context.{
  StratumContext, ClientIdentity, ErrorDisconnected, Reply, send, disconnect,
}
use rusty_kaspa_stratum.Submit.Session.{
  Session, Run, Metric, record_metric, worker_id, error_invalid_address_fmt,
  error_failed_block_fetch, error_bad_data_from_miner, error_failed_set_diff, error_disconnected,
  error_failed_send_work, worker_difficulty, new_job,
}

-- How a task ends early.
pub data Ended : Type 0 where
  returned panicked : Ended

-- What a task is given besides the client.
pub record Dispatcher (x : External) : Type 0 where
  pub get_block_template : Text → Text → Text → Result Text (Block x)
  pub is_big_job : Text → Bool
  pub to_lowercase : Text → Text
  pub calc : TargetCalc
  pub min_diff : x.Float

abbrev pub client_timeout : ℕ
client_timeout = 20 * 1000000000

-- `ErrorDisconnected`, displayed
abbrev pub error_text : ErrorDisconnected → Text
error_text e = codes "disconnecting"

abbrev pub Task : External → Type 0 → Type 0
Task x A = Run x Ended A

module _ (x : External) where
  -- The number that stands for a difficulty in a message.
  unfoldable pub diff_number : x.Float → Value x.Number
  diff_number diff = number (unwrap_or (x.from_f64 diff) (x.from_u64 (x.trunc_u64 diff)))

  unfoldable pub diff_event : x.Float → JsonRpcEvent x.Number
  unfolding diff_number
  diff_event diff = record {
    id = none;
    jsonrpc = codes "2.0";
    method = codes "mining.set_difficulty";
    params = diff_number diff ∷ [];
  }

module _ {x : External} where
  abbrev pub on_state :
      (MiningState (Block x) x.Header x.Float → MiningState (Block x) x.Header x.Float)
      → Task x (Unit {0})
  on_state f = modify (λ s. record s { ctx = record s.ctx { state = f s.ctx.state } })

  abbrev pub disconnect_client : Task x (Unit {0})
  disconnect_client = modify (λ s. record s { ctx = disconnect s.ctx })

  -- A metric whose labels name the worker.
  unfoldable pub record_worker : Metric x.Float → Task x (Unit {0})
  record_worker m = do worker_id; record_metric m

  -- difficulty.rs, `send_client_diff`: a task is spawned.
  unfoldable pub send_client_diff : x.Float → Task x (Unit {0})
  send_client_diff diff = modify (λ s. record s { diff_tasks = s.diff_tasks ++ diff ∷ [] })

  abbrev pub after_send_diff : Result ErrorDisconnected (Unit {0}) → Session x → Session x
  after_send_diff (ok u) s = s
  after_send_diff (err e) s = record s { metrics = s.metrics ++ error_failed_set_diff ∷ [] }

  -- The task that `send_client_diff` spawned.
  unfoldable pub run_diff_task : x.Float → Session x → Session x
  unfolding diff_event
  run_diff_task diff s =
      let (r, ctx') = send (diff_event x diff) s.ctx in after_send_diff r (record s { ctx = ctx' })

  unfoldable pub run_diffs : List x.Float → Session x → Session x
  run_diffs [] s = s
  run_diffs (diff ∷ diffs) s = run_diffs diffs (run_diff_task diff s)

  -- The spawned tasks run, in their order.
  unfoldable pub run_diff_tasks : Session x → Session x
  run_diff_tasks s = run_diffs s.diff_tasks (record s { diff_tasks = [] })

  module _ (d : Dispatcher x) where
    abbrev pub got_template : Result Text (Block x) → Task x (Block x)
    got_template (ok block) = pure block
    got_template (err e) =
        if contains_text e (codes "Could not decode address")
        then (do record_metric error_invalid_address_fmt; disconnect_client; fail returned)
        else (do record_metric error_failed_block_fetch; fail returned)

    -- The template for the identity of the client.
    unfoldable pub fetch_template : Task x (Block x)
    fetch_template = do
      id ← gets (λ s. s.ctx.identity)
      got_template (d.get_block_template id.wallet_addr id.remote_app id.canxium_addr)

    abbrev pub serialized : Result Text (List ℕ) → Task x (List ℕ)
    serialized (ok pre_pow_hash) = pure pre_pow_hash
    serialized (err e) = do record_metric error_bad_data_from_miner; fail returned

    abbrev pub add_to_state : Job (Block x) → Task x ℕ
    add_to_state job s =
        let (id, state') = add_job s.ctx.state job in
        (ok id, record s { ctx = record s.ctx { state = state' } })

    -- The target of the block, its hash, and its place in the table of jobs.
    unfoldable pub store_job : Block x → Task x (ℕ × List ℕ)
    store_job block = do
      on_state (λ m. set_big_diff m (calculate_target (x.bits block.header)))
      pre_pow_hash ← serialized (serialize_block_header x block)
      job_id ← add_to_state (record { block = block; pre_pow_hash = pre_pow_hash })
      pure (job_id, pre_pow_hash)

    abbrev pub or_panic : Option (KaspaDiff x.Float) → Task x (KaspaDiff x.Float)
    or_panic none = fail panicked
    or_panic (some k) = pure k

    -- The difficulty of the client is set, and shown.
    unfoldable pub set_diff : KaspaDiff x.Float → x.Float → Task x (Unit {0})
    set_diff old diff = do
      stratum_diff ← or_panic (set_diff_value x d.calc old diff)
      on_state (λ m. set_stratum_diff m stratum_diff)
      record_worker (worker_difficulty diff)

    -- The state of a client that has had no job.
    unfoldable pub initialize : Task x (Unit {0})
    unfolding set_diff
    initialize = do
      remote_app ← gets (λ s. s.ctx.remote_app)
      on_state (λ m. set_use_big_job (set_initialized m true) (d.is_big_job remote_app))
      set_diff (new_diff x) d.min_diff

    -- The end of a task, on what sending the work came to.
    unfoldable pub after_send_work : Result ErrorDisconnected (Unit {0}) → Task x (Unit {0})
    unfolding record_worker
    after_send_work (ok u) = record_worker new_job
    after_send_work (err e) =
        if contains_text (error_text e) (codes "disconnected")
        then record_metric error_disconnected
        else record_metric error_failed_send_work
