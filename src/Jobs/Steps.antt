-- ===== src/Jobs/Steps.antt =====
-- The parts of the task that gives a client its first job.
use rusty_kaspa_stratum.Shared.{
  ℕ, ◌+◌, ◌≡◌, refl, sym, ap, subst, ◌∙◌, Bool, true, false, some, List, [], ◌∷◌, ◌++◌, codes,
  if◌then◌else◌, Result, ok, ◌>>=◌, ◌>>◌, pure, gets, continue, is_empty, trim, Option-cases, inl,
  inr, get, insert, text_key, nat_eq, ◌⊎◌,
}
use rusty_kaspa_stratum.External.{External, Block}
use rusty_kaspa_stratum.Rpc.{Value, number}
use rusty_kaspa_stratum.Mining.State.{
  MiningState, KaspaDiff, add_job, next_id, set_big_diff, set_initialized, set_use_big_job,
  set_stratum_diff, set_last_header,
}
use rusty_kaspa_stratum.Mining.Target.{calculate_target}
use rusty_kaspa_stratum.Mining.Difficulty.{new_diff, set_diff_value}
use rusty_kaspa_stratum.Mining.Header.{serialize_block_header, header_bytes}
use rusty_kaspa_stratum.Stratum.Context.{
  StratumContext, write_data, send, send_notification, Message, request, notification,
  effective_worker_name, ensure_default_worker_name,
}
use rusty_kaspa_stratum.Jobs.{
  Dispatcher, Task, Ended, record_worker, send_client_diff, diff_event, run_diff_task, run_diffs,
  run_diff_tasks, fetch_template, store_job, initialize, set_diff,
}
use rusty_kaspa_stratum.Jobs.Params.{send_work}
use rusty_kaspa_stratum.Jobs.Immediate.{prepare_job}
use rusty_kaspa_stratum.Shares.Stats.{ShareHandler}
use rusty_kaspa_stratum.Shares.Lifecycle.{
  set_client_vardiff, get_stats_if_exists, diff_or, restarted,
}
use rusty_kaspa_stratum.Submit.Session.{
  Run, Session, Metric, worker_id, record_metric, update_stats, worker_difficulty,
}

module _ (x : External) where
  -- The line that carries the work.
  unfoldable pub work_message : Bool → ℕ → List (Value x.Number) → Message x.Number
  work_message minimal job_id params =
      if minimal
      then notification (codes "mining.notify") params
      else request (record {
        id = some (number (x.from_u64 job_id));
        jsonrpc = codes "2.0";
        method = codes "mining.notify";
        params = params;
      })

module _ {x : External} where
  pub send_work-write_data :
      (minimal : Bool) (job_id : ℕ) (params : List (Value x.Number)) (ctx : StratumContext x)
      → send_work x minimal job_id params ctx
        ≡ write_data (work_message x minimal job_id params) ctx
  unfolding send_work work_message send send_notification
  send_work-write_data true job_id params ctx = refl
  send_work-write_data false job_id params ctx = refl

  -- A connection on which every write succeeds.
  unfoldable pub IsOpen : StratumContext x → Type 0
  IsOpen ctx = (ctx.disconnecting ≡ false) × ((n : ℕ) → ctx.writes n ≡ true)

  abbrev pub after_write : Message x.Number → StratumContext x → StratumContext x
  after_write m ctx = record ctx { attempts = ctx.attempts + 1; sent = ctx.sent ++ m ∷ [] }

  pub write_data_open :
      (m : Message x.Number) (ctx : StratumContext x)
      → IsOpen ctx
      → write_data m ctx ≡ (ok tt, after_write m ctx)
  unfolding write_data IsOpen
  write_data_open m ctx h = simp (h.0, h.1 ctx.attempts) refl

  pub run_diff_tasks_open :
      (v : x.Float) (s : Session x)
      → IsOpen s.ctx
      → s.diff_tasks ≡ v ∷ []
      → (run_diff_tasks s).ctx ≡ after_write (request (diff_event x v)) s.ctx
  unfolding run_diff_tasks run_diffs run_diff_task send
  run_diff_tasks_open v s h e = simp (e, write_data_open (request (diff_event x v)) s.ctx h) refl

  pub named_worker :
      (ctx : StratumContext x)
      → is_empty (trim ctx.worker_name) ≡ false
      → effective_worker_name ctx ≡ (ctx, ctx.worker_name)
  unfolding effective_worker_name ensure_default_worker_name
  named_worker ctx h = simp h refl

  -- The difficulty that the client has when it is sent a job: the one that it had, or the first one.
  unfoldable pub HasDiff :
      Dispatcher x → MiningState (Block x) x.Header x.Float → KaspaDiff x.Float → Type 0
  HasDiff d m k =
      ((m.initialized ≡ true) × (m.stratum_diff ≡ some k))
      ⊎ ((m.initialized ≡ false) × (set_diff_value x d.calc (new_diff x) d.min_diff ≡ some k))

  abbrev pub hash_of : Block x → List ℕ
  hash_of block = x.block_hash (header_bytes x block.header)

  -- The state with the job of a block in it.
  unfoldable pub stored :
      Block x → MiningState (Block x) x.Header x.Float → MiningState (Block x) x.Header x.Float
  stored block m =
      (add_job
        (set_big_diff (set_last_header m block.header) (calculate_target (x.bits block.header)))
        (record { block = block; pre_pow_hash = hash_of block })).1

  pub bind_ok :
      {E A B : Type 0} (m : Run x E A) (f : A → Run x E B) {s s' : Session x} {a : A}
      → m s ≡ (ok a, s')
      → (m >>= f) s ≡ f a s'
  bind_ok m f h = ap (λ r. continue r.0 f r.1) h

  pub record_worker_named :
      (m : Metric x.Float) (s : Session x)
      → is_empty (trim s.ctx.worker_name) ≡ false
      → record_worker m s ≡ (ok tt, record s { metrics = s.metrics ++ m ∷ [] })
  unfolding record_worker worker_id record_metric
  record_worker_named m s h = rw (named_worker s.ctx h) refl

  -- Only the share handler changes when a difficulty is set.
  set_client_vardiff_named :
      (now : ℕ) (diff : x.Float) (s : Session x)
      → is_empty (trim s.ctx.worker_name) ≡ false
      → (previous : x.Float) × (handler : ShareHandler x.Float) × (set_client_vardiff {E = Ended}
            now diff s
          ≡ (ok previous, record s { handler = handler }))
  unfolding set_client_vardiff get_stats_if_exists worker_id update_stats
  set_client_vardiff_named now diff s h = elim (Option-cases (get s.ctx.worker_name s.stats)) [
    | inl g ↦
        (diff_or x.zero s.ctx.state.stratum_diff, s.handler, rw (named_worker s.ctx h, g) refl)
    | inr (v, g) ↦ (
      v.min_diff,
      record s.handler { stats = insert s.ctx.worker_name (restarted now diff v) s.stats },
      rw (named_worker s.ctx h, g, g) refl,
    )
  ]

  module _ (d : Dispatcher x) where
    fetch_template_ok :
        (s : Session x) (block : Block x)
        → d.get_block_template s.ctx.wallet_addr s.ctx.remote_app s.ctx.canxium_addr ≡ ok block
        → fetch_template d s ≡ (ok block, s)
    unfolding fetch_template
    fetch_template_ok s block h = rw h refl

    with_last : Block x → Session x → Session x
    with_last block s = record s {
      ctx = record s.ctx { state = set_last_header s.ctx.state block.header };
    }

    unfoldable pub with_job : Block x → Session x → Session x
    with_job block s = record s { ctx = record s.ctx { state = stored block s.ctx.state } }

    store_job_stored :
        (block : Block x) (s : Session x)
        → store_job d block (with_last block s)
          ≡ (ok (next_id s.ctx.state, hash_of block), with_job block s)
    unfolding store_job serialize_block_header stored with_last with_job set_big_diff
        set_last_header add_job next_id
    store_job_stored block s = refl

    -- The end of the preparation, on a difficulty that is shown to the client.
    shown : ℕ → ℕ × List ℕ → Block x → x.Float → Task x (Block x × ℕ × List ℕ)
    shown now job block current_diff = do
      record_worker (worker_difficulty current_diff)
      send_client_diff current_diff
      set_client_vardiff now d.min_diff
      pure (block, job.0, job.1)

    -- What the preparation owes: the job's id and hash, the connection as it was, and the difficulty
    -- left to a task.
    unfoldable pub Prepared :
        Session x
        → Block x
        → ℕ × List ℕ
        → x.Float
        → Result Ended (Block x × ℕ × List ℕ) × Session x
        → Type 0
    Prepared s block job diff r =
        (r.0 ≡ ok (block, job.0, job.1))
        × (r.1.ctx ≡ s.ctx)
        × (r.1.diff_tasks ≡ s.diff_tasks ++ diff ∷ [])

    shown-Prepared :
        (now : ℕ) (job : ℕ × List ℕ) (block : Block x) (s : Session x) (diff : x.Float)
        → is_empty (trim s.ctx.worker_name) ≡ false
        → Prepared s block job diff (shown now job block diff s)
    unfolding shown Prepared send_client_diff
    shown-Prepared now job block s diff h =
        let t = record s {
          metrics = s.metrics ++ worker_difficulty diff ∷ [];
          diff_tasks = s.diff_tasks ++ diff ∷ [];
        } in
        let (previous, handler, done) = set_client_vardiff_named now d.min_diff t h in
        rw (record_worker_named (worker_difficulty diff) s h, done) (refl, refl, refl)

    -- The preparation, from the session in which the job is stored, where `initialized` says whether
    -- the client has had a job.
    after_init : ℕ → ℕ × List ℕ → Block x → Bool → Task x (Block x × ℕ × List ℕ)
    after_init now job block initialized = do
      (if initialized then pure tt else initialize d)
      current_diff ← gets (λ s. diff_or d.min_diff s.ctx.state.stratum_diff)
      shown now job block current_diff

    pub continued : ℕ → ℕ × List ℕ → Block x → Task x (Block x × ℕ × List ℕ)
    continued now job block = do
      initialized ← gets (λ s. s.ctx.state.initialized)
      after_init now job block initialized

    pub prepare_job_stored :
        (now : ℕ) (s : Session x) (block : Block x)
        → d.get_block_template s.ctx.wallet_addr s.ctx.remote_app s.ctx.canxium_addr ≡ ok block
        → prepare_job d now s
          ≡ continued now (next_id s.ctx.state, hash_of block) block (with_job block s)
    unfolding prepare_job continued after_init shown with_last
    prepare_job_stored now s block h =
        bind_ok (fetch_template d) _ (fetch_template_ok s block h)
        ∙ bind_ok (store_job d block) (λ job. continued now job block) (store_job_stored block s)

    -- A client that has had a job before.
    pub continued_known :
        (now : ℕ) (job : ℕ × List ℕ) (block : Block x) (t : Session x) (k : KaspaDiff x.Float)
        → is_empty (trim t.ctx.worker_name) ≡ false
        → t.ctx.state.initialized ≡ true
        → t.ctx.state.stratum_diff ≡ some k
        → Prepared t block job k.diff_value (continued now job block t)
    unfolding continued after_init
    continued_known now job block t k n h e =
        subst (Prepared t block job k.diff_value)
          (sym (
            ap (λ b. after_init now job block b t) h
            ∙ ap (λ o. shown now job block (diff_or d.min_diff o) t) e))
          (shown-Prepared now job block t k.diff_value n)

    -- The session of a client that gets its first difficulty.
    unfoldable pub with_first : KaspaDiff x.Float → Session x → Session x
    with_first k t = record t {
      ctx = record t.ctx {
        state =
            set_stratum_diff
              (set_use_big_job (set_initialized t.ctx.state true) (d.is_big_job t.ctx.remote_app))
              k;
      };
      metrics = t.metrics ++ worker_difficulty d.min_diff ∷ [];
    }

    initialize_first :
        (t : Session x) (k : KaspaDiff x.Float)
        → is_empty (trim t.ctx.worker_name) ≡ false
        → set_diff_value x d.calc (new_diff x) d.min_diff ≡ some k
        → initialize d t ≡ (ok tt, with_first k t)
    unfolding initialize set_diff with_first set_stratum_diff set_use_big_job set_initialized
    initialize_first t k n e =
        let u = record t {
          ctx = record t.ctx {
            state =
                set_stratum_diff
                  (set_use_big_job (set_initialized t.ctx.state true)
                    (d.is_big_job t.ctx.remote_app))
                  k;
          };
        } in
        rw e (record_worker_named (worker_difficulty d.min_diff) u n)

    pub continued_first :
        (now : ℕ) (job : ℕ × List ℕ) (block : Block x) (t : Session x) (k : KaspaDiff x.Float)
        → is_empty (trim t.ctx.worker_name) ≡ false
        → t.ctx.state.initialized ≡ false
        → set_diff_value x d.calc (new_diff x) d.min_diff ≡ some k
        → Prepared (with_first k t) block job k.diff_value (continued now job block t)
    unfolding continued after_init with_first set_stratum_diff
    continued_first now job block t k n h e =
        subst (Prepared (with_first k t) block job k.diff_value)
          (sym (
            ap (λ b. after_init now job block b t) h
            ∙ bind_ok (initialize d)
                (λ u.
                  gets (λ s. diff_or d.min_diff s.ctx.state.stratum_diff) >>= shown now job block)
                (initialize_first t k n e)))
          (shown-Prepared now job block (with_first k t) k.diff_value n)
