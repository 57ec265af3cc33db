-- ===== src/Jobs/Sent.antt =====
-- What a client is sent with its first job.
use rusty_kaspa_stratum.Shared.{
  ℕ, ◌≡◌, sym, ap, subst, append_assoc, ◌%◌, ◌∙◌, true, false, some, List, [], ◌∷◌, ◌++◌, ok, ◌>>◌,
  modify, is_empty, trim, inl, inr, text_key, nat_eq, arith, get-insert_self,
}
use rusty_kaspa_stratum.External.{External, Block}
use rusty_kaspa_stratum.Rpc.{string}
use rusty_kaspa_stratum.Mining.State.{
  MiningState, max_jobs_limit, KaspaDiff, add_job, next_id, get_job, set_big_diff, set_initialized,
  set_use_big_job, set_stratum_diff, set_last_header,
}
use rusty_kaspa_stratum.Stratum.Context.{StratumContext, Message, request}
use rusty_kaspa_stratum.Jobs.{Dispatcher, diff_event, run_diff_tasks, after_send_work}
use rusty_kaspa_stratum.Jobs.Params.{is_iceriver, immediate_params, send_work}
use rusty_kaspa_stratum.Jobs.Immediate.{prepare_job, notify_job, send_immediate_job_task}
use rusty_kaspa_stratum.Numerals.Print.{to_string}
use rusty_kaspa_stratum.Submit.Parse.{parse_job_id}
use rusty_kaspa_stratum.Submit.Parse.Keys.{parse_job_id-to_string}
use rusty_kaspa_stratum.Submit.Session.{Session, new_job}
use rusty_kaspa_stratum.Jobs.Steps.{
  work_message, send_work-write_data, IsOpen, write_data_open, run_diff_tasks_open, HasDiff,
  hash_of, stored, bind_ok, record_worker_named, with_job, Prepared, prepare_job_stored,
  continued_known, continued_first, with_first, after_write,
}

module _ {x : External} where
  module _ (d : Dispatcher x) where
    -- The line with the work for a connection.
    unfoldable pub work_for : StratumContext x → Block x → ℕ → List ℕ → Message x.Number
    work_for ctx block job_id hash =
        let iceriver = is_iceriver (d.to_lowercase ctx.remote_app) in
        work_message x iceriver job_id
          (immediate_params x iceriver ctx.state.use_big_job job_id hash (x.timestamp block.header))

    notify_job_open :
        (block : Block x) (job : ℕ × List ℕ) (u : Session x)
        → IsOpen u.ctx
        → is_empty (trim u.ctx.worker_name) ≡ false
        → (notify_job d (block, job.0, job.1) u).1.ctx
          ≡ after_write (work_for u.ctx block job.0 job.1) u.ctx
    unfolding notify_job after_send_work work_for
    notify_job_open block job u h n =
        let message = work_for u.ctx block job.0 job.1 in
        let written : send_work x (is_iceriver (d.to_lowercase u.ctx.remote_app)) job.0
              (immediate_params x (is_iceriver (d.to_lowercase u.ctx.remote_app))
                u.ctx.state.use_big_job job.0 job.1 (x.timestamp block.header))
              u.ctx
            ≡ (ok tt, after_write message u.ctx) =
          send_work-write_data _ job.0 _ u.ctx ∙ write_data_open message u.ctx h in
        ap (λ r. (after_send_work d r.0 (record u { ctx = r.1 })).1.ctx) written
        ∙ ap (λ r. r.1.ctx)
            (record_worker_named new_job (record u { ctx = after_write message u.ctx }) n)

    -- What a client is sent by a task whose preparation left the connection at `c`.
    delivered :
        (now : ℕ) (s : Session x) (c : StratumContext x) (block : Block x) (job : ℕ × List ℕ)
        (diff : x.Float)
        → IsOpen c
        → is_empty (trim c.worker_name) ≡ false
        → (prepare_job d now s).0 ≡ ok (block, job.0, job.1)
        → (prepare_job d now s).1.ctx ≡ c
        → (prepare_job d now s).1.diff_tasks ≡ diff ∷ []
        → (send_immediate_job_task d true now s).1.ctx
          ≡ after_write (work_for c block job.0 job.1) (after_write (request (diff_event x diff)) c)
    unfolding send_immediate_job_task IsOpen work_for
    delivered now s c block job diff h n got same left =
        let r = (prepare_job d now s).1 in
        let line = request (diff_event x diff) in
        let open_r : IsOpen r.ctx = subst IsOpen (sym same) h in
        let ran : (run_diff_tasks r).ctx ≡ after_write line c =
          run_diff_tasks_open diff r open_r left ∙ ap (after_write line) same in
        ap (λ q. q.1.ctx)
          (bind_ok (prepare_job d now) (λ job. modify (λ s. run_diff_tasks s) >> notify_job d job)
            (ap (λ o. (o, r)) got))
        ∙ notify_job_open block job (run_diff_tasks r) (subst IsOpen (sym ran) h)
            (ap (λ e. is_empty (trim e.worker_name)) ran ∙ n)
        ∙ ap (λ e. after_write (work_for e block job.0 job.1) e) ran

    -- What the client has been sent and what the table of jobs holds, from the connection `c`.
    unfoldable pub Delivers : StratumContext x → StratumContext x → Block x → ℕ → x.Float → Type 0
    Delivers c c' block job_id diff =
        (c'.sent
          ≡ c.sent ++ request (diff_event x diff) ∷ work_for c' block job_id (hash_of block) ∷ [])
        × (get_job c'.state job_id ≡ some (record { block = block; pre_pow_hash = hash_of block }))

    stored-get_job :
        (block : Block x) (m : MiningState (Block x) x.Header x.Float)
        → get_job (stored block m) (next_id m)
          ≡ some (record { block = block; pre_pow_hash = hash_of block })
    unfolding stored add_job get_job next_id set_big_diff set_last_header
    stored-get_job block m =
        get-insert_self (next_id m % max_jobs_limit)
          (record { block = block; pre_pow_hash = hash_of block }) m.jobs

    after_writes-Delivers :
        (c c' : StratumContext x) (block : Block x) (job_id : ℕ) (diff : x.Float)
        → c'
          ≡ after_write
              (work_for c block job_id (hash_of block))
              (after_write (request (diff_event x diff)) c)
        → get_job c.state job_id ≡ some (record { block = block; pre_pow_hash = hash_of block })
        → Delivers c c' block job_id diff
    unfolding Delivers work_for
    after_writes-Delivers c c' block job_id diff same found =
        subst (λ e. Delivers c e block job_id diff) (sym same)
          (
            append_assoc c.sent (request (diff_event x diff) ∷ [])
                (work_for c block job_id (hash_of block) ∷ []),
            found,
          )

    finish :
        (now : ℕ) (s t : Session x) (block : Block x) (job_id : ℕ) (diff : x.Float)
        → IsOpen t.ctx
        → is_empty (trim t.ctx.worker_name) ≡ false
        → t.diff_tasks ≡ []
        → get_job t.ctx.state job_id ≡ some (record { block = block; pre_pow_hash = hash_of block })
        → Prepared d t block (job_id, hash_of block) diff (prepare_job d now s)
        → Delivers t.ctx (send_immediate_job_task d true now s).1.ctx block job_id diff
    unfolding Prepared
    finish now s t block job_id diff h n idle found p =
        after_writes-Delivers t.ctx _ block job_id diff
          (delivered now s t.ctx block (job_id, hash_of block) diff h n p.0 p.1
            (p.2 ∙ ap (λ l. l ++ diff ∷ []) idle))
          found

    -- A client that was authorized gets work: where its writes succeed, the node has a template, and the
    -- difficulty is one that has a target, the task ends with the difficulty and the job sent, in this
    -- order and nothing else, if the spawned task runs in the pause. The job is stored under the id of
    -- the message, and the id's text is read back as the id.
    pub send_immediate_job_task-Delivers :
        (now : ℕ) (s : Session x) (block : Block x) (k : KaspaDiff x.Float)
        → IsOpen s.ctx
        → is_empty (trim s.ctx.worker_name) ≡ false
        → s.diff_tasks ≡ []
        → d.get_block_template s.ctx.wallet_addr s.ctx.remote_app s.ctx.canxium_addr ≡ ok block
        → HasDiff d s.ctx.state k
        → Delivers s.ctx
            (send_immediate_job_task d true now s).1.ctx
            block
            (next_id s.ctx.state)
            k.diff_value
          × (parse_job_id x (string (to_string (next_id s.ctx.state))) ≡ ok (next_id s.ctx.state))
    unfolding HasDiff Delivers with_job with_first stored add_job next_id set_big_diff
        set_last_header set_stratum_diff set_use_big_job set_initialized get_job IsOpen
    send_immediate_job_task-Delivers now s block k h n idle template has =
        let id = next_id s.ctx.state in
        let job : ℕ × List ℕ = (id, hash_of block) in
        let t = with_job d block s in
        let stored_first = sym (prepare_job_stored d now s block template) in
        let found = stored-get_job block s.ctx.state in
        let parsed = parse_job_id-to_string x id (omega arith) in
        elim has [
          | inl (i, e) ↦ (
            finish now s t block id k.diff_value h n idle found (
                subst (Prepared d t block job k.diff_value) stored_first
                  (continued_known d now job block t k n i e)),
            parsed,
          )
          | inr (i, e) ↦ (
            finish now s (with_first d k t) block id k.diff_value h n idle found (
                subst (Prepared d (with_first d k t) block job k.diff_value) stored_first
                  (continued_first d now job block t k n i e)),
            parsed,
          )
        ]
