-- ===== src/Handlers/Authorize/Order.antt =====
-- The lines that follow a miner's authorization.
use rusty_kaspa_stratum.Shared.{
  ℕ, ◌≡◌, refl, sym, ap, subst, ◌∙◌, append_assoc, Bool, true, false, Option, none, some, [], ◌∷◌,
  ◌++◌, Text, codes, is_empty, ok, ◌>>◌, text_key,
}
use rusty_kaspa_stratum.External.{External, Block}
use rusty_kaspa_stratum.Rpc.{bool, JsonRpcEvent, new_response}
use rusty_kaspa_stratum.Mining.State.{KaspaDiff, next_id, get_job}
use rusty_kaspa_stratum.Stratum.Context.{StratumContext, Message, response, request, reply}
use rusty_kaspa_stratum.Handlers.{extranonce_params}
use rusty_kaspa_stratum.Handlers.Wallet.{split}
use rusty_kaspa_stratum.Handlers.Authorize.{
  address_param, wallet_result, worker_of, canxium_of, set_identity, set_canxium, sync_metrics,
  send_job, handle_authorize,
}
use rusty_kaspa_stratum.Jobs.{Dispatcher, diff_event}
use rusty_kaspa_stratum.Jobs.Immediate.{send_immediate_job_to_client, send_immediate_job_task}
use rusty_kaspa_stratum.Jobs.Steps.{IsOpen, HasDiff, write_data_open, after_write, hash_of, bind_ok}
use rusty_kaspa_stratum.Jobs.Sent.{Delivers, work_for, send_immediate_job_task-Delivers}
use rusty_kaspa_stratum.Submit.Session.{Session, Run, worker_id, on_ctx}
use rusty_kaspa_stratum.Handlers.Authorize.Replies.{
  authorized, with_canxium, Settles, extranonce_line, extranonce_lines, with_extranonce,
  give_extranonce, set_identity-authorized, authorized_named, set_canxium_run, worker_id_named,
  sync_metrics-Settles, on_ctx_ok, give_extranonce_open,
}

module _ {x : External} where
  module _ (to_lowercase : Text → Text) (d : Dispatcher x) (now : ℕ)
      (event : JsonRpcEvent x.Number) where
    abbrev accepted : Message x.Number
    accepted = response (new_response event (some (bool true)) none)

    abbrev reply_accepted : Run x Text (Unit {0})
    reply_accepted =
        on_ctx (λ e. codes "failed to send response to authorize: disconnecting")
          (reply (new_response event (some (bool true)) none))

    abbrev job_last : Run x Text (Unit {0})
    job_last = send_job (some d) true true now

    abbrev answering : Run x Text (Unit {0})
    answering = do reply_accepted; give_extranonce to_lowercase; job_last

    -- The handler once the worker is registered, and from the start.
    replying : Text → Run x Text (Unit {0})
    replying canxium = do set_canxium canxium; answering

    registering : Text → Text → Text → Run x Text (Unit {0})
    registering address worker canxium = do
      set_identity address worker
      worker_id
      sync_metrics true now
      replying canxium

    -- The connection when the first job is asked for.
    before_job : Text → StratumContext x → StratumContext x
    before_job canxium ctx =
        with_extranonce to_lowercase (after_write accepted (with_canxium canxium ctx))

    replying_open :
        (canxium : Text) (s : Session x)
        → IsOpen s.ctx
        → replying canxium s ≡ job_last (record s { ctx = before_job canxium s.ctx })
    unfolding replying before_job reply IsOpen with_canxium
    replying_open canxium s h =
        let s1 = record s { ctx = with_canxium canxium s.ctx } in
        let s2 = record s { ctx = after_write accepted (with_canxium canxium s.ctx) } in
        bind_ok (set_canxium canxium) (λ u. answering) (set_canxium_run canxium s)
        ∙ bind_ok reply_accepted (λ u. give_extranonce to_lowercase >> job_last)
            (on_ctx_ok _ (reply (new_response event (some (bool true)) none)) s1 s2.ctx
              (write_data_open accepted s1.ctx h))
        ∙ bind_ok (give_extranonce to_lowercase) (λ u. job_last)
            (give_extranonce_open to_lowercase s2 h)

    registering_open :
        (address worker canxium : Text) (s : Session x)
        → IsOpen s.ctx
        → is_empty address ≡ false
        → (u : Session x) × (u.diff_tasks ≡ s.diff_tasks)
          × (registering address worker canxium s
              ≡ job_last (record u { ctx = before_job canxium (authorized address worker s.ctx) }))
    unfolding registering IsOpen authorized Settles
    registering_open address worker canxium s h w =
        let c = authorized address worker s.ctx in
        let s1 = record s { ctx = c } in
        let named = authorized_named address worker s.ctx in
        let done = sync_metrics-Settles true now s1 named w in
        let t = (sync_metrics {x = x} true now s1).1 in
        (
          t,
          done.2,
          bind_ok (set_identity address worker)
                (λ u. worker_id >> (sync_metrics true now >> replying canxium)) {s = s} {s' = s1}
                (set_identity-authorized address worker s)
              ∙ bind_ok worker_id (λ u. sync_metrics true now >> replying canxium) {s = s1}
                  {s' = s1} (worker_id_named s1 named)
              ∙ bind_ok (sync_metrics true now) (λ u. replying canxium) {s = s1} {s' = t}
                  (ap (λ o. (o, t)) done.0)
              ∙ replying_open canxium t (subst IsOpen (sym done.1) h)
              ∙ ap (λ e. job_last (record t { ctx = before_job canxium e })) done.1,
        )

    job_given :
        (t : Session x)
        → t.ctx.disconnecting ≡ false
        → is_empty t.ctx.wallet_addr ≡ false
        → (job_last t).1 ≡ (send_immediate_job_task d true now t).1
    unfolding send_immediate_job_to_client
    job_given t h w = rw (w, h) refl

    -- What the miner has been sent, and what its table of jobs holds.
    pub Answers : StratumContext x → StratumContext x → Block x → x.Float → Type 0
    Answers c c' block diff =
        (c'.sent
          ≡ c.sent
            ++ accepted
              ∷ (extranonce_lines to_lowercase c
                  ++ request (diff_event x diff)
                    ∷ work_for d c' block (next_id c.state) (hash_of block)
                    ∷ []))
        × (get_job c'.state (next_id c.state)
            ≡ some (record { block = block; pre_pow_hash = hash_of block }))

    -- The lines of the job come after those of the authorization.
    Delivers-Answers :
        (address worker canxium : Text) (c c' : StratumContext x) (block : Block x) (diff : x.Float)
        → Delivers d
            (before_job canxium (authorized address worker c))
            c'
            block
            (next_id c.state)
            diff
        → Answers c c' block diff
    unfolding Answers Delivers before_job with_extranonce with_canxium authorized extranonce_lines
        extranonce_line extranonce_params
    Delivers-Answers address worker canxium c c' block diff h =
        let job =
          request (diff_event x diff)
          ∷ work_for d c' block (next_id c.state) (hash_of block)
          ∷ [] in
        (
          h.0
              ∙ append_assoc (c.sent ++ accepted ∷ []) (extranonce_lines to_lowercase c) job
              ∙ append_assoc c.sent (accepted ∷ []) (extranonce_lines to_lowercase c ++ job),
          h.1,
        )

    job_last-Answers :
        (address worker canxium : Text) (c : StratumContext x) (u : Session x) (block : Block x)
        (k : KaspaDiff x.Float)
        → is_empty address ≡ false
        → IsOpen c
        → u.diff_tasks ≡ []
        → ((chosen : Text) → d.get_block_template address c.remote_app chosen ≡ ok block)
        → HasDiff d c.state k
        → Answers c
            (job_last (record u { ctx = before_job canxium (authorized address worker c) })).1.ctx
            block
            k.diff_value
    unfolding IsOpen before_job with_extranonce with_canxium authorized
    job_last-Answers address worker canxium c u block k w op idle template has =
        let t = record u { ctx = before_job canxium (authorized address worker c) } in
        let sent =
          send_immediate_job_task-Delivers d now t block k op (authorized_named address worker c)
            idle (template t.ctx.canxium_addr) has in
        subst (λ e. Answers c e.ctx block k.diff_value) (sym (job_given t op.0 w))
          (Delivers-Answers address worker canxium c _ block k.diff_value sent.0)

    -- The miner is told of its authorization first, then of its extranonce if it has one, then of its
    -- difficulty, and then it gets its job, which is stored under its id; nothing else is sent. This
    -- holds for a miner whose wallet can be cleaned, on a connection whose writes succeed, with a
    -- template of the node for the wallet and a difficulty that has a target, if the spawned task runs
    -- in the pause before the job.
    pub handle_authorize-Answers :
        (is_address : Text → Bool) (find_wallet : Text → Option Text) (address_str wallet : Text)
        (s : Session x) (block : Block x) (k : KaspaDiff x.Float)
        → address_param event.params ≡ ok address_str
        → wallet_result is_address find_wallet (split b'.' address_str) ≡ ok wallet
        → is_empty wallet ≡ false
        → IsOpen s.ctx
        → s.diff_tasks ≡ []
        → ((canxium : Text) → d.get_block_template wallet s.ctx.remote_app canxium ≡ ok block)
        → HasDiff d s.ctx.state k
        → Answers s.ctx
            (handle_authorize to_lowercase is_address find_wallet
              (some d)
              true
              true
              now
              event
              s).1.ctx
            block
            k.diff_value
    unfolding handle_authorize registering replying give_extranonce
    handle_authorize-Answers is_address find_wallet address_str wallet s block k h e w op idle
          template has =
        let parts = split b'.' address_str in
        let (worker, canxium) : Text × Text = (worker_of parts, canxium_of to_lowercase parts) in
        let (u, left, ran) = registering_open wallet worker canxium s op w in
        let started : handle_authorize to_lowercase is_address find_wallet (some d) true true now
              event s
            ≡ registering wallet worker canxium s =
          rw (h, e) refl in
        subst (λ r. Answers s.ctx r.1.ctx block k.diff_value) (sym (started ∙ ran))
          (job_last-Answers wallet worker canxium s.ctx u block k w op (left ∙ idle) template has)
