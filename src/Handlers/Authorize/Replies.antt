-- ===== src/Handlers/Authorize/Replies.antt =====
-- The steps of a miner's authorization, on a connection whose writes succeed.
use rusty_kaspa_stratum.Shared.{
  ℕ, ◌≡◌, refl, ap, ◌∙◌, ◌+◌, append_nil, Bool, true, false, none, List, [], ◌∷◌, ◌++◌, Text, codes,
  if◌then◌else◌, is_empty, trim, Result, ok, pure, contains_text, get, text_key, Bool-cases,
  Option-cases, inl, inr,
}
use rusty_kaspa_stratum.External.{External}
use rusty_kaspa_stratum.Rpc.{new_event}
use rusty_kaspa_stratum.Stratum.Context.{
  StratumContext, ErrorDisconnected, Message, request, notification, send, send_notification,
  ensure_default_worker_name, Reply, connection_id, default_name,
}
use rusty_kaspa_stratum.Stratum.Context.Names.{default_name-trim}
use rusty_kaspa_stratum.Handlers.{send_extranonce, extranonce_params}
use rusty_kaspa_stratum.Handlers.Authorize.{set_identity, set_canxium, sync_metrics}
use rusty_kaspa_stratum.Jobs.Steps.{IsOpen, write_data_open, after_write, bind_ok, named_worker}
use rusty_kaspa_stratum.Submit.Session.{Session, Run, worker_id, get_create_stats, on_ctx}

module _ {x : External} where
  -- The name of a worker that gives this one, which may be blank.
  unfoldable pub name_or_default : Text → StratumContext x → Text
  name_or_default worker ctx =
      if is_empty (trim worker) then default_name (connection_id ctx) ctx.remote_port else worker

  -- The context once the wallet and the worker are known.
  unfoldable pub authorized : Text → Text → StratumContext x → StratumContext x
  authorized address worker ctx = record ctx {
    identity = record ctx.identity {
      wallet_addr = address;
      worker_name = name_or_default worker ctx;
    };
  }

  unfoldable pub with_canxium : Text → StratumContext x → StratumContext x
  with_canxium canxium ctx = record ctx {
    identity = record ctx.identity {
      canxium_addr = if is_empty canxium then ctx.canxium_addr else canxium;
    };
  }

  pub set_identity-authorized :
      (address worker : Text) (s : Session x)
      → set_identity address worker s ≡ (ok tt, record s { ctx = authorized address worker s.ctx })
  unfolding ensure_default_worker_name authorized name_or_default connection_id
  set_identity-authorized address worker s = elim (Bool-cases (is_empty (trim worker))) [
    | inl h ↦ rw h refl
    | inr h ↦ rw h refl
  ]

  pub authorized_named :
      (address worker : Text) (ctx : StratumContext x)
      → is_empty (trim (authorized address worker ctx).worker_name) ≡ false
  unfolding authorized name_or_default
  authorized_named address worker ctx = elim (Bool-cases (is_empty (trim worker))) [
    | inl h ↦ rw (h, default_name-trim (connection_id ctx) ctx.remote_port)
    | inr h ↦ rw (h, h)
  ]

  pub set_canxium_run :
      (canxium : Text) (s : Session x)
      → set_canxium canxium s ≡ (ok tt, record s { ctx = with_canxium canxium s.ctx })
  unfolding with_canxium
  set_canxium_run canxium s = elim (Bool-cases (is_empty canxium)) [
    | inl h ↦ rw h refl
    | inr h ↦ rw h refl
  ]

  pub worker_id_named :
      {E : Type 0} (s : Session x)
      → is_empty (trim s.ctx.worker_name) ≡ false
      → worker_id {E = E} s ≡ (ok s.ctx.worker_name, s)
  unfolding worker_id
  worker_id_named s h = rw (named_worker s.ctx h) refl

  -- A run that leaves the connection, and what is still to be sent, as they are.
  unfoldable pub Settles : {E A : Type 0} → Session x → A → Result E A × Session x → Type 0
  Settles s a r = (r.0 ≡ ok a) × (r.1.ctx ≡ s.ctx) × (r.1.diff_tasks ≡ s.diff_tasks)

  get_create_stats-Settles :
      (E : Type 0) (now : ℕ) (s : Session x)
      → is_empty (trim s.ctx.worker_name) ≡ false
      → is_empty s.ctx.wallet_addr ≡ false
      → Settles s s.ctx.worker_name (get_create_stats {E = E} now s)
  unfolding get_create_stats worker_id Settles
  get_create_stats-Settles E now s h w = elim (Option-cases (get s.ctx.worker_name s.stats)) [
    | inl g ↦ rw (named_worker s.ctx h, g, w) (refl, refl, refl)
    | inr (v, g) ↦ rw (named_worker s.ctx h, g, w) (refl, refl, refl)
  ]

  pub sync_metrics-Settles :
      (known : Bool) (now : ℕ) (s : Session x)
      → is_empty (trim s.ctx.worker_name) ≡ false
      → is_empty s.ctx.wallet_addr ≡ false
      → Settles s tt (sync_metrics known now s)
  unfolding Settles
  sync_metrics-Settles false now s h w = (refl, refl, refl)
  sync_metrics-Settles true now s h w =
      let done = get_create_stats-Settles Text now s h w in
      let t = (get_create_stats {E = Text} now s).1 in
      let ran : sync_metrics true now s ≡ (ok tt, t) =
        rw w (bind_ok (get_create_stats now) (λ name. pure tt) (ap (λ o. (o, t)) done.0)) in
      (ap (λ r. r.0) ran, ap (λ r. r.1.ctx) ran ∙ done.1, ap (λ r. r.1.diff_tasks) ran ∙ done.2)

  pub on_ctx_ok :
      {E : Type 0} (to_error : ErrorDisconnected → E) (m : Reply x) (s : Session x)
      (ctx : StratumContext x)
      → m s.ctx ≡ (ok tt, ctx)
      → on_ctx to_error m s ≡ (ok tt, record s { ctx = ctx })
  unfolding on_ctx
  on_ctx_ok to_error m s ctx h = rw h refl

  -- The line that gives the extranonce to the miner, where it has one.
  unfoldable pub extranonce_line : (Text → Text) → StratumContext x → Message x.Number
  extranonce_line to_lowercase ctx =
      if contains_text ctx.remote_app (codes "IceRiver")
      then notification (codes "mining.set_extranonce") (extranonce_params to_lowercase ctx)
      else request
          (new_event none (codes "mining.set_extranonce") (extranonce_params to_lowercase ctx))

  send_extranonce_open :
      (to_lowercase : Text → Text) (ctx : StratumContext x)
      → IsOpen ctx
      → send_extranonce to_lowercase ctx
        ≡ (ok tt, after_write (extranonce_line to_lowercase ctx) ctx)
  unfolding send_extranonce extranonce_line send send_notification
  send_extranonce_open to_lowercase ctx h =
      elim (Bool-cases (contains_text ctx.remote_app (codes "IceRiver"))) [
        | inl e ↦
            rw
              (
                e,
                write_data_open
                    (notification (codes "mining.set_extranonce")
                      (extranonce_params to_lowercase ctx))
                    ctx h,
              )
              refl
        | inr e ↦
            rw
              (
                e,
                write_data_open
                    (request (
                      new_event none (codes "mining.set_extranonce")
                        (extranonce_params to_lowercase ctx)))
                    ctx h,
              )
              refl
      ]

  unfoldable pub extranonce_lines : (Text → Text) → StratumContext x → List (Message x.Number)
  extranonce_lines to_lowercase ctx =
      if is_empty ctx.extranonce then [] else extranonce_line to_lowercase ctx ∷ []

  -- The connection after the extranonce was sent, where there is one.
  unfoldable pub with_extranonce : (Text → Text) → StratumContext x → StratumContext x
  with_extranonce to_lowercase ctx = record ctx {
    attempts = if is_empty ctx.extranonce then ctx.attempts else ctx.attempts + 1;
    sent = ctx.sent ++ extranonce_lines to_lowercase ctx;
  }

  unfoldable pub give_extranonce : (Text → Text) → Run x Text (Unit {0})
  give_extranonce to_lowercase s =
      (if is_empty s.ctx.extranonce then pure tt else (λ s.
          let (r, ctx') = send_extranonce to_lowercase s.ctx in (r, record s { ctx = ctx' })))
        s

  pub give_extranonce_open :
      (to_lowercase : Text → Text) (s : Session x)
      → IsOpen s.ctx
      → give_extranonce to_lowercase s
        ≡ (ok tt, record s { ctx = with_extranonce to_lowercase s.ctx })
  unfolding give_extranonce with_extranonce extranonce_lines
  give_extranonce_open to_lowercase s h = elim (Bool-cases (is_empty s.ctx.extranonce)) [
    | inl e ↦ rw (e, append_nil s.ctx.sent) refl
    | inr e ↦ rw (e, send_extranonce_open to_lowercase s.ctx h) refl
  ]
