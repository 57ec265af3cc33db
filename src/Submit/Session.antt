-- ===== src/Submit/Session.antt =====
-- The state and the errors of the pipeline (submit/error.rs), and the statistics that it updates
-- (lifecycle.rs). A call of `crate::prom` is an entry of `metrics`, a spawned task one of `tasks`.
use rusty_kaspa_stratum.Shared.{
  ℕ, Option, none, some, List, [], ◌∷◌, ◌++◌, get, insert, text_key, Text, codes, if◌then◌else◌,
  is_empty, Exec, ok, ◌>>=◌, ◌>>◌, pure, gets, modify, map_err, contains_text,
}
use rusty_kaspa_stratum.External.{External}
use rusty_kaspa_stratum.Numerals.{IntErrorKind}
use rusty_kaspa_stratum.Mining.State.{KaspaDiff}
use rusty_kaspa_stratum.Stratum.Context.{
  StratumContext, ErrorDisconnected, effective_worker_name, Reply,
}
use rusty_kaspa_stratum.Shares.Stats.{WorkStats, ShareHandler, new_stats}
use rusty_kaspa_stratum.Dedupe.Submits.{DuplicateSubmitGuard}

-- The texts of the parse errors are the standard library's: their kind is kept.
pub data SubmitError : Type 0 where
  too_few_params job_id_wrong_type job_id_out_of_range stale_job nonce_not_string : SubmitError
  job_id_parse nonce_hex_parse : IntErrorKind → SubmitError

pub data SubmitRunError : Type 0 where
  validation : SubmitError → SubmitRunError
  stratum_disconnected : ErrorDisconnected → SubmitRunError
  reply_failed : SubmitRunError

pub data BlockSubmitRejection : Type 0 where
  duplicate_block_stale other : BlockSubmitRejection

unfoldable pub classify_block_submit_error_message : Text → BlockSubmitRejection
classify_block_submit_error_message message =
    if contains_text message (codes "ErrDuplicateBlock") then duplicate_block_stale else other

-- The calls of `crate::prom`, without their labels.
pub data Metric (F : Type 0) : Type 0 where
  session_metrics weak_share stale_share invalid_share block_accepted_by_node : Metric F
  share_found : F → Metric F
  error_bad_data_from_miner error_missing_job : Metric F
  error_no_miner_address error_invalid_address_fmt error_failed_block_fetch : Metric F
  error_failed_set_diff error_disconnected error_failed_send_work : Metric F
  worker_difficulty : F → Metric F
  new_job : Metric F
  block_found block_not_confirmed_blue : Metric F

-- What the task that waits for a block to turn blue is given.
pub record ConfirmTask : Type 0 where
  pub worker : Text
  pub nonce : ℕ
  pub block_score : ℕ
  pub block_hash : Text

pub record Session (x : External) : Type 0 where
  pub handler : ShareHandler x.Float
  pub open handler use *
  pub ctx : StratumContext x
  pub metrics : List (Metric x.Float)
  pub tasks : List ConfirmTask
  -- the difficulties that spawned tasks have still to send
  pub diff_tasks : List x.Float

abbrev pub Run : External → Type 0 → Type 0 → Type 0
Run x E A = Exec (Session x) E A

-- the difficulty that a new entry starts with
unfoldable pub seeded :
    (x : External) → WorkStats x.Float → Option (KaspaDiff x.Float) → WorkStats x.Float
seeded x stats none = stats
seeded x stats (some d) =
    if x.positive d.diff_value then record stats { min_diff = d.diff_value } else stats

module _ {x : External} where
  abbrev pub insert_stats : Text → WorkStats x.Float → Session x → Session x
  insert_stats key stats s = record s {
    handler = record s.handler { stats = insert key stats s.stats };
  }

  -- `sync_worker_prom_session`
  abbrev pub sync_session : Session x → Session x
  sync_session s =
      if is_empty s.ctx.wallet_addr
      then s
      else record s { metrics = s.metrics ++ session_metrics ∷ [] }

  abbrev pub create_stats : ℕ → Text → Option (WorkStats x.Float) → Session x → Session x
  create_stats now key none s =
      insert_stats key (seeded x (new_stats x.zero key now) s.ctx.state.stratum_diff) s
  create_stats now key (some stats) s = s

  abbrev pub bumped :
      (WorkStats x.Float → WorkStats x.Float)
      → Option (WorkStats x.Float)
      → Text
      → Session x
      → Session x
  bumped f none key s = s
  bumped f (some stats) key s = insert_stats key (f stats) s

module _ {x : External} {E : Type 0} where
  unfoldable pub record_metric : Metric x.Float → Run x E (Unit {0})
  record_metric m = modify (λ s. record s { metrics = s.metrics ++ m ∷ [] })

  -- `effective_worker_name` of the connection
  unfoldable pub worker_id : Run x E Text
  worker_id s = let (ctx', name) = effective_worker_name s.ctx in (ok name, record s { ctx = ctx' })

  unfoldable pub set_guard : (DuplicateSubmitGuard → DuplicateSubmitGuard) → Run x E (Unit {0})
  set_guard f = modify λ s. record s {
    handler = record s.handler { duplicate_submit_guard = f s.duplicate_submit_guard };
  }

  -- `ShareHandler::get_create_stats`: the entry stays in the map, and the caller gets its key. The
  -- clone of the source shares the counters with the map.
  unfoldable pub get_create_stats : ℕ → Run x E Text
  get_create_stats now = do
    key ← worker_id
    found ← gets (λ s. get key s.stats)
    modify (λ s. sync_session (create_stats now key found s))
    pure key

  -- An update through the handle that `get_create_stats` returned.
  unfoldable pub update_stats : Text → (WorkStats x.Float → WorkStats x.Float) → Run x E (Unit {0})
  update_stats key f = modify λ s. bumped f (get key s.stats) key s

  unfoldable pub update_overall : (WorkStats x.Float → WorkStats x.Float) → Run x E (Unit {0})
  update_overall f = modify λ s. record s { handler = record s.handler { overall = f s.overall } }

  -- A reply on the connection; its failure is converted by `?`, or by `map_err`.
  unfoldable pub on_ctx : (ErrorDisconnected → E) → Reply x → Run x E (Unit {0})
  on_ctx to_error m s =
      let (r, ctx') = m s.ctx in map_err to_error (λ t. (r, t)) (record s { ctx = ctx' })
