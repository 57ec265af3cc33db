-- ===== src/Submit/Finish/Remembers.antt =====
-- What the duplicate guard knows after a share was settled.
use rusty_kaspa_stratum.Shared.{
  ℕ, ◌-◌, ◌≤◌, ◌≡◌, refl, ap, ◌∙◌, Bool, true, false, Option, none, some, Text, text_key, ok,
  if◌then◌else◌, ◌∷◌, [], ◌++◌, is_empty, ◌>>◌,
}
use rusty_kaspa_stratum.External.{External}
use rusty_kaspa_stratum.Rpc.{JsonRpcEvent, Value}
use rusty_kaspa_stratum.Shares.Stats.{WorkStats}
use rusty_kaspa_stratum.Dedupe.Submits.{
  DuplicateSubmitGuard, DuplicateSubmitOutcome, low_diff, accepted, get, set_outcome,
}
use rusty_kaspa_stratum.Dedupe.Submits.Invariant.{IsValid}
use rusty_kaspa_stratum.Dedupe.Submits.Memory.{get-set_outcome}
use rusty_kaspa_stratum.Submit.Session.{
  Session, SubmitRunError, get_create_stats, worker_id, sync_session, create_stats, bumped,
  update_stats, update_overall, record_metric, set_guard, on_ctx, session_metrics,
}
use rusty_kaspa_stratum.Submit.Parse.{PreparedSubmit}
use rusty_kaspa_stratum.Submit.Duplicate.{try_reply_low_diff}
use rusty_kaspa_stratum.Submit.Finish.{after_pow_loop, weak_share_found, valid_share_found}
use rusty_kaspa_stratum.Stratum.Context.{effective_worker_name}

-- The outcome that the guard is to keep.
abbrev pub outcome_of_share : Bool → DuplicateSubmitOutcome
outcome_of_share true = low_diff
outcome_of_share false = accepted

module _ {x : External} where
  abbrev guard_of : Session x → DuplicateSubmitGuard
  guard_of s = s.duplicate_submit_guard

  create_stats-guard :
      (now : ℕ) (key : Text) (o : Option (WorkStats x.Float)) (s : Session x)
      → guard_of (create_stats now key o s) ≡ guard_of s
  create_stats-guard now key none s = refl
  create_stats-guard now key (some w) s = refl

  sync_session-guard : (s : Session x) → guard_of (sync_session s) ≡ guard_of s
  sync_session-guard s = by_wallet (is_empty s.ctx.wallet_addr)
    where
      by_wallet :
          (b : Bool)
          → guard_of (if b then s else record s { metrics = s.metrics ++ session_metrics ∷ [] })
            ≡ guard_of s
      by_wallet true = refl
      by_wallet false = refl

  bumped-guard :
      (f : WorkStats x.Float → WorkStats x.Float) (o : Option (WorkStats x.Float)) (key : Text)
      (s : Session x)
      → guard_of (bumped f o key s) ≡ guard_of s
  bumped-guard f none key s = refl
  bumped-guard f (some w) key s = refl

  get_create_stats-guard :
      (now : ℕ) (s : Session x) (E : Type 0)
      → guard_of (get_create_stats {E = E} now s).1 ≡ guard_of s
  unfolding get_create_stats worker_id
  get_create_stats-guard now s E = sync_session-guard _ ∙ create_stats-guard now _ _ _

  get_create_stats_ok :
      (now : ℕ) (s : Session x) (E : Type 0)
      → (get_create_stats {E = E} now s).0 ≡ ok (effective_worker_name s.ctx).1
  unfolding get_create_stats worker_id
  get_create_stats_ok now s E = refl

  low_diff_end-guard :
      (id : Option (Value x.Number)) (f : DuplicateSubmitGuard → DuplicateSubmitGuard)
      (s : Session x)
      → guard_of ((try_reply_low_diff id >> set_guard f) s).1 ≡ f (guard_of s)
  unfolding try_reply_low_diff on_ctx set_guard
  low_diff_end-guard none f s = refl
  low_diff_end-guard (some id) f s = refl

  module _ (now : ℕ) (event : JsonRpcEvent x.Number) (prep : PreparedSubmit x) (s : Session x) where
    weak_share_found-guard :
        guard_of (weak_share_found now event prep s).1
        ≡ set_outcome (guard_of s) prep.submit_key now low_diff
    unfolding weak_share_found update_stats update_overall record_metric
    weak_share_found-guard =
        let made = get_create_stats_ok now s SubmitRunError in
        rw made (
          low_diff_end-guard event.id (λ g. set_outcome g prep.submit_key now low_diff) _
          ∙ ap (λ g. set_outcome g prep.submit_key now low_diff)
              (bumped-guard _ _ _ _ ∙ get_create_stats-guard now s SubmitRunError))

    valid_share_found-guard :
        guard_of (valid_share_found now event prep s).1
        ≡ set_outcome (guard_of s) prep.submit_key now accepted
    unfolding valid_share_found update_stats update_overall record_metric set_guard on_ctx
    valid_share_found-guard =
        let made = get_create_stats_ok now s SubmitRunError in
        let first = (get_create_stats {E = SubmitRunError} now s).1 in
        let next = get_create_stats_ok now first SubmitRunError in
        rw (made, next)
          (ap (λ g. set_outcome g prep.submit_key now accepted)
            (bumped-guard _ _ _ _
              ∙ get_create_stats-guard now first SubmitRunError
              ∙ get_create_stats-guard now s SubmitRunError))

  -- When a share is settled whose key the guard still knows, the guard answers its key with
  -- `low_diff` if the share was weak and with `accepted` if not, for `ttl`, in a well-formed guard
  -- and whatever becomes of the reply.
  pub after_pow_loop-get :
      (now later : ℕ) (event : JsonRpcEvent x.Number) (prep : PreparedSubmit x)
      (invalid_share : Bool) (p : DuplicateSubmitOutcome) (s : Session x)
      → IsValid s.duplicate_submit_guard
      → (get s.duplicate_submit_guard prep.submit_key now).1 ≡ some p
      → later - now ≤ s.duplicate_submit_guard.ttl
      → (get
          (after_pow_loop now event prep invalid_share s).1.duplicate_submit_guard
          prep.submit_key
          later).1
        ≡ some (outcome_of_share invalid_share)
  unfolding after_pow_loop
  after_pow_loop-get now later event prep true p s v h young =
      ap (λ g. (get g prep.submit_key later).1) (weak_share_found-guard now event prep s)
      ∙ get-set_outcome s.duplicate_submit_guard prep.submit_key now later low_diff p v h young
  after_pow_loop-get now later event prep false p s v h young =
      ap (λ g. (get g prep.submit_key later).1) (valid_share_found-guard now event prep s)
      ∙ get-set_outcome s.duplicate_submit_guard prep.submit_key now later accepted p v h young
