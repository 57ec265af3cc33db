-- ===== src/Submit/Handle/Settled.antt =====
-- A whole submission that ends with a share, and what the guard knows after it.
use rusty_kaspa_stratum.Shared.{
  ℕ, ◌-◌, ◌≤◌, ◌<◌, ◌≡◌, ap, ◌∙◌, Bool, false, none, some, Text, text_key, get as lookup, ok, arith,
  Option-cases, inl, inr,
}
use rusty_kaspa_stratum.External.{External, Block}
use rusty_kaspa_stratum.Rpc.{JsonRpcEvent}
use rusty_kaspa_stratum.Dedupe.Submits.{DuplicateSubmitGuard, get, insert_inflight, prune}
use rusty_kaspa_stratum.Dedupe.Submits.Invariant.{IsValid, prune-IsPruned, insert_inflight-IsValid}
use rusty_kaspa_stratum.Submit.Session.{Session}
use rusty_kaspa_stratum.Submit.Parse.{PreparedSubmit, prepare}
use rusty_kaspa_stratum.Submit.Duplicate.{respond_on_duplicate}
use rusty_kaspa_stratum.Submit.Duplicate.Registers.{
  respond_none, get-guard, respond_on_duplicate-get,
}
use rusty_kaspa_stratum.Submit.BlockSubmit.{SubmitAnswer}
use rusty_kaspa_stratum.Submit.PowLoop.{continue_with, run_pow_validation_loop}
use rusty_kaspa_stratum.Submit.Finish.{after_pow_loop}
use rusty_kaspa_stratum.Submit.Finish.Remembers.{outcome_of_share, after_pow_loop-get}
use rusty_kaspa_stratum.Submit.Handle.{handle_submit}

insert_inflight-ttl :
    (g : DuplicateSubmitGuard) (key : Text) (now : ℕ) → (insert_inflight g key now).ttl ≡ g.ttl
unfolding insert_inflight prune
insert_inflight-ttl g key now = elim (Option-cases (lookup key (prune g now).entries)) [
  | inl absent ↦ rw absent
  | inr (e, found) ↦ rw found
]

module _ {x : External} (submit_block : Block x → SubmitAnswer) (check now : ℕ)
    (event : JsonRpcEvent x.Number) where
  handle_submit_settled :
      (s t : Session x) (prep : PreparedSubmit x) (b : Bool)
      → prepare event s ≡ (ok prep, t)
      → (respond_on_duplicate event prep.submit_key check t).0 ≡ ok false
      → run_pow_validation_loop submit_block now event prep
          (respond_on_duplicate event prep.submit_key check t).1
        ≡ (ok (continue_with b), (respond_on_duplicate event prep.submit_key check t).1)
      → handle_submit submit_block check now event s
        ≡ after_pow_loop now event prep b (respond_on_duplicate event prep.submit_key check t).1
  unfolding handle_submit
  handle_submit_settled s t prep b e h l = rw (e, h, l)

  -- A new submission that ends with a share, weak or not, leaves its outcome with the guard: for
  -- `ttl`, the key of the submission is answered with `low_diff` or with `accepted`. The guard is
  -- well formed with room for an entry, and the share is settled within `ttl` of its registration.
  pub handle_submit-get :
      (s t : Session x) (prep : PreparedSubmit x) (b : Bool) (later : ℕ)
      → prepare event s ≡ (ok prep, t)
      → IsValid t.duplicate_submit_guard
      → 0 < t.duplicate_submit_guard.max_entries
      → (get t.duplicate_submit_guard prep.submit_key check).1 ≡ none
      → now - check ≤ t.duplicate_submit_guard.ttl
      → run_pow_validation_loop submit_block now event prep
          (respond_on_duplicate event prep.submit_key check t).1
        ≡ (ok (continue_with b), (respond_on_duplicate event prep.submit_key check t).1)
      → later - now ≤ t.duplicate_submit_guard.ttl
      → (get
          (handle_submit submit_block check now event s).1.duplicate_submit_guard
          prep.submit_key
          later).1
        ≡ some (outcome_of_share b)
  handle_submit-get s t prep b later e v pos new soon l young =
      let g = t.duplicate_submit_guard in
      let key = prep.submit_key in
      let u = (respond_on_duplicate event key check t).1 in
      let registered = respond_on_duplicate-get event key check t now v pos new soon in
      let guard = (respond_none event key check t new).1 in
      let same = get-guard g key check in
      let pruned : IsValid (get g key check).0 = rw (same.0) (prune-IsPruned g check v).valid in
      let valid : IsValid u.duplicate_submit_guard =
        rw guard (insert_inflight-IsValid (get g key check).0 key check pruned) in
      let ttl : u.duplicate_submit_guard.ttl ≡ g.ttl =
        ap (λ h. h.ttl) guard ∙ insert_inflight-ttl (get g key check).0 key check ∙ same.1 in
      rw (handle_submit_settled s t prep b e registered.0 l) (
        after_pow_loop-get now later event prep b _ u valid registered.1
          (omega (arith, ttl, young)))
