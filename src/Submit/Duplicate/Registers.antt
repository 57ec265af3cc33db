-- ===== src/Submit/Duplicate/Registers.antt =====
-- A new submission is registered when it is looked up.
use rusty_kaspa_stratum.Shared.{
  ℕ, ◌-◌, ◌≤◌, ◌<◌, ◌≡◌, refl, false, none, some, Text, text_key, get as lookup, ok, arith,
  Option-cases, inl, inr,
}
use rusty_kaspa_stratum.External.{External}
use rusty_kaspa_stratum.Rpc.{JsonRpcEvent}
use rusty_kaspa_stratum.Dedupe.Pruning
use rusty_kaspa_stratum.Dedupe.Pruning.Keeps.{prune-subset}
use rusty_kaspa_stratum.Dedupe.Submits.{
  DuplicateSubmitGuard, in_flight, get, insert_inflight, prune, time,
}
use rusty_kaspa_stratum.Dedupe.Submits.Invariant.{IsValid, prune-IsPruned}
use rusty_kaspa_stratum.Dedupe.Submits.Memory.{get-insert_inflight}
use rusty_kaspa_stratum.Submit.Session.{Session}
use rusty_kaspa_stratum.Submit.Duplicate.{look_up, respond_on_duplicate}

get_twice :
    (g : DuplicateSubmitGuard) (key : Text) (now : ℕ)
    → (get g key now).1 ≡ none
    → (get (get g key now).0 key now).1 ≡ none
unfolding get prune
get_twice g key now h =
    let once = Pruning.prune time g.ttl g.max_entries now g.table in
    elim (Option-cases (lookup key (Pruning.prune time g.ttl g.max_entries now once).entries)) [
      | inl absent ↦ rw absent
      | inr (e, found) ↦
          absurd (ground (arith, prune-subset time g.ttl g.max_entries now once key e found))
    ]

pub get-guard :
    (g : DuplicateSubmitGuard) (key : Text) (now : ℕ)
    → ((get g key now).0 ≡ prune g now)
      × ((get g key now).0.ttl ≡ g.ttl)
      × ((get g key now).0.max_entries ≡ g.max_entries)
unfolding get prune
get-guard g key now = (refl, refl, refl)

module _ {x : External} (event : JsonRpcEvent x.Number) (key : Text) (check : ℕ)
    (s : Session x) where
  pub respond_none :
      (get s.duplicate_submit_guard key check).1 ≡ none
      → ((respond_on_duplicate event key check s).0 ≡ ok false)
        × ((respond_on_duplicate event key check s).1.duplicate_submit_guard
            ≡ insert_inflight (get s.duplicate_submit_guard key check).0 key check)
  unfolding respond_on_duplicate look_up
  respond_none h = (rw h, rw h)

  -- A submission whose key a well-formed guard with room for an entry does not know is not answered
  -- yet, and the guard answers its key with `in_flight` from then on, for `ttl`.
  pub respond_on_duplicate-get :
      (later : ℕ)
      → IsValid s.duplicate_submit_guard
      → 0 < s.duplicate_submit_guard.max_entries
      → (get s.duplicate_submit_guard key check).1 ≡ none
      → later - check ≤ s.duplicate_submit_guard.ttl
      → ((respond_on_duplicate event key check s).0 ≡ ok false)
        × ((get (respond_on_duplicate event key check s).1.duplicate_submit_guard key later).1
            ≡ some in_flight)
  respond_on_duplicate-get later v pos h young =
      let both = respond_none h in
      let g = s.duplicate_submit_guard in
      let same = get-guard g key check in
      let valid : IsValid (get g key check).0 = rw (same.0) (prune-IsPruned g check v).valid in
      (
        both.0,
        rw (both.1) (
            get-insert_inflight (get g key check).0 key check later valid (omega (arith, same.2))
              (get_twice g key check h) (omega (arith, same.1))),
      )
