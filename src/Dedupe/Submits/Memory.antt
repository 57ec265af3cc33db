-- ===== src/Dedupe/Submits/Memory.antt =====
-- What the guard remembers: a submission that was registered or settled within the last `ttl` is
-- found again, whatever else is in the guard.
use rusty_kaspa_stratum.Shared.{
  ℕ, ◌-◌, ◌≤◌, ◌<◌, ◌≡◌, refl, List, [], ◌∷◌, ◌++◌, arith, length, get as lookup, get-insert_self,
  length-insert_present, Text, text_key, inl, inr, Option-cases, some, none,
}
use rusty_kaspa_stratum.Dedupe.Pruning.Keeps.{prune-fresh}
use rusty_kaspa_stratum.Dedupe.Pruning.Newest.{prune-newest}
use rusty_kaspa_stratum.Dedupe.Submits.{
  DuplicateSubmitGuard, DuplicateSubmitOutcome, DuplicateSubmitEntry, in_flight, time, prune, get,
  insert_inflight, set_outcome,
}
use rusty_kaspa_stratum.Dedupe.Submits.Invariant.{IsValid, prune-IsPruned, push_entry-IsValid}

-- Within the limit on entries, a young entry is found, with its outcome.
get-young :
    (g : DuplicateSubmitGuard) (key : Text) (now : ℕ) (e : DuplicateSubmitEntry)
    → length g.entries ≤ g.max_entries
    → lookup key g.entries ≡ some e
    → now - e.ts ≤ g.ttl
    → (get g key now).1 ≡ some e.outcome
unfolding get prune
get-young g key now e room h young =
    rw (prune-fresh time g.ttl g.max_entries now g.table key e room h young)

ttl-prune : (g : DuplicateSubmitGuard) (now : ℕ) → (prune g now).ttl ≡ g.ttl
unfolding prune
ttl-prune g now = refl

max_entries-prune : (g : DuplicateSubmitGuard) (now : ℕ) → (prune g now).max_entries ≡ g.max_entries
unfolding prune
max_entries-prune g now = refl

-- In a well-formed guard, a key that is found at the time its outcome is set is found with that
-- outcome after it, for `ttl`.
pub get-set_outcome :
    (g : DuplicateSubmitGuard) (key : Text) (now later : ℕ) (o p : DuplicateSubmitOutcome)
    → IsValid g
    → (get g key now).1 ≡ some p
    → later - now ≤ g.ttl
    → (get (set_outcome g key now o) key later).1 ≡ some o
unfolding get set_outcome
get-set_outcome g key now later o p v h young =
    elim (Option-cases (lookup key (prune g now).entries)) [
      | inl absent ↦ absurd (ground (arith, absent))
      | inr (d, found) ↦ rw found (
          get-young _ key later (record { ts = now; outcome = o })
            (omega (
              arith,
              (prune-IsPruned g now v).room,
              length-insert_present key (record { ts = now; outcome = o }) d _ found,
            ))
            (get-insert_self key _ _) (rw (ttl-prune g now) young))
    ]

-- So is the entry whose key was pushed last, also when there is one entry too many.
get-newest :
    (g : DuplicateSubmitGuard) (front : List Text) (key : Text) (now : ℕ) (e : DuplicateSubmitEntry)
    → IsValid g
    → 0 < g.max_entries
    → g.order ≡ front ++ key ∷ []
    → lookup key g.entries ≡ some e
    → now - e.ts ≤ g.ttl
    → (get g key now).1 ≡ some e.outcome
unfolding get prune
get-newest g front key now e v pos last h young = rw (
    prune-newest time g.ttl g.max_entries now front key g.table e pos last v.map v.once v.exact h
      young)

-- In a well-formed guard with room for an entry, a key that is not found at the time it is
-- registered is found in flight after it, for `ttl`.
pub get-insert_inflight :
    (g : DuplicateSubmitGuard) (key : Text) (now later : ℕ)
    → IsValid g
    → 0 < g.max_entries
    → (get g key now).1 ≡ none
    → later - now ≤ g.ttl
    → (get (insert_inflight g key now) key later).1 ≡ some in_flight
unfolding get insert_inflight
get-insert_inflight g key now later v pos h young =
    elim (Option-cases (lookup key (prune g now).entries)) [
      | inr (d, found) ↦ absurd (ground (arith, found))
      | inl absent ↦ rw absent (
          get-newest _ (prune g now).order key later (record { ts = now; outcome = in_flight })
            (push_entry-IsValid (prune g now) key _ (prune-IsPruned g now v) absent)
            (rw (max_entries-prune g now) pos) refl (get-insert_self key _ _)
            (rw (ttl-prune g now) young))
    ]
