-- ===== src/Dedupe/Submits/Invariant.antt =====
-- The guard stays well formed: its queue holds exactly the keys of its entries, once each, its map no key twice,
-- and there is at most one entry more than `max_entries`.
use rusty_kaspa_stratum.Shared.{
  ℕ, ◌+◌, ◌≤◌, ◌≡◌, List, [], ◌∷◌, arith, length, get as lookup, get-insert, length-insert_le,
  length-insert_present, Text, text_key, text_eq_iff, inl, inr, Option-cases, get-empty, some, none,
  insert, IsMap, insert-IsMap, ◌++◌,
}
use rusty_kaspa_stratum.Dedupe.Pruning.Bounds.{Exact, Distinct, prune-Exact, length-prune}
use rusty_kaspa_stratum.Dedupe.Pruning.Newest.{prune-IsMap}
use rusty_kaspa_stratum.Dedupe.Pruning.Push.{Exact-push, Distinct-push}
use rusty_kaspa_stratum.Dedupe.Submits.{
  DuplicateSubmitGuard, DuplicateSubmitOutcome, DuplicateSubmitEntry, new, time, prune, get,
  insert_inflight, set_outcome,
}

pub record IsValid (g : DuplicateSubmitGuard) : Type 0 where
  pub map : IsMap g.entries
  pub exact : Exact g.order g.entries
  pub once : Distinct g.order
  pub bounded : length g.entries ≤ g.max_entries + 1

-- After pruning there are at most `max_entries`.
pub record IsPruned (g : DuplicateSubmitGuard) : Type 0 where
  pub valid : IsValid g
  pub room : length g.entries ≤ g.max_entries

pub new-IsValid : (ttl max : ℕ) → IsValid (new ttl max)
unfolding new
new-IsValid ttl max = record {
  map = tt;
  exact = λ k. ground (arith, get-empty {V = DuplicateSubmitEntry} k);
  once = tt;
  bounded = omega arith;
}

pub prune-IsPruned : (g : DuplicateSubmitGuard) (now : ℕ) → IsValid g → IsPruned (prune g now)
unfolding prune
prune-IsPruned g now v =
    let kept = prune-Exact time g.ttl g.max_entries now g.table v.once v.exact in
    let room = length-prune time g.ttl g.max_entries now g.table (λ k h. rw (← v.exact k) h) in
    record {
      valid = record {
        map = prune-IsMap time g.ttl now g.max_entries g.table v.map;
        exact = kept.0;
        once = kept.1;
        bounded = omega (arith, room);
      };
      room = room;
    }

insert_entry-IsValid :
    (g : DuplicateSubmitGuard) (key : Text) (e d : DuplicateSubmitEntry)
    → IsPruned g
    → lookup key g.entries ≡ some d
    → IsValid (record g { table = record g.table { entries = insert key e g.entries } })
insert_entry-IsValid g key e d v h = record {
  map = insert-IsMap key e g.entries v.valid.map;
  exact = λ k. ground (arith, v.valid.exact k, get-insert key k e g.entries, text_eq_iff key k);
  once = v.valid.once;
  bounded = omega (arith, v.room, length-insert_present key e d g.entries h);
}

pub push_entry-IsValid :
    (g : DuplicateSubmitGuard) (key : Text) (e : DuplicateSubmitEntry)
    → IsPruned g
    → lookup key g.entries ≡ none
    → IsValid (record g {
      table = record { entries = insert key e g.entries; order = g.order ++ key ∷ [] };
    })
push_entry-IsValid g key e v h = record {
  map = insert-IsMap key e g.entries v.valid.map;
  exact = Exact-push g.order g.entries key e v.valid.exact;
  once = Distinct-push g.order key (ground (arith, v.valid.exact key)) v.valid.once;
  bounded = omega (arith, v.room, length-insert_le key e g.entries);
}

pub insert_inflight-IsValid :
    (g : DuplicateSubmitGuard) (key : Text) (now : ℕ)
    → IsValid g
    → IsValid (insert_inflight g key now)
unfolding insert_inflight
insert_inflight-IsValid g key now v =
    let p = prune-IsPruned g now v in
    elim (Option-cases (lookup key (prune g now).entries)) [
      | inl absent ↦ rw absent (push_entry-IsValid (prune g now) key _ p absent)
      | inr (d, found) ↦ rw found p.valid
    ]

set_outcome-IsValid :
    (g : DuplicateSubmitGuard) (key : Text) (now : ℕ) (o : DuplicateSubmitOutcome)
    → IsValid g
    → IsValid (set_outcome g key now o)
unfolding set_outcome
set_outcome-IsValid g key now o v =
    let p = prune-IsPruned g now v in
    elim (Option-cases (lookup key (prune g now).entries)) [
      | inl absent ↦ rw absent p.valid
      | inr (d, found) ↦ rw found (insert_entry-IsValid (prune g now) key _ d p found)
    ]

-- What a caller may do with the guard.
pub data Call : Type 0 where
  gets inserts : Text → ℕ → Call
  sets : Text → ℕ → DuplicateSubmitOutcome → Call

unfoldable pub step : DuplicateSubmitGuard → Call → DuplicateSubmitGuard
step g (gets key now) = (get g key now).0
step g (inserts key now) = insert_inflight g key now
step g (sets key now o) = set_outcome g key now o

unfoldable pub run : DuplicateSubmitGuard → List Call → DuplicateSubmitGuard
run g [] = g
run g (c ∷ cs) = run (step g c) cs

step-IsValid : (g : DuplicateSubmitGuard) (c : Call) → IsValid g → IsValid (step g c)
unfolding step get
step-IsValid g (gets key now) v = (prune-IsPruned g now v).valid
step-IsValid g (inserts key now) v = insert_inflight-IsValid g key now v
step-IsValid g (sets key now o) v = set_outcome-IsValid g key now o v

-- From a well-formed guard, any calls at any times give a well-formed guard: no key has two
-- entries, the queue holds each key that has an entry exactly once and no other, and there is at
-- most one entry more than `max_entries`.
pub run-IsValid : (g : DuplicateSubmitGuard) (cs : List Call) → IsValid g → IsValid (run g cs)
unfolding run
run-IsValid g [] v = v
run-IsValid g (c ∷ cs) v = run-IsValid (step g c) cs (step-IsValid g c v)
