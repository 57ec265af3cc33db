-- ===== src/Dedupe/Submits/Expired.antt =====
-- Expiry: which answers may be older than `ttl`.
use rusty_kaspa_stratum.Shared.{
  ℕ, ◌-◌, ◌≤◌, ◌≡◌, List, ◌∷◌, arith, length, get as lookup, get-insert, Text, text_key, inl, inr,
  Option-cases, some,
}
use rusty_kaspa_stratum.Dedupe.Pruning.Expiry.{Ordered, prune-live, prune-Ordered}
use rusty_kaspa_stratum.Dedupe.Pruning.Keeps.{prune-subset, prune_young_front}
use rusty_kaspa_stratum.Dedupe.Pruning.Push.{Ordered-push}
use rusty_kaspa_stratum.Dedupe.Pruning
use rusty_kaspa_stratum.Dedupe.Submits.{
  DuplicateSubmitGuard, DuplicateSubmitOutcome, DuplicateSubmitEntry, in_flight, time, prune, get,
  insert_inflight,
}
use rusty_kaspa_stratum.Dedupe.Submits.Invariant.{IsValid, prune-IsPruned}

-- The queue is in the order of the time stamps, none of which is in the future.
pub record InOrder (g : DuplicateSubmitGuard) (now : ℕ) : Type 0 where
  pub ordered : Ordered time g.order g.entries
  pub past : (k : Text) (d : DuplicateSubmitEntry) → lookup k g.entries ≡ some d → d.ts ≤ now

prune-InOrder : (g : DuplicateSubmitGuard) (t now : ℕ) → InOrder g t → InOrder (prune g now) t
unfolding prune
prune-InOrder g t now i = record {
  ordered = prune-Ordered time g.ttl g.max_entries now g.table i.ordered;
  past = λ k d h. i.past k d (prune-subset time g.ttl g.max_entries now g.table k d h);
}

-- Registering a submission in a well-formed guard, at a time not before those in it, keeps the
-- queue in the order of the time stamps.
pub insert_inflight-InOrder :
    (g : DuplicateSubmitGuard) (key : Text) (t now : ℕ)
    → IsValid g
    → t ≤ now
    → InOrder g t
    → InOrder (insert_inflight g key now) now
unfolding insert_inflight
insert_inflight-InOrder g key t now v le i =
    let q = prune-InOrder g t now i in
    elim (Option-cases (lookup key (prune g now).entries)) [
      | inr (d, found) ↦
          rw found (record { ordered = q.ordered; past = λ k d h. omega (arith, q.past k d h) })
      | inl absent ↦ rw absent (record {
        ordered =
            Ordered-push time (prune g now).order (prune g now).entries key
              (record { ts = now; outcome = in_flight })
              (ground (arith, (prune-IsPruned g now v).valid.exact key))
              (λ k d h. omega (arith, q.past k d h)) q.ordered;
        past = λ k d h. ground (
          arith,
          q.past k d,
          get-insert key k (record { ts = now; outcome = in_flight }) (prune g now).entries,
        );
      })
    ]

-- In a well-formed guard whose queue is in the order of the time stamps, an outcome that is found
-- is that of an entry not older than `ttl`.
pub get_unexpired :
    (g : DuplicateSubmitGuard) (key : Text) (t now : ℕ) (o : DuplicateSubmitOutcome)
    → IsValid g
    → InOrder g t
    → (get g key now).1 ≡ some o
    → (e : DuplicateSubmitEntry) × (lookup key g.entries ≡ some e)
      × (e.outcome ≡ o)
      × (now - e.ts ≤ g.ttl)
unfolding get prune
get_unexpired g key t now o v i h =
    elim (Option-cases (lookup key (Pruning.prune time g.ttl g.max_entries now g.table).entries)) [
      | inl absent ↦ absurd (ground (arith, absent))
      | inr (e, found) ↦ (
        e,
        prune-subset time g.ttl g.max_entries now g.table key e found,
        ground (arith, found),
        prune-live time g.ttl g.max_entries now g.table key e (λ k c. rw (← v.exact k) c) i.ordered
            found,
      )
    ]

-- While the entry at the front of the queue is young, in a guard that is not over its bound, an
-- entry further back is found however old it is.
pub get_behind_young :
    (g : DuplicateSubmitGuard) (front key : Text) (rest : List Text) (d e : DuplicateSubmitEntry)
    (now : ℕ)
    → length g.entries ≤ g.max_entries
    → g.order ≡ front ∷ rest
    → lookup front g.entries ≡ some d
    → now - d.ts ≤ g.ttl
    → lookup key g.entries ≡ some e
    → (get g key now).1 ≡ some e.outcome
unfolding get prune
get_behind_young g front key rest d e now room o hd young he =
    rw (prune_young_front time g.ttl g.max_entries now g.table front rest d room o hd young, he)
