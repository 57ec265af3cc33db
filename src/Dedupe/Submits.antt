-- ===== src/Dedupe/Submits.antt =====
-- bridge/src/share_handler/duplicate_submit.rs: the guard that remembers recent share submissions
-- and what became of them. An operation returns the new guard and its result.
pub mod Invariant
pub mod Memory
pub mod Expired
use rusty_kaspa_stratum.Shared.{
  ℕ, Option, none, some, List, [], ◌∷◌, ◌++◌, HashMap, get as lookup, insert, contains_key, Text,
  text_key, if◌then◌else◌,
}
use rusty_kaspa_stratum.Dedupe.Pruning.{Table}
use rusty_kaspa_stratum.Dedupe.Pruning

pub data DuplicateSubmitOutcome : Type 0 where
  in_flight accepted stale low_diff bad : DuplicateSubmitOutcome

pub record DuplicateSubmitEntry : Type 0 where
  pub ts : ℕ
  pub outcome : DuplicateSubmitOutcome

pub record DuplicateSubmitGuard : Type 0 where
  pub ttl : ℕ
  pub max_entries : ℕ
  pub table : Table DuplicateSubmitEntry
  pub open table use *

unfoldable pub new : ℕ → ℕ → DuplicateSubmitGuard
new ttl max_entries = record {
  ttl = ttl;
  max_entries = max_entries;
  table = record { entries = []; order = [] };
}

abbrev pub time : DuplicateSubmitEntry → ℕ
time e = e.ts

unfoldable pub prune : DuplicateSubmitGuard → ℕ → DuplicateSubmitGuard
prune g now = record g { table = Pruning.prune time g.ttl g.max_entries now g.table }

abbrev outcome_of : Option DuplicateSubmitEntry → Option DuplicateSubmitOutcome
outcome_of none = none
outcome_of (some e) = some e.outcome

unfoldable pub get :
    DuplicateSubmitGuard → Text → ℕ → DuplicateSubmitGuard × Option DuplicateSubmitOutcome
get g key now = let g' = prune g now in (g', outcome_of (lookup key g'.entries))

unfoldable pub insert_inflight : DuplicateSubmitGuard → Text → ℕ → DuplicateSubmitGuard
insert_inflight g key now =
    let g' = prune g now in
    if contains_key key g'.entries then g' else record g' {
      table = record {
        entries = insert key (record { ts = now; outcome = in_flight }) g'.entries;
        order = g'.order ++ key ∷ [];
      };
    }

unfoldable pub set_outcome :
    DuplicateSubmitGuard → Text → ℕ → DuplicateSubmitOutcome → DuplicateSubmitGuard
set_outcome g key now outcome =
    let g' = prune g now in
    if contains_key key g'.entries
    then record g' {
      table = record g'.table {
        entries = insert key (record { ts = now; outcome = outcome }) g'.entries;
      };
    }
    else g'
