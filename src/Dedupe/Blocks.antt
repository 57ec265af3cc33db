-- ===== src/Dedupe/Blocks.antt =====
-- bridge/src/kaspa/kaspaapi/api/block_submit_guard.rs: the guard that keeps a block from being sent
-- to the node twice. The static guard of the source is the state that the functions pass on.
pub mod Once
pub mod Leftover
use rusty_kaspa_stratum.Shared.{
  ℕ, ◌*◌, ◌^◌, Bool, true, false, List, [], ◌∷◌, ◌++◌, HashMap, insert, contains_key, Text,
  text_key, if◌then◌else◌,
}
use rusty_kaspa_stratum.Shared
use rusty_kaspa_stratum.Dedupe.Pruning.{Table}
use rusty_kaspa_stratum.Dedupe.Pruning

pub record BlockSubmitGuard : Type 0 where
  pub ttl : ℕ
  pub max_entries : ℕ
  pub table : Table ℕ
  pub open table use *

unfoldable pub new : ℕ → ℕ → BlockSubmitGuard
new ttl max_entries = record {
  ttl = ttl;
  max_entries = max_entries;
  table = record { entries = []; order = [] };
}

abbrev pub time : ℕ → ℕ
time t = t

unfoldable pub prune : BlockSubmitGuard → ℕ → BlockSubmitGuard
prune g now = record g { table = Pruning.prune time g.ttl g.max_entries now g.table }

unfoldable pub try_mark : BlockSubmitGuard → Text → ℕ → BlockSubmitGuard × Bool
try_mark g hash now =
    let g' = prune g now in
    if contains_key hash g'.entries then (g', false) else (
      record g' {
        table = record { entries = insert hash now g'.entries; order = g'.order ++ hash ∷ [] };
      },
      true,
    )

-- The key stays in the queue.
unfoldable pub remove : BlockSubmitGuard → Text → ℕ → BlockSubmitGuard
remove g hash now =
    let g' = prune g now in
    record g' { table = record g'.table { entries = Shared.remove hash g'.entries } }

-- `BLOCK_SUBMIT_GUARD` at the start of the program; 600 seconds, in nanoseconds
abbrev pub block_submit_guard : BlockSubmitGuard
unfolding new
block_submit_guard = new (600 * 10 ^ 9) 50_000
