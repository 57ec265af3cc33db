-- ===== src/Dedupe/Pruning.antt =====
-- The `prune` that both guards have: entries with a time stamp in a map, their keys in a queue, the
-- oldest first. An `Instant` is a number of time units; `duration_since` stops at 0, like `-`.
pub mod Keeps
pub mod Bounds
pub mod Expiry
pub mod Push
pub mod Newest
use rusty_kaspa_stratum.Shared.{
  ℕ, ◌-◌, Bool, true, Option, none, some, List, [], ◌∷◌, HashMap, get, remove, length, ltb,
  if◌then◌else◌, Text, text_key,
}

-- What `prune` reads and writes: the entries and the queue of their keys.
pub record Table (V : Type 0) : Type 0 where
  pub entries : HashMap Text V
  pub order : List Text

module _ {V : Type 0} (ts : V → ℕ) where
  abbrev pub stale : ℕ → ℕ → Option V → Bool
  stale ttl now none = true
  stale ttl now (some e) = ltb ttl (now - ts e)

  -- First loop: pop the front of the queue while its entry is older than `ttl`, or is missing.
  unfoldable pub expire : ℕ → ℕ → List Text → HashMap Text V → Table V
  expire ttl now [] entries = record { entries = entries; order = [] }
  expire ttl now (key ∷ order) entries =
      let rest = expire ttl now order (remove key entries) in
      if stale ttl now (get key entries)
      then rest
      else record { entries = entries; order = key ∷ order }

-- Second loop: pop the front of the queue while there are more than `max` entries.
unfoldable pub evict : {V : Type 0} → ℕ → List Text → HashMap Text V → Table V
evict max [] entries = record { entries = entries; order = [] }
evict max (key ∷ order) entries =
    let rest = evict max order (remove key entries) in
    if ltb max (length entries) then rest else record { entries = entries; order = key ∷ order }

module _ {V : Type 0} (ts : V → ℕ) where
  unfoldable pub prune : ℕ → ℕ → ℕ → Table V → Table V
  prune ttl max now t =
      let live = expire ts ttl now t.order t.entries in evict max live.order live.entries
