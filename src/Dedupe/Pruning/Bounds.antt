-- ===== src/Dedupe/Pruning/Bounds.antt =====
-- How pruning bounds a table whose queue names every entry, and keeps the queue exact.
use rusty_kaspa_stratum.Shared.{
  ℕ, ◌≤◌, ◌≡◌, true, false, List, [], ◌∷◌, arith, HashMap, get, remove, get-remove, length,
  contains, contains_key, empty_of_none, Text, text_key, text_eq_iff, Option-cases, inl, inr,
}
use rusty_kaspa_stratum.Dedupe.Pruning.{Table, expire, evict, prune}

module _ {V : Type 0} where
  -- Every entry has its key in the queue.
  abbrev pub Covered : List Text → HashMap Text V → Type 0
  Covered order m = (k : Text) → contains_key k m ≡ true → contains order k ≡ true

  -- The queue holds the keys of the entries and no others.
  abbrev pub Exact : List Text → HashMap Text V → Type 0
  Exact order m = (k : Text) → contains_key k m ≡ contains order k

-- No key stands twice in the queue.
abbrev pub Distinct : List Text → Type 0
Distinct [] = Unit {0}
Distinct (k ∷ order) = (contains order k ≡ false) × Distinct order

module _ {V : Type 0} where
  pub Covered-remove :
      (key : Text) (order : List Text) (m : HashMap Text V)
      → Covered (key ∷ order) m
      → Covered order (remove key m)
  Covered-remove key order m c k h = ground (arith, c k, get-remove key k m, text_eq_iff key k)

  pub Exact-remove :
      (key : Text) (order : List Text) (m : HashMap Text V)
      → contains order key ≡ false
      → Exact (key ∷ order) m
      → Exact order (remove key m)
  Exact-remove key order m once c k = ground (arith, c k, get-remove key k m, text_eq_iff key k)

  pub empty_of_Covered : (m : HashMap Text V) → Covered [] m → m ≡ []
  empty_of_Covered m c = empty_of_none m λ k. elim (Option-cases (get k m)) [
    | inl gone ↦ gone
    | inr (v, found) ↦ ground (arith, c k, found)
  ]

  module _ (max : ℕ) where
    -- Eviction ends with at most `max` entries.
    length-evict :
        (order : List Text) (m : HashMap Text V)
        → Covered order m
        → length (evict max order m).entries ≤ max
    unfolding evict
    length-evict [] m c = omega (arith, ap_length (empty_of_Covered m c))
      where
        ap_length : m ≡ [] → length m ≡ 0
        ap_length e = cc
    length-evict (key ∷ order) m c =
        ground (arith, length-evict order (remove key m) (Covered-remove key order m c))

    evict-Covered :
        (order : List Text) (m : HashMap Text V)
        → Covered order m
        → Covered (evict max order m).order (evict max order m).entries
    unfolding evict
    evict-Covered [] m c = c
    evict-Covered (key ∷ order) m c =
        ground (arith, c, evict-Covered order (remove key m) (Covered-remove key order m c))

    evict-Exact :
        (order : List Text) (m : HashMap Text V)
        → Distinct order
        → Exact order m
        → Exact (evict max order m).order (evict max order m).entries
          × Distinct (evict max order m).order
    unfolding evict
    evict-Exact [] m d c = (c, d)
    evict-Exact (key ∷ order) m d c =
        ground (arith, c, d, evict-Exact order (remove key m) d.1 (Exact-remove key order m d.0 c))

  module _ (ts : V → ℕ) (ttl now : ℕ) where
    expire-Covered :
        (order : List Text) (m : HashMap Text V)
        → Covered order m
        → Covered (expire ts ttl now order m).order (expire ts ttl now order m).entries
    unfolding expire
    expire-Covered [] m c = c
    expire-Covered (key ∷ order) m c =
        ground (arith, c, expire-Covered order (remove key m) (Covered-remove key order m c))

    pub expire-Exact :
        (order : List Text) (m : HashMap Text V)
        → Distinct order
        → Exact order m
        → Exact (expire ts ttl now order m).order (expire ts ttl now order m).entries
          × Distinct (expire ts ttl now order m).order
    unfolding expire
    expire-Exact [] m d c = (c, d)
    expire-Exact (key ∷ order) m d c =
        ground (arith, c, d, expire-Exact order (remove key m) d.1 (Exact-remove key order m d.0 c))

module _ {V : Type 0} (ts : V → ℕ) (ttl max now : ℕ) (t : Table V) where
  pub length-prune : Covered t.order t.entries → length (prune ts ttl max now t).entries ≤ max
  unfolding prune
  length-prune c = length-evict max _ _ (expire-Covered ts ttl now t.order t.entries c)

  pub prune-Covered :
      Covered t.order t.entries
      → Covered (prune ts ttl max now t).order (prune ts ttl max now t).entries
  unfolding prune
  prune-Covered c = evict-Covered max _ _ (expire-Covered ts ttl now t.order t.entries c)

  pub prune-Exact :
      Distinct t.order
      → Exact t.order t.entries
      → Exact (prune ts ttl max now t).order (prune ts ttl max now t).entries
        × Distinct (prune ts ttl max now t).order
  unfolding prune
  prune-Exact d c =
      let live = expire-Exact ts ttl now t.order t.entries d c in evict-Exact max _ _ live.1 live.0
