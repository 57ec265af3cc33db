-- ===== src/Dedupe/Pruning/Expiry.antt =====
-- When pruning leaves no expired entry: while the time stamps follow the order of the queue.
use rusty_kaspa_stratum.Shared.{
  ℕ, ◌-◌, ◌≤◌, ◌≡◌, true, List, [], ◌∷◌, arith, HashMap, get, remove, get-remove, contains, some,
  Text, text_key, text_eq_iff, Option-cases, inl, inr,
}
use rusty_kaspa_stratum.Dedupe.Pruning.{Table, expire, evict, prune}
use rusty_kaspa_stratum.Dedupe.Pruning.Bounds.{Covered, Covered-remove}
use rusty_kaspa_stratum.Dedupe.Pruning.Keeps.{evict-subset}

module _ {V : Type 0} (ts : V → ℕ) where
  -- No entry further back in the queue is older than one further front.
  abbrev pub Ordered : List Text → HashMap Text V → Type 0
  Ordered [] m = Unit {0}
  Ordered (k ∷ order) m =
      ((e d : V) (j : Text)
        → get k m ≡ some e
        → contains order j ≡ true
        → get j m ≡ some d
        → ts e ≤ ts d)
      × Ordered order m

  Ordered-remove :
      (key : Text) (order : List Text) (m : HashMap Text V)
      → Ordered order m
      → Ordered order (remove key m)
  Ordered-remove key [] m o = tt
  Ordered-remove key (k ∷ order) m o =
      (λ e d j he c hd. o.0 e d j (at k e he) c (at j d hd), Ordered-remove key order m o.1)
    where
      at : (j : Text) (d : V) → get j (remove key m) ≡ some d → get j m ≡ some d
      at j d h = ground (arith, get-remove key j m)

  expire-Ordered :
      (ttl now : ℕ) (order : List Text) (m : HashMap Text V)
      → Ordered order m
      → Ordered (expire ts ttl now order m).order (expire ts ttl now order m).entries
  unfolding expire
  expire-Ordered ttl now [] m o = tt
  expire-Ordered ttl now (key ∷ order) m o =
      ground
        (arith, o, expire-Ordered ttl now order (remove key m) (Ordered-remove key order m o.1))

  evict-Ordered :
      (max : ℕ) (order : List Text) (m : HashMap Text V)
      → Ordered order m
      → Ordered (evict max order m).order (evict max order m).entries
  unfolding evict
  evict-Ordered max [] m o = tt
  evict-Ordered max (key ∷ order) m o =
      ground (arith, o, evict-Ordered max order (remove key m) (Ordered-remove key order m o.1))

  -- Behind a young front nothing is old.
  front-live :
      (ttl now : ℕ) (key : Text) (order : List Text) (m : HashMap Text V) (k : Text) (e d : V)
      → Covered (key ∷ order) m
      → Ordered (key ∷ order) m
      → get key m ≡ some e
      → now - ts e ≤ ttl
      → get k m ≡ some d
      → now - ts d ≤ ttl
  front-live ttl now key order m k e d c o he young hd =
      ground (arith, c k, o.0 e d k, text_eq_iff key k)

  -- Then whatever the first loop leaves is not older than `ttl`.
  expire-live :
      (ttl now : ℕ) (order : List Text) (m : HashMap Text V) (k : Text) (d : V)
      → Covered order m
      → Ordered order m
      → get k (expire ts ttl now order m).entries ≡ some d
      → now - ts d ≤ ttl
  unfolding expire
  expire-live ttl now [] m k d c o h = ground (arith, c k)
  expire-live ttl now (key ∷ order) m k d c o h =
      let deeper =
        expire-live ttl now order (remove key m) k d (Covered-remove key order m c)
          (Ordered-remove key order m o.1) in
      elim (Option-cases (get key m)) [
        | inl gone ↦ ground (arith, deeper)
        | inr (e, found) ↦ ground (arith, deeper, front-live ttl now key order m k e d c o found)
      ]

  -- So `prune` leaves no expired entry.
  pub prune-live :
      (ttl max now : ℕ) (t : Table V) (k : Text) (d : V)
      → Covered t.order t.entries
      → Ordered t.order t.entries
      → get k (prune ts ttl max now t).entries ≡ some d
      → now - ts d ≤ ttl
  unfolding prune
  prune-live ttl max now t k d c o h =
      let live = expire ts ttl now t.order t.entries in
      expire-live ttl now t.order t.entries k d c o (evict-subset max live.order live.entries k d h)

  pub prune-Ordered :
      (ttl max now : ℕ) (t : Table V)
      → Ordered t.order t.entries
      → Ordered (prune ts ttl max now t).order (prune ts ttl max now t).entries
  unfolding prune
  prune-Ordered ttl max now t o = evict-Ordered max _ _ (expire-Ordered ttl now t.order t.entries o)
