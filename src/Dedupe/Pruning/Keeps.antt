-- ===== src/Dedupe/Pruning/Keeps.antt =====
-- What pruning keeps: it only takes entries away, never a fresh one while there is room.
use rusty_kaspa_stratum.Shared.{
  ℕ, ◌+◌, ◌-◌, ◌≤◌, ◌≡◌, refl, some, List, [], ◌∷◌, arith, HashMap, get, remove, get-remove,
  length-remove_le, length-remove_lt, length, Text, text_key, text_eq_iff,
}
use rusty_kaspa_stratum.Dedupe.Pruning.{Table, expire, evict, prune}

module _ {V : Type 0} (ts : V → ℕ) (ttl now : ℕ) where
  pub expire-fresh :
      (order : List Text) (m : HashMap Text V) (k : Text) (e : V)
      → get k m ≡ some e
      → now - ts e ≤ ttl
      → get k (expire ts ttl now order m).entries ≡ some e
  unfolding expire
  expire-fresh [] m k e h fresh = h
  expire-fresh (key ∷ order) m k e h fresh =
      ground (arith, expire-fresh order (remove key m) k e, get-remove key k m, text_eq_iff key k)

  expire-subset :
      (order : List Text) (m : HashMap Text V) (k : Text) (e : V)
      → get k (expire ts ttl now order m).entries ≡ some e
      → get k m ≡ some e
  unfolding expire
  expire-subset [] m k e h = h
  expire-subset (key ∷ order) m k e h =
      ground (arith, expire-subset order (remove key m) k e, get-remove key k m)

  length-expire_le :
      (order : List Text) (m : HashMap Text V)
      → length (expire ts ttl now order m).entries ≤ length m
  unfolding expire
  length-expire_le [] m = omega arith
  length-expire_le (key ∷ order) m =
      ground (arith, length-expire_le order (remove key m), length-remove_le key m)

module _ {V : Type 0} (max : ℕ) where
  pub evict_noop :
      (order : List Text) (m : HashMap Text V)
      → length m ≤ max
      → evict max order m ≡ record { entries = m; order = order }
  unfolding evict
  evict_noop [] m h = refl
  evict_noop (key ∷ order) m h = ground arith

  pub evict-subset :
      (order : List Text) (m : HashMap Text V) (k : Text) (e : V)
      → get k (evict max order m).entries ≡ some e
      → get k m ≡ some e
  unfolding evict
  evict-subset [] m k e h = h
  evict-subset (key ∷ order) m k e h =
      ground (arith, evict-subset order (remove key m) k e, get-remove key k m)

  length-evict_le :
      (order : List Text) (m : HashMap Text V) → length (evict max order m).entries ≤ length m
  unfolding evict
  length-evict_le [] m = omega arith
  length-evict_le (key ∷ order) m =
      ground (arith, length-evict_le order (remove key m), length-remove_le key m)

  -- With one entry too many, only the front of the queue goes.
  pub evict_one :
      (key : Text) (order : List Text) (m : HashMap Text V) (d : V)
      → length m ≡ max + 1
      → get key m ≡ some d
      → evict max (key ∷ order) m ≡ record { entries = remove key m; order = order }
  unfolding evict
  evict_one key order m d full h =
      ground (arith, evict_noop order (remove key m), length-remove_lt key d m)

-- A fresh entry survives `prune` as long as there are not too many entries.
pub prune-fresh :
    {V : Type 0} (ts : V → ℕ) (ttl max now : ℕ) (t : Table V) (k : Text) (e : V)
    → length t.entries ≤ max
    → get k t.entries ≡ some e
    → now - ts e ≤ ttl
    → get k (prune ts ttl max now t).entries ≡ some e
unfolding prune
prune-fresh ts ttl max now t k e room h fresh =
    let live = expire ts ttl now t.order t.entries in
    let small : length live.entries ≤ max =
      omega (arith, length-expire_le ts ttl now t.order t.entries) in
    rw (evict_noop max live.order live.entries small)
      (expire-fresh ts ttl now t.order t.entries k e h fresh)

pub prune-subset :
    {V : Type 0} (ts : V → ℕ) (ttl max now : ℕ) (t : Table V) (k : Text) (e : V)
    → get k (prune ts ttl max now t).entries ≡ some e
    → get k t.entries ≡ some e
unfolding prune
prune-subset ts ttl max now t k e h =
    let live = expire ts ttl now t.order t.entries in
    expire-subset ts ttl now t.order t.entries k e (evict-subset max live.order live.entries k e h)

length-prune_le :
    {V : Type 0} (ts : V → ℕ) (ttl max now : ℕ) (t : Table V)
    → length (prune ts ttl max now t).entries ≤ length t.entries
unfolding prune
length-prune_le ts ttl max now t =
    let live = expire ts ttl now t.order t.entries in
    omega (
      arith,
      length-evict_le max live.order live.entries,
      length-expire_le ts ttl now t.order t.entries,
    )

expire_young_front :
    {V : Type 0} (ts : V → ℕ) (ttl now : ℕ) (m : HashMap Text V) (front : Text) (rest : List Text)
    (d : V)
    → get front m ≡ some d
    → now - ts d ≤ ttl
    → expire ts ttl now (front ∷ rest) m ≡ record { entries = m; order = front ∷ rest }
unfolding expire
expire_young_front ts ttl now m front rest d h young = ground arith

-- A young entry at the front of the queue stops the search for expired ones.
pub prune_young_front :
    {V : Type 0} (ts : V → ℕ) (ttl max now : ℕ) (t : Table V) (front : Text) (rest : List Text)
    (d : V)
    → length t.entries ≤ max
    → t.order ≡ front ∷ rest
    → get front t.entries ≡ some d
    → now - ts d ≤ ttl
    → (prune ts ttl max now t).entries ≡ t.entries
unfolding prune
prune_young_front ts ttl max now t front rest d room o h young = rw (
  o,
  expire_young_front ts ttl now t.entries front rest d h young,
  evict_noop max (front ∷ rest) t.entries room,
)

-- Over the limit, a young entry at the front is the one that goes.
pub prune_full_front :
    {V : Type 0} (ts : V → ℕ) (ttl max now : ℕ) (t : Table V) (front : Text) (rest : List Text)
    (d : V)
    → length t.entries ≡ max + 1
    → t.order ≡ front ∷ rest
    → get front t.entries ≡ some d
    → now - ts d ≤ ttl
    → (prune ts ttl max now t).entries ≡ remove front t.entries
unfolding prune
prune_full_front ts ttl max now t front rest d full o h young = rw (
  o,
  expire_young_front ts ttl now t.entries front rest d h young,
  evict_one max front rest t.entries d full h,
)
