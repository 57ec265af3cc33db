-- ===== src/Dedupe/Pruning/Newest.antt =====
-- The entry whose key was pushed last outlives a pruning at which it is young.
use rusty_kaspa_stratum.Shared.{
  ℕ, ◌-◌, ◌≤◌, ◌<◌, ◌≡◌, refl, ap, List, [], ◌∷◌, ◌++◌, arith, length, get, remove, get-remove,
  IsMap, remove-IsMap, length-remove, HashMap, Text, text_key, text_eq_iff, some, Bool-cases, inl,
  inr,
}
use rusty_kaspa_stratum.Dedupe.Pruning.{Table, expire, evict, prune, stale}
use rusty_kaspa_stratum.Dedupe.Pruning.Bounds.{
  Exact, Distinct, Exact-remove, empty_of_Covered, expire-Exact,
}
use rusty_kaspa_stratum.Dedupe.Pruning.Keeps.{expire-fresh}
use rusty_kaspa_stratum.Dedupe.Pruning.Push.{contains-push}

module _ {V : Type 0} where
  lone_length :
      (key : Text) (m : HashMap Text V) (e : V)
      → IsMap m
      → Exact (key ∷ []) m
      → get key m ≡ some e
      → length m ≡ 1
  lone_length key m e u c h =
      let gone : remove key m ≡ [] =
        empty_of_Covered (remove key m)
          λ k g. ground (arith, c k, get-remove key k m, text_eq_iff key k) in
      omega (arith, length-remove key e m u h, ap length gone)

  evict-newest :
      (max : ℕ) (front : List Text) (key : Text) (m : HashMap Text V) (e : V)
      → 0 < max
      → IsMap m
      → Distinct (front ++ key ∷ [])
      → Exact (front ++ key ∷ []) m
      → get key m ≡ some e
      → get key (evict max (front ++ key ∷ []) m).entries ≡ some e
  unfolding evict
  evict-newest max [] key m e pos u d c h = ground (arith, lone_length key m e u c h)
  evict-newest max (k ∷ front) key m e pos u d c h = ground (
    arith,
    h,
    evict-newest max front key (remove k m) e pos (remove-IsMap k m u) d.1
        (Exact-remove k (front ++ key ∷ []) m d.0 c),
    get-remove k key m,
    text_eq_iff k key,
    contains-push front key k,
    text_eq_iff key k,
  )

  evict-IsMap :
      (max : ℕ) (order : List Text) (m : HashMap Text V)
      → IsMap m
      → IsMap (evict max order m).entries
  unfolding evict
  evict-IsMap max [] m u = u
  evict-IsMap max (key ∷ order) m u =
      ground (arith, u, evict-IsMap max order (remove key m) (remove-IsMap key m u))

  module _ (ts : V → ℕ) (ttl now : ℕ) where
    expire-IsMap :
        (order : List Text) (m : HashMap Text V)
        → IsMap m
        → IsMap (expire ts ttl now order m).entries
    unfolding expire
    expire-IsMap [] m u = u
    expire-IsMap (key ∷ order) m u =
        ground (arith, u, expire-IsMap order (remove key m) (remove-IsMap key m u))

    pub prune-IsMap :
        (max : ℕ) (t : Table V) → IsMap t.entries → IsMap (prune ts ttl max now t).entries
    unfolding prune
    prune-IsMap max t u = evict-IsMap max _ _ (expire-IsMap t.order t.entries u)

    -- A young last key stays last.
    expire-last :
        (front : List Text) (key : Text) (m : HashMap Text V) (e : V)
        → get key m ≡ some e
        → now - ts e ≤ ttl
        → Distinct (front ++ key ∷ [])
        → (rest : List Text) × ((expire ts ttl now (front ++ key ∷ []) m).order ≡ rest ++ key ∷ [])
    unfolding expire
    expire-last [] key m e h young d = ([], ground arith)
    expire-last (k ∷ front) key m e h young d =
        let still : get key (remove k m) ≡ some e = ground (
          arith,
          h,
          d.0,
          get-remove k key m,
          contains-push front key k,
          text_eq_iff k key,
          text_eq_iff key k,
        ) in
        elim (Bool-cases (stale ts ttl now (get k m))) [
          | inl old ↦ rw old (expire-last front key (remove k m) e still young d.1)
          | inr fresh ↦ rw fresh (k ∷ front, refl)
        ]

-- Pruning keeps the key that was pushed last, if its entry is young and some entry is allowed.
pub prune-newest :
    {V : Type 0} (ts : V → ℕ) (ttl max now : ℕ) (front : List Text) (key : Text) (t : Table V)
    (e : V)
    → 0 < max
    → t.order ≡ front ++ key ∷ []
    → IsMap t.entries
    → Distinct t.order
    → Exact t.order t.entries
    → get key t.entries ≡ some e
    → now - ts e ≤ ttl
    → get key (prune ts ttl max now t).entries ≡ some e
unfolding prune
prune-newest ts ttl max now front key t e pos last u d c h young =
    let live = expire ts ttl now t.order t.entries in
    let kept = expire-Exact ts ttl now t.order t.entries d c in
    let (rest, eq) = expire-last ts ttl now front key t.entries e h young (rw last at d) in
    let eq' : live.order ≡ rest ++ key ∷ [] = rw last eq in
    rw eq' (
      evict-newest max rest key live.entries e pos (expire-IsMap ts ttl now t.order t.entries u)
        (rw eq' at kept.1) (rw eq' at kept.0)
        (expire-fresh ts ttl now t.order t.entries key e h young))
