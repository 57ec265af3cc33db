-- ===== src/Http/Access/Rate.antt =====
-- How often the configuration can be written.
use rusty_kaspa_stratum.Shared.{
  ℕ, suc, ◌+◌, ◌-◌, ◌≤◌, ◌<◌, ◌≡◌, refl, Bool, true, false, some, List, [], ◌∷◌, ◌++◌, Text,
  if◌then◌else◌, ltb, leb, get, insert, text_key, text_eq, text_eq_iff, unwrap_or, length, arith,
  get-insert, get-empty, length-append, Bool-cases, inl, inr,
}
use rusty_kaspa_stratum.Http.Access.{
  Access, allowed, crashed, denied, rate_limited, Hits, window, retain, check_rate, if_allowed,
  OpsConfig, and_then, check_localhost, check_bearer, check_csrf, check_config_route_access,
}

-- How many of the times are less than a minute before `now`.
unfoldable pub recent : ℕ → List ℕ → ℕ
recent now [] = 0
recent now (t ∷ ts) = let rest = recent now ts in if ltb (now - t) window then suc rest else rest

stored : Text → Hits → List ℕ
stored key hits = unwrap_or (get key hits) []

recent-length : (now : ℕ) (ts : List ℕ) → recent now ts ≤ length ts
unfolding recent
recent-length now [] = omega arith
recent-length now (t ∷ ts) = ground (arith, recent-length now ts)

-- What is dropped stays too old.
recent-retain :
    (now later : ℕ) (ts : List ℕ) → now ≤ later → recent later (retain now ts) ≡ recent later ts
unfolding recent retain
recent-retain now later [] h = refl
recent-retain now later (t ∷ ts) h = ground (arith, h, recent-retain now later ts)

recent-append : (now : ℕ) (ts us : List ℕ) → recent now (ts ++ us) ≡ recent now ts + recent now us
unfolding recent
recent-append now [] us = omega arith
recent-append now (t ∷ ts) us = ground (arith, recent-append now ts us)

abbrev if_accepted : Access → ℕ → List ℕ → List ℕ
if_accepted allowed now ts = now ∷ ts
if_accepted crashed now ts = ts
if_accepted (denied d) now ts = ts

-- A request with its time, the address, and what the tests before that of the rate come to.
abbrev Tested : Type 0
Tested = ℕ × Text × Access

-- The times of the requests of an address that are accepted.
accepted : ℕ → Text → List Tested → Hits → List ℕ
unfolding check_rate
accepted limit key [] hits = []
accepted limit key ((now, peer, before) ∷ calls) hits =
    let (access, hits') = if_allowed before (check_rate limit now peer hits) hits in
    let rest = accepted limit key calls hits' in
    if text_eq peer key then if_accepted access now rest else rest

-- The times do not go back, and `now` is not before the last.
abbrev IsOrdered : ℕ → List Tested → ℕ → Type 0
IsOrdered start [] now = start ≤ now
IsOrdered start ((t, peer, before) ∷ calls) now = (start ≤ t) × IsOrdered t calls now

retain-length : (now : ℕ) (ts : List ℕ) → length (retain now ts) ≤ length ts
unfolding retain
retain-length now [] = omega arith
retain-length now (t ∷ ts) = ground (arith, retain-length now ts)

check_rate-denied :
    (limit now : ℕ) (peer : Text) (hits : Hits)
    → leb limit (length (retain now (stored peer hits))) ≡ true
    → check_rate limit now peer hits
      ≡ (denied rate_limited, insert peer (retain now (stored peer hits)) hits)
unfolding check_rate stored
check_rate-denied limit now peer hits full = rw full refl

check_rate-allowed :
    (limit now : ℕ) (peer : Text) (hits : Hits)
    → leb limit (length (retain now (stored peer hits))) ≡ false
    → check_rate limit now peer hits
      ≡ (allowed, insert peer (retain now (stored peer hits) ++ now ∷ []) hits)
unfolding check_rate stored
check_rate-allowed limit now peer hits room = rw room refl

stored-insert :
    (key peer : Text) (v : List ℕ) (hits : Hits)
    → stored key (insert peer v hits) ≡ (if text_eq peer key then v else stored key hits)
unfolding stored
stored-insert key peer v hits = ground (arith, get-insert peer key v hits)

-- What was accepted before is covered by what is stored, which is not too much.
abbrev Covers : ℕ → ℕ → Text → Hits → List ℕ → Type 0
Covers limit start key hits before =
    (length (stored key hits) ≤ limit)
    × ((n : ℕ) → start ≤ n → recent n before ≤ recent n (stored key hits))

recent_move :
    (now t : ℕ) (xs ys : List ℕ) (n : ℕ)
    → recent now (t ∷ xs) + recent now ys ≤ n
    → recent now xs + recent now (t ∷ ys) ≤ n
unfolding recent
recent_move now t xs ys n h = ground (arith, h)

start-Covers : (limit : ℕ) (key : Text) → Covers limit 0 key [] []
unfolding stored recent
start-Covers limit key = (rw (get-empty {V = List ℕ} key) (omega arith), λ n h. omega arith)

later-Covers :
    (limit start t : ℕ) (key : Text) (hits : Hits) (before : List ℕ)
    → start ≤ t
    → Covers limit start key hits before
    → Covers limit t key hits before
later-Covers limit start t key hits before le (small, covers) =
    (small, λ n h. covers n (omega arith))

module _ (limit : ℕ) (key : Text) where
  other_peer :
      (start t : ℕ) (peer : Text) (v : List ℕ) (hits : Hits) (before : List ℕ)
      → start ≤ t
      → text_eq peer key ≡ false
      → Covers limit start key hits before
      → Covers limit t key (insert peer v hits) before
  other_peer start t peer v hits before le other (small, covers) =
      let same : stored key (insert peer v hits) ≡ stored key hits =
        rw (stored-insert key peer v hits, other) refl in
      (rw same small, λ n h. rw same (covers n (omega arith)))

  same_peer_denied :
      (start t : ℕ) (peer : Text) (hits : Hits) (before : List ℕ)
      → start ≤ t
      → text_eq peer key ≡ true
      → Covers limit start key hits before
      → Covers limit t key (insert peer (retain t (stored key hits)) hits) before
  same_peer_denied start t peer hits before le same (small, covers) =
      let e : stored key (insert peer (retain t (stored key hits)) hits)
          ≡ retain t (stored key hits) =
        rw (stored-insert key peer (retain t (stored key hits)) hits, same) refl in
      (
        rw e (omega (arith, retain-length t (stored key hits))),
        λ n h. rw e (omega (arith, covers n (omega arith), recent-retain t n (stored key hits) h)),
      )

  same_peer_allowed :
      (start t : ℕ) (peer : Text) (hits : Hits) (before : List ℕ)
      → start ≤ t
      → text_eq peer key ≡ true
      → length (retain t (stored key hits)) < limit
      → Covers limit start key hits before
      → Covers limit t key (insert peer (retain t (stored key hits) ++ t ∷ []) hits) (t ∷ before)
  unfolding recent
  same_peer_allowed start t peer hits before le same room (small, covers) =
      let v = retain t (stored key hits) in
      let e : stored key (insert peer (v ++ t ∷ []) hits) ≡ v ++ t ∷ [] =
        rw (stored-insert key peer (v ++ t ∷ []) hits, same) refl in
      (
        rw e (omega (arith, length-append {0} v (t ∷ []))),
        λ n h. rw e (
            ground (
              arith,
              covers n (omega arith),
              recent-retain t n (stored key hits) h,
              recent-append n v (t ∷ []),
            )),
      )

  passed_over :
      (t now : ℕ) (peer : Text) (calls : List Tested) (hits : Hits) (before : List ℕ)
      → recent now before + recent now (accepted limit key calls hits) ≤ limit
      → recent now before
          + recent now (
              if text_eq peer key
              then accepted limit key calls hits
              else accepted limit key calls hits)
        ≤ limit
  passed_over t now peer calls hits before h = ground (arith, h)

  bounded :
      (start now : ℕ) (calls : List Tested) (hits : Hits) (before : List ℕ)
      → IsOrdered start calls now
      → Covers limit start key hits before
      → recent now before + recent now (accepted limit key calls hits) ≤ limit
  unfolding accepted recent
  bounded start now [] hits before ordered (small, covers) =
      omega (arith, covers now ordered, recent-length now (stored key hits))
  bounded start now ((t, peer, crashed) ∷ calls) hits before (le, ordered) c =
      passed_over t now peer calls hits before
        (bounded t now calls hits before ordered (later-Covers limit start t key hits before le c))
  bounded start now ((t, peer, denied d) ∷ calls) hits before (le, ordered) c =
      passed_over t now peer calls hits before
        (bounded t now calls hits before ordered (later-Covers limit start t key hits before le c))
  bounded start now ((t, peer, allowed) ∷ calls) hits before (le, ordered) c =
      elim (Bool-cases (text_eq peer key)) [
        | inr other ↦
            rw other (elim (Bool-cases (leb limit (length (retain t (stored peer hits))))) [
              | inl full ↦ rw (check_rate-denied limit t peer hits full) (
                  bounded t now calls (insert peer (retain t (stored peer hits)) hits) before
                    ordered
                    (other_peer start t peer (retain t (stored peer hits)) hits before le other c))
              | inr room ↦ rw (check_rate-allowed limit t peer hits room) (
                  bounded t now calls (insert peer (retain t (stored peer hits) ++ t ∷ []) hits)
                    before ordered
                    (other_peer start t peer (retain t (stored peer hits) ++ t ∷ []) hits before le
                      other c))
            ])
        | inl same ↦
            let e : peer ≡ key = (text_eq_iff peer key).0 same in
            rw same (elim (Bool-cases (leb limit (length (retain t (stored key hits))))) [
              | inl full ↦
                  rw (check_rate-denied limit t peer hits (rw e full), e)
                    (bounded t now calls (insert key (retain t (stored key hits)) hits) before
                      ordered (same_peer_denied start t key hits before le (rw e at same) c))
              | inr room ↦
                  rw (check_rate-allowed limit t peer hits (rw e room), e)
                    (recent_move now t before
                      (accepted limit key calls
                        (insert key (retain t (stored key hits) ++ t ∷ []) hits))
                      limit
                      (bounded t now calls (insert key (retain t (stored key hits) ++ t ∷ []) hits)
                        (t ∷ before) ordered
                        (same_peer_allowed start t key hits before le (rw e at same)
                          (ground (arith, room)) c)))
            ])
      ]

-- A `POST` of the configuration.
pub record Post : Type 0 where
  pub at : ℕ
  pub request : List Text
  pub peer_ip : Text
  pub is_loopback : Bool

abbrev tested_of : OpsConfig → Post → Access
tested_of c p =
    and_then
      (and_then (check_localhost c.localhost_only p.is_loopback)
        (check_bearer c.ops_bearer p.request))
      (check_csrf c.ops_csrf p.request)

abbrev access_of : OpsConfig → Post → Hits → Access × Hits
access_of c p hits = check_config_route_access c p.request p.peer_ip p.is_loopback true p.at hits

-- The times of the requests of an address that are let through.
unfoldable pub accepted_posts : OpsConfig → Text → List Post → Hits → List ℕ
unfolding check_config_route_access
accepted_posts c key [] hits = []
accepted_posts c key (p ∷ posts) hits =
    let (access, hits') = access_of c p hits in
    let rest = accepted_posts c key posts hits' in
    if text_eq p.peer_ip key then if_accepted access p.at rest else rest

-- The times do not go back, and `now` is not before the last.
abbrev IsTimed : ℕ → List Post → ℕ → Type 0
IsTimed start [] now = start ≤ now
IsTimed start (p ∷ posts) now = (start ≤ p.at) × IsTimed p.at posts now

tested : OpsConfig → List Post → List Tested
tested c [] = []
tested c (p ∷ posts) = (p.at, p.peer_ip, tested_of c p) ∷ tested c posts

tested-IsOrdered :
    (c : OpsConfig) (start now : ℕ) (posts : List Post)
    → IsTimed start posts now
    → IsOrdered start (tested c posts) now
unfolding tested
tested-IsOrdered c start now [] h = h
tested-IsOrdered c start now (p ∷ posts) h = (h.0, tested-IsOrdered c p.at now posts h.1)

accepted_posts-tested :
    (c : OpsConfig) (limit : ℕ) (key : Text) (posts : List Post) (hits : Hits)
    → c.rate_per_min ≡ some limit
    → accepted_posts c key posts hits ≡ accepted limit key (tested c posts) hits
unfolding accepted_posts accepted tested check_config_route_access
accepted_posts-tested c limit key [] hits h = refl
accepted_posts-tested c limit key (p ∷ posts) hits h =
    let (access, hits') = if_allowed (tested_of c p) (check_rate limit p.at p.peer_ip hits) hits in
    rw (h, accepted_posts-tested c limit key posts hits' h) refl

-- However often an address asks, at no time has the configuration been written by it more than `limit`
-- times in the minute before.
pub check_config_route_access_bounded :
    (c : OpsConfig) (limit : ℕ) (key : Text) (now : ℕ) (posts : List Post)
    → c.rate_per_min ≡ some limit
    → IsTimed 0 posts now
    → recent now (accepted_posts c key posts []) ≤ limit
check_config_route_access_bounded c limit key now posts h timed =
    rw (accepted_posts-tested c limit key posts [] h) (
      omega (
        arith,
        bounded limit key 0 now (tested c posts) [] [] (tested-IsOrdered c 0 now posts timed)
            (start-Covers limit key),
      ))
