-- ===== src/Node/Sync/Stable.antt =====
-- When a wait for the node ends.
use rusty_kaspa_stratum.Shared.{
  ℕ, ◌+◌, ◌≤◌, ◌≡◌, refl, Bool, true, false, ◌&&◌, Option, none, some, List, [], ◌∷◌, ◌++◌, arith,
  all, inl, inr, ◌⊎◌, Bool-cases, ap,
}
use rusty_kaspa_stratum.External.{External}
use rusty_kaspa_stratum.Node.Sync.{
  Poll, ready_stable, is_node_synced_for_mining, wait_until_mining_ready_stable,
  min_mining_ready_stable, is_stable, since,
}

module _ {x : External} where
  unfoldable pub is_ready : Poll x → Bool
  is_ready p = is_node_synced_for_mining p.answers

  -- The polls hold a run of ready ones that ends two seconds after `t0` or later.
  abbrev Lasts : ℕ → List (Poll x) → Type 0
  Lasts t0 polls =
      (window : List (Poll x)) × (last : Poll x) × (rest : List (Poll x)) × (polls
        ≡ window ++ last ∷ rest)
      × (all is_ready window ≡ true)
      × (is_ready last ≡ true)
      × (t0 + min_mining_ready_stable ≤ last.now)

  abbrev pub HasStableRun : List (Poll x) → Type 0
  HasStableRun polls =
      (before : List (Poll x)) × (first : Poll x) × (tail : List (Poll x)) × (polls
        ≡ before ++ first ∷ tail)
      × (is_ready first ≡ true)
      × Lasts first.now tail

  HasStableRun-cons :
      (p : Poll x) (polls : List (Poll x)) → HasStableRun polls → HasStableRun (p ∷ polls)
  HasStableRun-cons p polls (before, first, tail, e, r, lasts) =
      (p ∷ before, first, tail, ap (λ l. p ∷ l) e, r, lasts)

  Lasts-cons :
      (t0 : ℕ) (p : Poll x) (polls : List (Poll x))
      → is_ready p ≡ true
      → Lasts t0 polls
      → Lasts t0 (p ∷ polls)
  Lasts-cons t0 p polls r (window, last, rest, e, w, l, t) =
      (p ∷ window, last, rest, ap (λ l. p ∷ l) e, rw r w, l, t)

  module _ (with_shutdown : Bool) where
    step_cases :
        (stable_since : Option ℕ) (p : Poll x) (polls : List (Poll x))
        → wait_until_mining_ready_stable with_shutdown stable_since (p ∷ polls) ≡ ready_stable
        → ((is_ready p && is_stable stable_since p.now) ≡ true)
          ⊎ (wait_until_mining_ready_stable with_shutdown
                (since (is_ready p) stable_since p.now)
                polls
              ≡ ready_stable)
    unfolding wait_until_mining_ready_stable is_ready
    step_cases stable_since p polls h =
        elim (Bool-cases (is_node_synced_for_mining p.answers && is_stable stable_since p.now)) [
          | inl stable ↦ inl stable
          | inr unstable ↦ inr (ground (arith, h, unstable))
        ]

    abbrev Found : Option ℕ → List (Poll x) → Type 0
    Found none polls = HasStableRun polls
    Found (some t0) polls = Lasts t0 polls ⊎ HasStableRun polls

    found_cons :
        (stable_since : Option ℕ) (p : Poll x) (polls : List (Poll x)) (ready : Bool)
        → is_ready p ≡ ready
        → Found (since ready stable_since p.now) polls
        → Found stable_since (p ∷ polls)
    found_cons none p polls true r (inl lasts) = ([], p, polls, refl, r, lasts)
    found_cons none p polls true r (inr run) = HasStableRun-cons p polls run
    found_cons none p polls false r run = HasStableRun-cons p polls run
    found_cons (some t0) p polls true r (inl lasts) = inl (Lasts-cons t0 p polls r lasts)
    found_cons (some t0) p polls true r (inr run) = inr (HasStableRun-cons p polls run)
    found_cons (some t0) p polls false r run = inr (HasStableRun-cons p polls run)

    found_now :
        (stable_since : Option ℕ) (p : Poll x) (polls : List (Poll x))
        → (is_ready p && is_stable stable_since p.now) ≡ true
        → Found stable_since (p ∷ polls)
    found_now none p polls h = absurd (ground (arith, h))
    found_now (some t0) p polls h =
        inl ([], p, polls, refl, refl, ground (arith, h), ground (arith, h))

    found :
        (stable_since : Option ℕ) (polls : List (Poll x))
        → wait_until_mining_ready_stable with_shutdown stable_since polls ≡ ready_stable
        → Found stable_since polls
    unfolding wait_until_mining_ready_stable
    found stable_since [] h = absurd (ground (arith, h))
    found stable_since (p ∷ polls) h = elim (step_cases stable_since p polls h) [
      | inl now ↦ found_now stable_since p polls now
      | inr later ↦
          found_cons stable_since p polls (is_ready p) refl
            (found (since (is_ready p) stable_since p.now) polls later)
    ]

    -- A wait that ends with a node that is ready has seen it ready in every poll of a run that lasts
    -- two seconds or longer.
    pub wait_until_mining_ready_stable-HasStableRun :
        (polls : List (Poll x))
        → wait_until_mining_ready_stable with_shutdown none polls ≡ ready_stable
        → HasStableRun polls
    wait_until_mining_ready_stable-HasStableRun polls h = found none polls h
