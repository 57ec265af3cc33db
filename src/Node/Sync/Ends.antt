-- ===== src/Node/Sync/Ends.antt =====
-- That a wait for the node ends.
use rusty_kaspa_stratum.Shared.{
  ℕ, ◌+◌, ◌≤◌, ◌≡◌, Bool, true, false, ◌&&◌, not, Option, none, some, List, [], ◌∷◌, ◌++◌, arith,
  all, ap, subst, ◌∙◌,
}
use rusty_kaspa_stratum.External.{External}
use rusty_kaspa_stratum.Node.Sync.{
  Poll, ready_stable, wait_until_mining_ready_stable, min_mining_ready_stable, since,
}
use rusty_kaspa_stratum.Node.Sync.Stable.{is_ready, HasStableRun}

and_left : (a b : Bool) → (a && b) ≡ true → a ≡ true
and_left a b h = ground (arith, h)

and_right : (a b : Bool) → (a && b) ≡ true → b ≡ true
and_right a b h = ground (arith, h)

abbrev IsBefore : Option ℕ → ℕ → Type 0
IsBefore none t = Unit
IsBefore (some t0) t = t0 ≤ t

since-IsBefore :
    (ready : Bool) (stable_since : Option ℕ) (t now : ℕ)
    → IsBefore stable_since t
    → t ≤ now
    → IsBefore (since ready stable_since now) now
since-IsBefore true none t now h le = omega arith
since-IsBefore true (some t0) t now h le = omega arith
since-IsBefore false stable_since t now h le = tt

module _ {x : External} where
  -- No shutdown is seen in the turn.
  unfoldable pub is_quiet : Poll x → Bool
  is_quiet p = not p.shutdown && not p.shutdown_in_pause

  -- The times do not go back.
  abbrev IsFrom : ℕ → List (Poll x) → Type 0
  IsFrom t [] = Unit
  IsFrom t (p ∷ polls) = (t ≤ p.now) × IsFrom p.now polls

  module _ (with_shutdown : Bool) where
    quiet_step :
        (stable_since : Option ℕ) (p : Poll x) (polls : List (Poll x))
        → is_quiet p ≡ true
        → wait_until_mining_ready_stable with_shutdown (since (is_ready p) stable_since p.now) polls
          ≡ ready_stable
        → wait_until_mining_ready_stable with_shutdown stable_since (p ∷ polls) ≡ ready_stable
    unfolding wait_until_mining_ready_stable is_ready is_quiet
    quiet_step stable_since p polls quiet h = ground (arith, quiet, h)

    last_step :
        (t0 : ℕ) (p : Poll x) (polls : List (Poll x))
        → is_quiet p ≡ true
        → is_ready p ≡ true
        → t0 + min_mining_ready_stable ≤ p.now
        → wait_until_mining_ready_stable with_shutdown (some t0) (p ∷ polls) ≡ ready_stable
    unfolding wait_until_mining_ready_stable is_ready is_quiet
    last_step t0 p polls quiet ready old = ground (arith, quiet, ready, old)

    run_ends :
        (t0 : ℕ) (window : List (Poll x)) (last : Poll x) (rest : List (Poll x))
        → all is_quiet (window ++ last ∷ rest) ≡ true
        → all is_ready window ≡ true
        → is_ready last ≡ true
        → t0 + min_mining_ready_stable ≤ last.now
        → wait_until_mining_ready_stable with_shutdown (some t0) (window ++ last ∷ rest)
          ≡ ready_stable
    run_ends t0 [] last rest quiet ready r old =
        last_step t0 last rest (ground (arith, quiet)) r old
    run_ends t0 (p ∷ window) last rest quiet ready r old =
        quiet_step (some t0) p (window ++ last ∷ rest) (ground (arith, quiet)) (
          rw (and_left (is_ready p) (all is_ready window) ready)
            (run_ends t0 window last rest (ground (arith, quiet)) (ground (arith, ready)) r old))

    first_ends :
        (stable_since : Option ℕ) (first last : Poll x) (window rest : List (Poll x))
        → IsBefore stable_since first.now
        → all is_quiet (first ∷ (window ++ last ∷ rest)) ≡ true
        → is_ready first ≡ true
        → all is_ready window ≡ true
        → is_ready last ≡ true
        → first.now + min_mining_ready_stable ≤ last.now
        → wait_until_mining_ready_stable with_shutdown stable_since
            (first ∷ (window ++ last ∷ rest))
          ≡ ready_stable
    first_ends none first last window rest early quiet r w l old =
        quiet_step none first (window ++ last ∷ rest)
          (and_left (is_quiet first) (all is_quiet (window ++ last ∷ rest)) quiet)
          (rw r (
            run_ends first.now window last rest
              (and_right (is_quiet first) (all is_quiet (window ++ last ∷ rest)) quiet) w l old))
    first_ends (some t0) first last window rest early quiet r w l old =
        quiet_step (some t0) first (window ++ last ∷ rest)
          (and_left (is_quiet first) (all is_quiet (window ++ last ∷ rest)) quiet)
          (rw r (
            run_ends t0 window last rest
              (and_right (is_quiet first) (all is_quiet (window ++ last ∷ rest)) quiet) w l
              (omega arith)))

    ends :
        (stable_since : Option ℕ) (t : ℕ) (before window rest : List (Poll x)) (first last : Poll x)
        → IsBefore stable_since t
        → IsFrom t (before ++ first ∷ (window ++ last ∷ rest))
        → all is_quiet (before ++ first ∷ (window ++ last ∷ rest)) ≡ true
        → is_ready first ≡ true
        → all is_ready window ≡ true
        → is_ready last ≡ true
        → first.now + min_mining_ready_stable ≤ last.now
        → wait_until_mining_ready_stable with_shutdown stable_since
            (before ++ first ∷ (window ++ last ∷ rest))
          ≡ ready_stable
    ends none t [] window rest first last early from quiet r w l old =
        first_ends none first last window rest tt quiet r w l old
    ends (some t0) t [] window rest first last early from quiet r w l old =
        first_ends (some t0) first last window rest (omega (arith, from.0)) quiet r w l old
    ends stable_since t (p ∷ before) window rest first last early from quiet r w l old =
        let polls = before ++ first ∷ (window ++ last ∷ rest) in
        quiet_step stable_since p polls (and_left (is_quiet p) (all is_quiet polls) quiet) (
          ends (since (is_ready p) stable_since p.now) p.now before window rest first last
            (since-IsBefore (is_ready p) stable_since t p.now early from.0) from.1
            (and_right (is_quiet p) (all is_quiet polls) quiet) r w l old)

    -- A wait in which no shutdown is seen ends with a node that is ready, if the node is ready in
    -- every poll of some run that lasts two seconds or longer.
    pub wait_until_mining_ready_stable_ends :
        (polls : List (Poll x))
        → IsFrom 0 polls
        → all is_quiet polls ≡ true
        → HasStableRun polls
        → wait_until_mining_ready_stable with_shutdown none polls ≡ ready_stable
    wait_until_mining_ready_stable_ends polls from quiet
          (before, first, tail, e, r, (window, last, rest, e', w, l, old)) =
        let whole : polls ≡ before ++ first ∷ (window ++ last ∷ rest) =
          e ∙ ap (λ s. before ++ first ∷ s) e' in
        rw whole (
          ends none 0 before window rest first last tt (subst (IsFrom 0) whole from)
            (rw (← whole) quiet) r w l old)
