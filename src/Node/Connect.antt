-- ===== src/Node/Connect.antt =====
-- bridge/src/kaspa/kaspaapi/api/mod.rs, `KaspaApi::new`: the loops that connect to the node and that
-- subscribe to its templates, each with a pause before the next attempt. What comes of the attempts is a
-- list; a shutdown is seen during an attempt or in the pause after it. Pauses are in milliseconds.
use rusty_kaspa_stratum.Shared.{
  ℕ, ◌-◌, ◌*◌, ◌≤◌, ◌<◌, ◌^◌, Bool, true, false, List, [], ◌∷◌, ◌++◌, Text, codes, if◌then◌else◌,
  leb, starts_with, arith,
}

pub data Attempt : Type 0 where
  succeeded shutdown_during : Attempt
  failed : Bool → Attempt

-- `going_on` says that the loop goes on after these attempts.
pub data Connected : Type 0 where
  connected shutdown_requested going_on : Connected

abbrev pub min : ℕ → ℕ → ℕ
min a b = if leb a b then a else b

abbrev pub saturating_mul : ℕ → ℕ → ℕ
saturating_mul a b = min (a * b) (2 ^ 64 - 1)

unfoldable pub next_backoff : ℕ → ℕ
next_backoff backoff_ms = min (saturating_mul backoff_ms 2) 5000

abbrev pub grpc_address : Text → Text
grpc_address address =
    if starts_with address (codes "grpc://") then address else codes "grpc://" ++ address

-- The result, and the pauses that were begun.
unfoldable pub connect_loop : ℕ → List Attempt → Connected × List ℕ
unfolding next_backoff
connect_loop backoff_ms [] = (going_on, [])
connect_loop backoff_ms (succeeded ∷ attempts) = (connected, [])
connect_loop backoff_ms (shutdown_during ∷ attempts) = (shutdown_requested, [])
connect_loop backoff_ms (failed true ∷ attempts) = (shutdown_requested, backoff_ms ∷ [])
connect_loop backoff_ms (failed false ∷ attempts) =
    let (r, pauses) = connect_loop (next_backoff backoff_ms) attempts in (r, backoff_ms ∷ pauses)

abbrev pub first_backoff : ℕ
first_backoff = 250

unfoldable pub connect_with_retries : List Attempt → Connected × List ℕ
unfolding connect_loop
connect_with_retries attempts = connect_loop first_backoff attempts

-- Every pause is between these bounds, and none is shorter than the one before.
abbrev pub IsBackoff : ℕ → List ℕ → Type 0
IsBackoff least [] = Unit
IsBackoff least (pause ∷ pauses) = (least ≤ pause) × (pause ≤ 5000) × IsBackoff pause pauses

next_backoff_bounds : (b : ℕ) → 0 < b → b ≤ 5000 → (b ≤ next_backoff b) × (next_backoff b ≤ 5000)
unfolding next_backoff
next_backoff_bounds b pos le = ground arith

IsBackoff-weaken : (a b : ℕ) (pauses : List ℕ) → a ≤ b → IsBackoff b pauses → IsBackoff a pauses
IsBackoff-weaken a b [] le h = tt
IsBackoff-weaken a b (p ∷ pauses) le h = (omega (arith, h.0), h.1, h.2)

connect_loop-IsBackoff :
    (b : ℕ) (attempts : List Attempt) → 0 < b → b ≤ 5000 → IsBackoff b (connect_loop b attempts).1
unfolding connect_loop
connect_loop-IsBackoff b [] pos le = tt
connect_loop-IsBackoff b (succeeded ∷ attempts) pos le = tt
connect_loop-IsBackoff b (shutdown_during ∷ attempts) pos le = tt
connect_loop-IsBackoff b (failed true ∷ attempts) pos le = (omega arith, le, tt)
connect_loop-IsBackoff b (failed false ∷ attempts) pos le =
    let (grows, small) = next_backoff_bounds b pos le in
    (
      omega arith,
      le,
      IsBackoff-weaken b (next_backoff b) (connect_loop (next_backoff b) attempts).1 grows
          (connect_loop-IsBackoff (next_backoff b) attempts (omega (arith, grows)) small),
    )

-- The pauses between the attempts to reach the node are 250 milliseconds at least and 5 seconds at
-- most, and none is shorter than the one before, however many attempts there are.
pub connect_with_retries-IsBackoff :
    (attempts : List Attempt) → IsBackoff first_backoff (connect_with_retries attempts).1
unfolding connect_with_retries
connect_with_retries-IsBackoff attempts =
    connect_loop-IsBackoff first_backoff attempts (omega arith) (omega arith)
