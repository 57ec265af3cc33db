-- ===== src/Node/Templates/Retries.antt =====
-- Which of the node's answers a template comes from.
use rusty_kaspa_stratum.Shared.{
  ℕ, suc, ◌+◌, ◌*◌, ◌≡◌, refl, Bool, true, false, ◌&&◌, Option, none, some, List, [], ◌∷◌, Text,
  arith, if◌then◌else◌, Result, ok, err, Bool-cases, inl, inr,
}
use rusty_kaspa_stratum.External.{External, Block}
use rusty_kaspa_stratum.Mining.Header.{serialize_block_header}
use rusty_kaspa_stratum.Node.Templates.{
  Call, call_error, raw, finished, again, is_malformed, failed_to_get, failed_to_convert, on_call,
  attempts, get_block_template, may_retry,
}

module _ {x : External} where
  -- The answers that are worth another try: an error of the call, or a block with a malformed hash.
  unfoldable pub is_transient : Call x → Bool
  is_transient (call_error e) = true
  is_transient (raw (err e)) = is_malformed e
  is_transient (raw (ok block)) = false

  -- What the last answer comes to.
  unfoldable pub outcome : Call x → Result Text (Block x)
  outcome (call_error e) = err (failed_to_get e)
  outcome (raw (err e)) = err (failed_to_convert e)
  outcome (raw (ok block)) = ok block

  abbrev next_error : Option Text → Call x → Option Text
  next_error last_error (call_error e) = last_error
  next_error last_error (raw (err e)) = some e
  next_error last_error (raw (ok block)) = last_error

  on_call_lem :
      (attempt : ℕ) (last_error : Option Text) (c : Call x)
      → on_call attempt last_error c ≡ (
          if is_transient c && may_retry attempt
          then again (next_error last_error c)
          else finished (outcome c))
  unfolding on_call is_transient outcome serialize_block_header
  on_call_lem attempt last_error (call_error e) = refl
  on_call_lem attempt last_error (raw (err e)) = refl
  on_call_lem attempt last_error (raw (ok block)) = refl

  -- The answer that counts: the first one that is not worth another try, or the third.
  unfoldable pub deciding : (ℕ → Call x) → ℕ × List ℕ
  deciding call =
      if is_transient (call 0)
      then if is_transient (call 1) then (2, 100 ∷ 200 ∷ []) else (1, 100 ∷ [])
      else (0, [])

  module _ (decode : Text → Result Text (Unit {0})) (call : ℕ → Call x) (debug : Option Text → Text)
      (wallet_addr : Text) (decoded : decode wallet_addr ≡ ok tt) where
    attempts_again :
        (left attempt : ℕ) (last_error : Option Text)
        → is_transient (call attempt) ≡ true
        → may_retry attempt ≡ true
        → attempts decode call debug wallet_addr (suc left) attempt last_error ≡ (
            let (r, pauses) =
              attempts decode call debug wallet_addr left
                (attempt + 1)
                (next_error last_error (call attempt)) in
            (r, 100 * (attempt + 1) ∷ pauses))
    unfolding attempts
    attempts_again left attempt last_error transient may =
        rw (decoded, on_call_lem attempt last_error (call attempt), transient, may, attempts) refl

    attempts_finished :
        (left attempt : ℕ) (last_error : Option Text)
        → (is_transient (call attempt) && may_retry attempt) ≡ false
        → attempts decode call debug wallet_addr (suc left) attempt last_error
          ≡ (outcome (call attempt), [])
    unfolding attempts
    attempts_finished left attempt last_error final =
        rw (decoded, on_call_lem attempt last_error (call attempt), final, attempts) refl

    -- For an address that can be decoded, on a node that is ready, the result is what the first answer
    -- comes to that is not worth another try, or the third; the pauses before it are 100 and 200
    -- milliseconds.
    pub get_block_template-deciding :
        get_block_template decode call debug wallet_addr true
        ≡ (outcome (call (deciding call).0), (deciding call).1)
    unfolding get_block_template deciding
    get_block_template-deciding = elim (Bool-cases (is_transient (call 0))) [
      | inr final ↦ rw (final, attempts_finished 2 0 none (rw final refl)) refl
      | inl first ↦ elim (Bool-cases (is_transient (call 1))) [
        | inr final ↦
            rw
              (
                first,
                final,
                attempts_again 2 0 none first refl,
                attempts_finished 1 1 (next_error none (call 0)) (rw final refl),
              )
              refl
        | inl second ↦
            rw
              (
                first,
                second,
                attempts_again 2 0 none first refl,
                attempts_again 1 1 (next_error none (call 0)) second refl,
                attempts_finished 0 2 (next_error (next_error none (call 0)) (call 1))
                    (ground arith),
              )
              refl
      ]
    ]
