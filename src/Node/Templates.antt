-- ===== src/Node/Templates.antt =====
-- bridge/src/kaspa/kaspaapi/api/template_submit.rs: `get_block_template` and its retries. The RPC client
-- is a parameter: `decode` is `Address::try_from`, and the n-th call is answered by `call n`. A run
-- gives its result and the pauses before the retries, in milliseconds.
pub mod Retries
pub mod Fetch
use rusty_kaspa_stratum.Shared.{
  ℕ, zero, suc, ◌+◌, ◌-◌, ◌*◌, Bool, not, ◌&&◌, Option, none, some, List, [], ◌∷◌, ◌++◌, Text,
  codes, if◌then◌else◌, ltb, contains_text, Result, ok, err,
}
use rusty_kaspa_stratum.External.{External, Block}
use rusty_kaspa_stratum.Mining.Header.{serialize_block_header}

-- What `get_block_template_call` answers: an error, or a raw block and what `Block::try_from` makes of
-- it, its error in the Debug format.
pub data Call (x : External) : Type 0 where
  call_error : Text → Call x
  raw : Result Text (Block x) → Call x

-- How a turn of the loop ends: with `return`, or with `continue` and `last_error`.
pub data Turn (x : External) : Type 0 where
  finished : Result Text (Block x) → Turn x
  again : Option Text → Turn x

abbrev pub max_retries : ℕ
max_retries = 3

abbrev pub refusing : Text
refusing =
    codes
      "refusing block template: node not mining-ready (sync, P2P IBD, or DAG block/header count mismatch)"

abbrev pub could_not_decode : Text → Text → Text
could_not_decode wallet_addr e =
    codes "Could not decode address " ++ (wallet_addr ++ (codes ": " ++ e))

abbrev pub failed_to_get : Text → Text
failed_to_get e = codes "Failed to get block template after 3 attempts: " ++ e

unfoldable pub is_malformed : Text → Bool
is_malformed e = contains_text e (codes "Odd number of digits")

unfoldable pub failed_to_convert : Text → Text
unfolding is_malformed
failed_to_convert e =
    if is_malformed e
    then codes "Failed to convert RPC block to Block after 3 attempts: "
      ++ (e
          ++ codes
              " - This usually indicates a malformed hash field in the block template from the Kaspa node. The block may have a hash with an odd-length hex string.")
    else codes "Failed to convert RPC block to Block: " ++ e

abbrev pub may_retry : ℕ → Bool
may_retry attempt = ltb attempt (max_retries - 1)

module _ {x : External} where
  unfoldable pub on_serialized : ℕ → Block x → Result Text (List ℕ) → Turn x
  on_serialized attempt block (ok hash) = finished (ok block)
  on_serialized attempt block (err e) =
      if is_malformed e && may_retry attempt
      then again (some (codes "Block has malformed hash field: " ++ e))
      else finished (err (codes "Failed to serialize block header: " ++ e))

  unfoldable pub on_call : ℕ → Option Text → Call x → Turn x
  unfolding on_serialized
  on_call attempt last_error (call_error e) =
      if may_retry attempt then again last_error else finished (err (failed_to_get e))
  on_call attempt last_error (raw (err e)) =
      if is_malformed e && may_retry attempt
      then again (some e)
      else finished (err (failed_to_convert e))
  on_call attempt last_error (raw (ok block)) =
      on_serialized attempt block (serialize_block_header x block)

  module _ (decode : Text → Result Text (Unit {0})) (call : ℕ → Call x) (debug : Option Text → Text)
      (wallet_addr : Text) where
    -- The turns that are left, from this attempt on.
    unfoldable pub attempts : ℕ → ℕ → Option Text → Result Text (Block x) × List ℕ
    attempts zero attempt last_error = (
      err (codes "Failed to get valid block template after 3 attempts: " ++ debug last_error),
      [],
    )
    attempts (suc left) attempt last_error = elim (decode wallet_addr) [
      | err e ↦ (err (could_not_decode wallet_addr e), [])
      | ok address ↦ elim (on_call attempt last_error (call attempt)) [
        | finished r ↦ (r, [])
        | again last_error' ↦
            let (r, pauses) = attempts left (attempt + 1) last_error' in
            (r, 100 * (attempt + 1) ∷ pauses)
      ]
    ]

    -- `synced` is the answer of `is_node_synced_for_mining`.
    unfoldable pub get_block_template : Bool → Result Text (Block x) × List ℕ
    unfolding attempts on_call
    get_block_template synced =
        if not synced then (err refusing, []) else attempts max_retries 0 none
