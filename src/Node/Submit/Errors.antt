-- ===== src/Node/Submit/Errors.antt =====
-- What a miner is told when the node refuses a block.
use rusty_kaspa_stratum.Shared.{
  ℕ, ◌-◌, ◌≤◌, ap, ◌∙◌, length, ◌≡◌, ◌≢◌, refl, true, false, Text, codes, contains_text,
  starts_with, strip_prefix, arith,
}
use rusty_kaspa_stratum.External.{External, Block}
use rusty_kaspa_stratum.Dedupe.Blocks.{BlockSubmitGuard, try_mark, remove}
use rusty_kaspa_stratum.Dedupe.Blocks.Once.{try_mark-remove, try_mark-try_mark}
use rusty_kaspa_stratum.Submit.Session.{
  classify_block_submit_error_message, duplicate_block_stale, other,
}
use rusty_kaspa_stratum.Submit.BlockSubmit.{report, failed}
use rusty_kaspa_stratum.Node.Submit.{
  RpcAnswer, reported, rpc_error, after_call, submit_block, is_duplicate, already_submitted,
}

already_submitted_stale :
    classify_block_submit_error_message already_submitted ≡ duplicate_block_stale
unfolding classify_block_submit_error_message contains_text starts_with strip_prefix
already_submitted_stale = refl

-- The answers of `submit_block` are never a report of failure.
after_call_report :
    (g : BlockSubmitGuard) (hash : Text) (now : ℕ) (a : RpcAnswer)
    → (after_call g hash now a).1 ≢ report false
unfolding after_call
after_call_report g hash now (reported true text) h = cc
after_call_report g hash now (reported false text) h = cc
after_call_report g hash now (rpc_error text) h = ground (arith, h)

module _ {x : External} (call : Block x → RpcAnswer) (g : BlockSubmitGuard) (block : Block x)
    (now later : ℕ) where
  -- A block that is sent to the node for the first time.
  submit_block_fresh :
      (try_mark g (x.header_hash block.header) now).1 ≡ true
      → submit_block call true now later g block
        ≡ after_call
            (try_mark g (x.header_hash block.header) now).0
            (x.header_hash block.header)
            later
            (call block)
  unfolding submit_block
  submit_block_fresh h = rw h

  submit_block_marked :
      (try_mark g (x.header_hash block.header) now).1 ≡ false
      → submit_block call true now later g block
        ≡ ((try_mark g (x.header_hash block.header) now).0, failed already_submitted)
  unfolding submit_block
  submit_block_marked h = rw h

  after_call_error :
      (t : BlockSubmitGuard) (hash text : Text)
      → after_call t hash later (rpc_error text)
        ≡ (remove t hash later, failed (codes "Failed to submit block"))
  unfolding after_call is_duplicate contains_text starts_with strip_prefix
  after_call_error t hash text = refl

  -- Whatever error the RPC of the node ends with, that of a known block included, the text that
  -- `submit_block` returns is classified as no duplicate, and the block's mark is taken back: the same
  -- block is let through again.
  pub submit_block_rpc_error :
      (again : ℕ) (text : Text)
      → (try_mark g (x.header_hash block.header) now).1 ≡ true
      → call block ≡ rpc_error text
      → ((message : Text) × ((submit_block call true now later g block).1 ≡ failed message)
          × (classify_block_submit_error_message message ≡ other))
        × ((try_mark
              (submit_block call true now later g block).0
              (x.header_hash block.header)
              again).1
            ≡ true)
  unfolding classify_block_submit_error_message contains_text starts_with strip_prefix
  submit_block_rpc_error again text h e =
      let marked = (try_mark g (x.header_hash block.header) now).0 in
      let result =
        submit_block_fresh h
        ∙ ap (after_call marked (x.header_hash block.header) later) e
        ∙ after_call_error marked (x.header_hash block.header) text in
      (
        (codes "Failed to submit block", ap (λ r. r.1) result, refl),
        rw result (try_mark-remove marked (x.header_hash block.header) later again),
      )

-- A block that the node has accepted is not sent again for `ttl`, whatever the node would answer,
-- if the mark left no more than `max_entries` entries: the second submission is classified as a
-- duplicate.
pub submit_block_twice :
    {x : External} (call call' : Block x → RpcAnswer) (g : BlockSubmitGuard) (block : Block x)
    (now later now' later' : ℕ) (text : Text)
    → (try_mark g (x.header_hash block.header) now).1 ≡ true
    → length (try_mark g (x.header_hash block.header) now).0.entries ≤ g.max_entries
    → call block ≡ reported true text
    → now' - now ≤ g.ttl
    → ((submit_block call true now later g block).1 ≡ report true)
      × ((message : Text) × ((submit_block call' true now' later'
              (submit_block call true now later g block).0
              block).1
            ≡ failed message)
          × (classify_block_submit_error_message message ≡ duplicate_block_stale))
unfolding after_call
submit_block_twice {x} call call' g block now later now' later' text h room e young =
    let hash = x.header_hash block.header in
    let first =
      submit_block_fresh call g block now later h
      ∙ ap (after_call (try_mark g hash now).0 hash later) e in
    let again =
      submit_block_marked call' (try_mark g hash now).0 block now' later'
        (try_mark-try_mark g hash now now' room h young) in
    (
      ap (λ r. r.1) first,
      (
        already_submitted,
        ap (λ r. (submit_block call' true now' later' r.0 block).1) first ∙ ap (λ r. r.1) again,
        already_submitted_stale,
      ),
    )
