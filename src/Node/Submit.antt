-- ===== src/Node/Submit.antt =====
-- bridge/src/kaspa/kaspaapi/api/template_submit.rs: `submit_block`, over the guard of
-- block_submit_guard.rs. The RPC client is a parameter: what `submit_block_call` answers for a block.
-- An anyhow error is the text that it displays: `context` puts a text of its own in front of what is
-- displayed, and `to_string` shows that text alone.
pub mod Errors
use rusty_kaspa_stratum.Shared.{
  ℕ, Bool, true, false, not, ◌||◌, Text, codes, ◌++◌, contains_text, if◌then◌else◌, Result, ok, err,
}
use rusty_kaspa_stratum.External.{External, Block}
use rusty_kaspa_stratum.Dedupe.Blocks.{BlockSubmitGuard, try_mark, remove}
use rusty_kaspa_stratum.Submit.BlockSubmit.{SubmitAnswer, report, failed}

-- The answer of `submit_block_call`: the report of the node, and its text, or the text of the error.
pub data RpcAnswer : Type 0 where
  reported : Bool → Text → RpcAnswer
  rpc_error : Text → RpcAnswer

-- `Result::context` of anyhow, displayed
abbrev pub displayed : Text → Text → Text
displayed context error = context

abbrev pub not_ready : Text
not_ready =
    codes
      "refusing block submit: node not mining-ready (sync, P2P IBD, or DAG block/header count mismatch)"

abbrev pub already_submitted : Text
already_submitted = codes "ErrDuplicateBlock: block already submitted"

abbrev pub rejected : Text → Text
rejected report_text = codes "Block rejected by node: " ++ report_text

unfoldable pub is_duplicate : Text → Bool
is_duplicate message =
    contains_text message (codes "ErrDuplicateBlock") || contains_text message (codes "duplicate")

-- What is done with the answer: the mark stays when the block was accepted, or is known already.
unfoldable pub after_call :
    BlockSubmitGuard → Text → ℕ → RpcAnswer → BlockSubmitGuard × SubmitAnswer
after_call guard block_hash now (reported true text) = (guard, report true)
after_call guard block_hash now (reported false text) =
    (remove guard block_hash now, failed (rejected text))
after_call guard block_hash now (rpc_error text) =
    let message = displayed (codes "Failed to submit block") text in
    if is_duplicate message
    then (guard, failed message)
    else (remove guard block_hash now, failed message)

module _ {x : External} (submit_block_call : Block x → RpcAnswer) where
  -- `synced` is the answer of `is_node_synced_for_mining`; `now` is the time of the mark and `later`
  -- that of its removal.
  unfoldable pub submit_block :
      Bool → ℕ → ℕ → BlockSubmitGuard → Block x → BlockSubmitGuard × SubmitAnswer
  submit_block synced now later guard block =
      let block_hash = x.header_hash block.header in
      let (marked, fresh) = try_mark guard block_hash now in
      if not synced
      then (guard, failed not_ready)
      else if fresh
      then after_call marked block_hash later (submit_block_call block)
      else (marked, failed already_submitted)
