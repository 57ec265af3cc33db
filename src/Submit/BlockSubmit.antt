-- ===== src/Submit/BlockSubmit.antt =====
-- bridge/src/share_handler/submit/block_submit.rs: a share that meets the network target is sent to
-- the node as a block. What `KaspaApiTrait::submit_block` answers is a parameter.
pub mod Confirm
use rusty_kaspa_stratum.Shared.{
  ℕ, ◌+◌, Bool, true, false, Option, none, some, List, [], ◌∷◌, ◌++◌, Text, if◌then◌else◌, Exec,
  Result, ok, err, ◌>>=◌, ◌>>◌, pure, modify,
}
use rusty_kaspa_stratum.External.{External, Block}
use rusty_kaspa_stratum.Mining.State.{Job}
use rusty_kaspa_stratum.Rpc.{JsonRpcEvent}
use rusty_kaspa_stratum.Stratum.Context.{reply_stale_share, reply_bad_share}
use rusty_kaspa_stratum.Dedupe.Submits.{set_outcome, stale, bad}
use rusty_kaspa_stratum.Submit.Session.{
  Session, Run, SubmitRunError, stratum_disconnected, on_ctx, set_guard, record_metric, worker_id,
  get_create_stats, update_stats, update_overall, ConfirmTask, classify_block_submit_error_message,
  BlockSubmitRejection, duplicate_block_stale, other, block_accepted_by_node, stale_share,
  invalid_share,
}
use rusty_kaspa_stratum.Submit.Parse.{PreparedSubmit}

-- The report of the node, of which the code reads whether it is a success, or an error message.
pub data SubmitAnswer : Type 0 where
  report : Bool → SubmitAnswer
  failed : Text → SubmitAnswer

pub data BlockSubmitFlowResult : Type 0 where
  break_with : Bool → BlockSubmitFlowResult
  finished : BlockSubmitFlowResult

module _ {x : External} where
  unfoldable pub spawn : ConfirmTask → Run x SubmitRunError (Unit {0})
  spawn task = modify λ s. record s { tasks = s.tasks ++ task ∷ [] }

  -- The node accepted the block.
  unfoldable pub block_accepted : ℕ → ℕ → Block x → Run x SubmitRunError BlockSubmitFlowResult
  block_accepted now nonce_val block = do
    key ← get_create_stats now
    record_metric block_accepted_by_node
    spawn (record {
      worker = key;
      nonce = nonce_val;
      block_score = x.blue_score block.header;
      block_hash = x.header_hash block.header;
    })
    pure (break_with false)

  -- The node knows the block already.
  unfoldable pub block_stale :
      ℕ → JsonRpcEvent x.Number → PreparedSubmit x → Run x SubmitRunError BlockSubmitFlowResult
  block_stale now event prep = do
    set_guard (λ g. set_outcome g prep.submit_key now stale)
    key ← get_create_stats now
    update_stats key (λ w. record w { stale_shares = w.stale_shares + 1 })
    update_overall (λ w. record w { stale_shares = w.stale_shares + 1 })
    record_metric stale_share
    on_ctx stratum_disconnected (reply_stale_share event.id)
    pure finished

  -- Any other failure of the submission.
  unfoldable pub block_bad :
      ℕ → JsonRpcEvent x.Number → PreparedSubmit x → Run x SubmitRunError BlockSubmitFlowResult
  block_bad now event prep = do
    key ← get_create_stats now
    update_stats key (λ w. record w { invalid_shares = w.invalid_shares + 1 })
    update_overall (λ w. record w { invalid_shares = w.invalid_shares + 1 })
    record_metric invalid_share
    set_guard (λ g. set_outcome g prep.submit_key now bad)
    on_ctx stratum_disconnected (reply_bad_share event.id)
    pure finished

  unfoldable pub on_rejection :
      BlockSubmitRejection
      → ℕ
      → JsonRpcEvent x.Number
      → PreparedSubmit x
      → Run x SubmitRunError BlockSubmitFlowResult
  on_rejection duplicate_block_stale now event prep = block_stale now event prep
  on_rejection other now event prep = block_bad now event prep

  unfoldable pub on_answer :
      SubmitAnswer
      → ℕ
      → JsonRpcEvent x.Number
      → PreparedSubmit x
      → Block x
      → Run x SubmitRunError BlockSubmitFlowResult
  on_answer (report true) now event prep block = block_accepted now prep.nonce_val block
  on_answer (report false) now event prep block = pure (break_with true)
  on_answer (failed message) now event prep block =
      on_rejection (classify_block_submit_error_message message) now event prep

  unfoldable pub run_block_found_submit_flow :
      (Block x → SubmitAnswer)
      → ℕ
      → JsonRpcEvent x.Number
      → PreparedSubmit x
      → x.Header
      → Job (Block x)
      → Run x SubmitRunError BlockSubmitFlowResult
  run_block_found_submit_flow submit_block now event prep header job = do
    _ ← worker_id
    let block : Block x = record {
      header = x.set_nonce header prep.nonce_val;
      transactions = job.block.transactions;
    }
    on_answer (submit_block block) now event prep block
