-- ===== src/Examples/Dispatches.antt =====
-- Jobs and blocks, between a miner and the node.
use rusty_kaspa_stratum.Shared.{
  ℕ, ◌+◌, ◌-◌, ◌≤◌, ◌≡◌, refl, Bool, true, false, not, Option, none, some, List, [], ◌∷◌, ◌++◌,
  Text, codes, arith, ok, err, Result, length, replicate, inl, is_empty, if◌then◌else◌, ltb,
}
use rusty_kaspa_stratum.Shared
use rusty_kaspa_stratum.External.{Block}
use rusty_kaspa_stratum.Dedupe.Pruning
use rusty_kaspa_stratum.Dedupe.Blocks.{BlockSubmitGuard, try_mark}
use rusty_kaspa_stratum.Dedupe.Blocks
use rusty_kaspa_stratum.Mining.State.{next_id}
use rusty_kaspa_stratum.Numerals.Print.{to_string}
use rusty_kaspa_stratum.Rpc.{string}
use rusty_kaspa_stratum.Submit.Parse.{parse_job_id}
use rusty_kaspa_stratum.Submit.Session.{
  Session, classify_block_submit_error_message, other, duplicate_block_stale,
}
use rusty_kaspa_stratum.Submit.BlockSubmit.{failed, report}
use rusty_kaspa_stratum.Node.CoinbaseTag
use rusty_kaspa_stratum.Node.CoinbaseTag.{build_coinbase_tag_bytes}
use rusty_kaspa_stratum.Node.Submit.{RpcAnswer, reported, rpc_error, submit_block}
use rusty_kaspa_stratum.Node.Submit.Errors.{submit_block_rpc_error, submit_block_twice}
use rusty_kaspa_stratum.Jobs.{Dispatcher}
use rusty_kaspa_stratum.Jobs.Immediate.{send_immediate_job_task}
use rusty_kaspa_stratum.Jobs.Steps.{IsOpen, HasDiff}
use rusty_kaspa_stratum.Jobs.Sent.{Delivers, send_immediate_job_task-Delivers}
use rusty_kaspa_stratum.Rpc.{JsonRpcEvent}
use rusty_kaspa_stratum.Handlers.Wallet.{clean_wallet, clean_fuel}
use rusty_kaspa_stratum.Handlers.Authorize.{handle_authorize}
use rusty_kaspa_stratum.Handlers.Authorize.Order.{Answers, handle_authorize-Answers}
use rusty_kaspa_stratum.Examples.World.{world, session}

abbrev pub block : Block world
block = record { header = (7, 0); transactions = 0 }

abbrev guard : BlockSubmitGuard
guard = Blocks.new 100 2

abbrev known : Block world → RpcAnswer
known b = rpc_error (codes "ErrDuplicateBlock")

abbrev accepts : Block world → RpcAnswer
accepts b = reported true (codes "ok")

submit_block_rpc_error_example :
    ((message : Text) × ((submit_block known true 5 6 guard block).1 ≡ failed message)
      × (classify_block_submit_error_message message ≡ other))
    × ((try_mark (submit_block known true 5 6 guard block).0 (b'h' ∷ []) 7).1 ≡ true)
unfolding try_mark Blocks.new Blocks.prune Pruning.prune Pruning.expire Pruning.evict Shared.get
    Shared.insert Shared.remove
submit_block_rpc_error_example =
    submit_block_rpc_error known guard block 5 6 7 (codes "ErrDuplicateBlock") refl refl

submit_block_twice_example :
    ((submit_block accepts true 5 6 guard block).1 ≡ report true)
    × ((message : Text) × ((submit_block known true 50 60
            (submit_block accepts true 5 6 guard block).0
            block).1
          ≡ failed message)
        × (classify_block_submit_error_message message ≡ duplicate_block_stale))
unfolding try_mark Blocks.new Blocks.prune Pruning.prune Pruning.expire Pruning.evict Shared.get
    Shared.insert Shared.remove
submit_block_twice_example =
    submit_block_twice accepts known guard block 5 6 50 60 (codes "ok") refl (omega arith) refl
      (omega arith)

-- The node has a template for every address, and for none.
abbrev pub dispatcher : Dispatcher world
dispatcher = record {
  get_block_template = λ wallet app canxium. ok block;
  is_big_job = λ app. false;
  to_lowercase = λ s. s;
  calc = record { use_alternative = false; use_stratum_alt = false };
  min_diff = 5;
}

send_immediate_job_task-Delivers_example :
    Delivers dispatcher session.ctx
      (send_immediate_job_task dispatcher true 9 session).1.ctx
      block
      (next_id session.ctx.state)
      4
    × (parse_job_id world (string (to_string (next_id session.ctx.state)))
        ≡ ok (next_id session.ctx.state))
unfolding IsOpen HasDiff Shared.trim Shared.trim_matches Shared.trim_start_matches
    Shared.trim_end_matches Shared.is_whitespace
send_immediate_job_task-Delivers_example =
    send_immediate_job_task-Delivers dispatcher 9 session block
      (record { hash_value = 3; diff_value = 4; target_value = 100 }) (refl, λ n. refl) refl refl
      refl (inl (refl, refl))

-- The client before it was authorized.
abbrev stranger : Session world
stranger = record session {
  ctx = record session.ctx { identity = record session.ctx.identity { wallet_addr = [] } };
}

abbrev leaving : Session world
leaving = record session { ctx = record session.ctx { disconnecting = true } }

abbrev is_address : Text → Bool
is_address s = Shared.starts_with s (codes "kaspa:q")

abbrev finds_none : Text → Option Text
finds_none s = none

-- A miner that authorizes itself with a wallet and a worker.
abbrev authorization : JsonRpcEvent ℕ
authorization = record {
  id = some (string (codes "2"));
  jsonrpc = codes "2.0";
  method = codes "mining.authorize";
  params = string (codes "qab.rig") ∷ [];
}

handle_authorize-Answers_example :
    Answers
      (λ s. s)
      dispatcher
      9
      authorization
      session.ctx
      (handle_authorize
        (λ s. s)
        is_address
        finds_none
        (some dispatcher)
        true
        true
        9
        authorization
        session).1.ctx
      block
      4
unfolding IsOpen HasDiff clean_wallet clean_fuel Shared.starts_with Shared.strip_prefix
handle_authorize-Answers_example =
    handle_authorize-Answers (λ s. s) dispatcher 9 authorization is_address finds_none
      (codes "qab.rig") (codes "kaspa:qab") session block
      (record { hash_value = 3; diff_value = 4; target_value = 100 }) refl refl refl
      (refl, λ n. refl) refl (λ canxium. refl) (inl (refl, refl))

build_coinbase_tag_bytes_test :
    build_coinbase_tag_bytes (some (codes " /my pool! v1.2_")) ≡ codes "RK-Stratum/my_pool_v1.2"
unfolding build_coinbase_tag_bytes Shared.trim_start_matches Shared.trim CoinbaseTag.pushed
build_coinbase_tag_bytes_test = refl
