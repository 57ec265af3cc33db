-- ===== src/Stratum/Context.antt =====
-- bridge/src/stratum/stratum_context: what the bridge keeps of a connection, and its replies. The
-- socket is the parameter `writes`: whether the n-th `write_data` of the connection succeeds. The
-- task that `check_disconnect` spawns after a failed write is not modelled. Encoding a message does not
-- fail, so a message that is sent stands for its line.
pub mod Names
use rusty_kaspa_stratum.Shared.{
  ℕ, ◌+◌, Bool, true, false, Option, none, some, List, [], ◌∷◌, ◌++◌, Text, codes, trim, is_empty,
  if◌then◌else◌, Exec, Result, ok, err, ltb,
}
use rusty_kaspa_stratum.Numerals.Print.{to_string}
use rusty_kaspa_stratum.External.{External, Block}
use rusty_kaspa_stratum.Mining.State.{MiningState}
use rusty_kaspa_stratum.Rpc.{Value, JsonRpcEvent, JsonRpcResponse, error_response}

pub data ErrorDisconnected : Type 0 where
  disconnected : ErrorDisconnected

-- What is written to a connection, a line each: a response, an event, or a notification that has a
-- method and parameters only.
pub data Message (N : Type 0) : Type 0 where
  response : JsonRpcResponse N → Message N
  request : JsonRpcEvent N → Message N
  notification : Text → List (Value N) → Message N

pub record ClientIdentity : Type 0 where
  pub wallet_addr : Text
  pub worker_name : Text
  pub canxium_addr : Text
  pub remote_app : Text

-- Client ids are counted up from 0, so the `i32` is not negative.
pub record StratumContext (x : External) : Type 0 where
  pub remote_port : ℕ
  pub identity : ClientIdentity
  pub open identity use *
  pub client_id : ℕ
  pub extranonce : Text
  pub state : MiningState (Block x) x.Header x.Float
  pub disconnecting : Bool
  pub writes : ℕ → Bool
  pub attempts : ℕ
  pub sent : List (Message x.Number)

abbrev pub default_name : Option ℕ → ℕ → Text
default_name (some conn_id) port = codes "asic-" ++ to_string conn_id
default_name none port = codes "asic-" ++ to_string port

abbrev pub Reply : External → Type 0
Reply x = Exec (StratumContext x) ErrorDisconnected (Unit {0})

module _ {x : External} where
  -- `StratumContext::id`
  unfoldable pub connection_id : StratumContext x → Option ℕ
  connection_id ctx = if ltb 0 ctx.client_id then some ctx.client_id else none

  unfoldable pub ensure_default_worker_name : StratumContext x → StratumContext x
  ensure_default_worker_name ctx =
      if is_empty (trim ctx.worker_name)
      then record ctx {
        identity = record ctx.identity {
          worker_name = default_name (connection_id ctx) ctx.remote_port;
        };
      }
      else ctx

  -- The name is read from the context that comes back.
  unfoldable pub effective_worker_name : StratumContext x → StratumContext x × Text
  effective_worker_name ctx = let ctx' = ensure_default_worker_name ctx in (ctx', ctx'.worker_name)

  -- The check and the write of `reply`, `send` and `send_notification`. A write that is blocked or
  -- times out is tried again by the source; what `writes` tells is what became of it in the end.
  unfoldable pub write_data : Message x.Number → Reply x
  write_data message ctx =
      if ctx.disconnecting
      then (err disconnected, ctx)
      else if ctx.writes ctx.attempts
      then (ok tt, record ctx { attempts = ctx.attempts + 1; sent = ctx.sent ++ message ∷ [] })
      else (err disconnected, record ctx { attempts = ctx.attempts + 1 })

  unfoldable pub reply : JsonRpcResponse x.Number → Reply x
  reply r = write_data (response r)

  unfoldable pub send : JsonRpcEvent x.Number → Reply x
  send event = write_data (request event)

  unfoldable pub send_notification : Text → List (Value x.Number) → Reply x
  send_notification method params = write_data (notification method params)

  unfoldable pub disconnect : StratumContext x → StratumContext x
  disconnect ctx = record ctx { disconnecting = true }

  unfoldable pub reply_stale_share : Option (Value x.Number) → Reply x
  unfolding reply error_response
  reply_stale_share id = reply (error_response x.from_i32 id 21 (codes "Job not found") none)

  unfoldable pub reply_dupe_share : Option (Value x.Number) → Reply x
  unfolding reply error_response
  reply_dupe_share id =
      reply (error_response x.from_i32 id 22 (codes "Duplicate share submitted") none)

  unfoldable pub reply_bad_share : Option (Value x.Number) → Reply x
  unfolding reply error_response
  reply_bad_share id = reply (error_response x.from_i32 id 20 (codes "Unknown problem") none)

  unfoldable pub reply_low_diff_share : Value x.Number → Reply x
  unfolding reply error_response
  reply_low_diff_share id =
      reply (error_response x.from_i32 (some id) 23 (codes "Invalid difficulty") none)
