-- ===== src/Handlers.antt =====
-- bridge/src/stratum/default_client.rs: the handlers of `mining.subscribe`,
-- `mining.extranonce.subscribe` and `mining.authorize`. An error is its text. The address parser of
-- kaspa_addresses, the regex of wallets and `str::to_lowercase` are parameters.
pub mod Wallet
pub mod Authorize
use rusty_kaspa_stratum.Shared.{
  ℕ, ◌+◌, ◌-◌, ◌/◌, ◌%◌, ◌^◌, Bool, true, false, Option, none, some, List, [], ◌∷◌, Text, codes,
  if◌then◌else◌, is_empty, Exec, Result, ok, err, ◌>>=◌, ◌>>◌, pure, gets, modify, map_err, length,
  contains_text,
}
use rusty_kaspa_stratum.External.{External}
use rusty_kaspa_stratum.Rpc.{
  Value, Values, null, bool, number, string, array, item, end, JsonRpcEvent, JsonRpcResponse,
  new_response, new_event,
}
use rusty_kaspa_stratum.Stratum.Context.{
  StratumContext, ErrorDisconnected, Reply, reply, send, send_notification,
}
use rusty_kaspa_stratum.Stratum.Handshake.{is_bitmain, assign_extranonce_for_miner}

-- 8 - (extranonce.len() / 2), as a `usize` that wraps
abbrev pub extranonce2_size : Text → ℕ
extranonce2_size extranonce = (8 + 2 ^ 64 - length extranonce / 2) % 2 ^ 64

module _ (x : External) where
  abbrev bitmain_result : Text → Value x.Number
  bitmain_result extranonce = array (
      item null
        (item (string extranonce) (item (number (x.from_u64 (extranonce2_size extranonce))) end)))

  abbrev standard_result : Value x.Number
  standard_result = array (item (bool true) (item (string (codes "EthereumStratum/1.0.0")) end))

  unfoldable pub subscribe_result : Bool → Text → Value x.Number
  subscribe_result bitmain extranonce =
      if bitmain then bitmain_result extranonce else standard_result

  abbrev pub app_of : List (Value x.Number) → Option Text
  app_of (string app ∷ params) = some app
  app_of _ = none

module _ {x : External} (to_lowercase : Text → Text) where
  abbrev set_app : Option Text → StratumContext x → StratumContext x
  set_app none ctx = ctx
  set_app (some app) ctx = record ctx { identity = record ctx.identity { remote_app = app } }

  abbrev assign : Bool → ℕ → StratumContext x → ℕ × StratumContext x
  assign true global ctx = assign_extranonce_for_miner to_lowercase global ctx ctx.remote_app
  assign false global ctx = (global, ctx)

  -- The counter of extranonces is passed on. `client_handler` says whether a handler was given.
  unfoldable pub handle_subscribe :
      Bool
      → JsonRpcEvent x.Number
      → ℕ × StratumContext x
      → Result Text (Unit {0}) × ℕ × StratumContext x
  handle_subscribe client_handler event (global, ctx) =
      let (global', assigned) =
        assign client_handler global (set_app (app_of x event.params) ctx) in
      let result =
        subscribe_result x (is_bitmain to_lowercase assigned.remote_app) assigned.extranonce in
      let (r, replied) =
        map_err (λ e. codes "failed to send response to subscribe: disconnecting")
          (reply (new_response event (some result) none)) assigned in
      (r, global', replied)

  -- The parameters of `mining.set_extranonce`
  unfoldable pub extranonce_params : StratumContext x → List (Value x.Number)
  extranonce_params ctx =
      if is_bitmain to_lowercase ctx.remote_app
      then string ctx.extranonce ∷ number (x.from_u64 (extranonce2_size ctx.extranonce)) ∷ []
      else string ctx.extranonce ∷ []

  unfoldable pub send_extranonce : Exec (StratumContext x) Text (Unit {0})
  unfolding extranonce_params
  send_extranonce ctx =
      let sent =
        if contains_text ctx.remote_app (codes "IceRiver")
        then send_notification (codes "mining.set_extranonce") (extranonce_params ctx)
        else send (new_event none (codes "mining.set_extranonce") (extranonce_params ctx)) in
      map_err (λ e. codes "failed to set extranonce: disconnecting") sent ctx

module _ {x : External} where
  unfoldable pub handle_extranonce_subscribe :
      JsonRpcEvent x.Number → Exec (StratumContext x) Text (Unit {0})
  handle_extranonce_subscribe event =
      map_err (λ e. codes "failed to send response to extranonce subscribe: disconnecting")
        (reply (new_response event (some (bool true)) none))
