-- ===== src/Handlers/Authorize.antt =====
-- bridge/src/stratum/default_client.rs, `handle_authorize`. The immediate job is a task that runs
-- beside the handler, which has nothing left to do then: it stands at the handler's end.
pub mod Replies
pub mod Order
use rusty_kaspa_stratum.Shared.{
  ℕ, ◌≡◌, refl, Bool, true, false, Option, none, some, List, [], ◌∷◌, Text, codes, if◌then◌else◌,
  is_empty, Result, ok, err, ◌>>=◌, ◌>>◌, pure, gets, modify, lift,
}
use rusty_kaspa_stratum.External.{External}
use rusty_kaspa_stratum.Rpc.{Value, bool, string, JsonRpcEvent, new_response}
use rusty_kaspa_stratum.Stratum.Context.{reply, ensure_default_worker_name}
use rusty_kaspa_stratum.Handlers.{send_extranonce}
use rusty_kaspa_stratum.Handlers.Wallet.{split, process_canxium_address, clean_wallet, wallet_error}
use rusty_kaspa_stratum.Jobs.{Dispatcher}
use rusty_kaspa_stratum.Jobs.Immediate.{send_immediate_job_to_client}
use rusty_kaspa_stratum.Submit.Session.{Session, Run, worker_id, get_create_stats, on_ctx}

-- The worker's name and the Canxium address, of the parts after the wallet.
abbrev pub worker_of : List Text → Text
worker_of (wallet ∷ worker ∷ parts) = worker
worker_of _ = []

abbrev pub canxium_of : (Text → Text) → List Text → Text
canxium_of to_lowercase (wallet ∷ worker ∷ canxium ∷ parts) =
    process_canxium_address to_lowercase canxium
canxium_of to_lowercase _ = []

abbrev pub wallet_of : List Text → Text
wallet_of [] = []
wallet_of (wallet ∷ parts) = wallet

abbrev cleaned : Option (Result Text Text) → Result Text Text
cleaned none = err wallet_error
cleaned (some r) = r

-- The first parameter, which has to be a text.
abbrev pub address_param : {N : Type 0} → List (Value N) → Result Text Text
address_param [] = err (codes "malformed event from miner, expected param[0] to be address")
address_param (string s ∷ params) = ok s
address_param (v ∷ params) = err (codes "expected param[0] to be address string")

abbrev pub wallet_result : (Text → Bool) → (Text → Option Text) → List Text → Result Text Text
wallet_result is_address find_wallet parts =
    cleaned (clean_wallet is_address find_wallet (wallet_of parts))

module _ {x : External} where
  abbrev pub set_identity : Text → Text → Run x Text (Unit {0})
  set_identity address worker_name = modify (λ s. record s {
    ctx = ensure_default_worker_name (record s.ctx {
      identity = record s.ctx.identity { wallet_addr = address; worker_name = worker_name };
    });
  })

  abbrev pub set_canxium : Text → Run x Text (Unit {0})
  set_canxium canxium_address = modify (λ s. if is_empty canxium_address then s else record s {
    ctx = record s.ctx { identity = record s.ctx.identity { canxium_addr = canxium_address } };
  })

  -- `sync_worker_prom_metrics`, where a handler was given
  abbrev pub sync_metrics : Bool → ℕ → Run x Text (Unit {0})
  sync_metrics false now = pure tt
  sync_metrics true now = do
    wallet ← gets (λ s. s.ctx.wallet_addr)
    (if is_empty wallet then pure tt else (do get_create_stats now; pure tt))

  abbrev pub send_job : Option (Dispatcher x) → Bool → Bool → ℕ → Run x Text (Unit {0})
  send_job (some d) true scheduled now = modify (send_immediate_job_to_client d scheduled now)
  send_job _ _ scheduled now = pure tt

  abbrev pub given : Option (Dispatcher x) → Bool
  given none = false
  given (some d) = true

module _ {x : External} (to_lowercase : Text → Text) (is_address : Text → Bool)
    (find_wallet : Text → Option Text) where
  -- The parts of the address are read and the wallet is checked before anything changes; the response
  -- is followed by the extranonce, and that by the first job.
  unfoldable pub handle_authorize :
      Option (Dispatcher x) → Bool → Bool → ℕ → JsonRpcEvent x.Number → Run x Text (Unit {0})
  handle_authorize client_handler kaspa_api scheduled now event = do
    address_str ← lift (address_param event.params)
    let parts = split b'.' address_str
    address ← lift (wallet_result is_address find_wallet parts)
    set_identity address (worker_of parts)
    worker_id
    sync_metrics (given client_handler) now
    set_canxium (canxium_of to_lowercase parts)
    on_ctx (λ e. codes "failed to send response to authorize: disconnecting")
        (reply (new_response event (some (bool true)) none))
    extranonce ← gets (λ s. s.ctx.extranonce)
    (if is_empty extranonce then pure tt else (λ s.
        let (r, ctx') = send_extranonce to_lowercase s.ctx in (r, record s { ctx = ctx' })))
    send_job client_handler kaspa_api scheduled now

  -- A miner whose wallet cannot be cleaned is not authorized: the session stays as it is.
  pub handle_authorize_refused :
      (client_handler : Option (Dispatcher x)) (kaspa_api scheduled : Bool) (now : ℕ)
      (event : JsonRpcEvent x.Number) (address_str error : Text) (s : Session x)
      → address_param event.params ≡ ok address_str
      → wallet_result is_address find_wallet (split b'.' address_str) ≡ err error
      → handle_authorize client_handler kaspa_api scheduled now event s ≡ (err error, s)
  unfolding handle_authorize
  handle_authorize_refused client_handler kaspa_api scheduled now event address_str error s h e =
      rw (h, e) refl
