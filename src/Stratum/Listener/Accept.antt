-- ===== src/Stratum/Listener/Accept.antt =====
-- bridge/src/stratum/stratum_listener/listen.rs: the loop that accepts connections and the task beside
-- it that removes clients, with the end of `listen_and_serve_impl` (stratum_server.rs). The tasks
-- share a connection: it has its place in `contexts`, and the channel carries places. A client's id
-- is its place too. What `accept` and the flag of shutdown return is a parameter, as is `bind`.
pub mod Runs
pub mod Ends
use rusty_kaspa_stratum.Shared.{
  ℕ, zero, suc, ◌+◌, Bool, true, false, Option, none, some, List, [], ◌∷◌, ◌++◌, Text, codes,
  if◌then◌else◌, Result, ok, err, HashMap, get_elem?,
}
use rusty_kaspa_stratum.External.{External}
use rusty_kaspa_stratum.Config.Ports.{bind_addr_from_port}
use rusty_kaspa_stratum.Mining.State.{new}
use rusty_kaspa_stratum.Stratum.Context.{StratumContext, disconnect}
use rusty_kaspa_stratum.Stratum.Clients.{ClientHandler, on_connect, on_disconnect, disconnect_all}

-- What wakes the loop: the flag of shutdown, a connection (its port, what becomes of its writes, the
-- time), or an error.
pub data Arrival : Type 0 where
  changed : Bool → Arrival
  accepted : ℕ → (ℕ → Bool) → ℕ → Arrival
  accept_failed : Arrival

-- What wakes the task that removes clients: the flag, a client, or the end of the channel.
pub data Removal : Type 0 where
  flagged : Bool → Removal
  received closed : Removal

pub record Accepting (x : External) : Type 0 where
  pub client_handler : ClientHandler x
  pub contexts : List (StratumContext x)
  pub disconnect_rx : List ℕ
  pub disconnects : ℕ
  pub shutting_down : Bool
  -- the loop, and the task, have not ended
  pub accepting : Bool
  pub removing : Bool

unfoldable pub update_at {ℓ} : {A : Type ℓ} → ℕ → (A → A) → List A → List A
update_at i f [] = []
update_at zero f (a ∷ rest) = f a ∷ rest
update_at (suc i) f (a ∷ rest) = a ∷ update_at i f rest

module _ {x : External} where
  -- `ClientHandler::new`
  abbrev pub new_handler : ClientHandler x
  new_handler = record { clients = []; client_counter = 0 }

  -- `StratumContext::new`, with a mining state of its own
  unfoldable pub new_context : ℕ → (ℕ → Bool) → ℕ → StratumContext x
  new_context remote_port writes now = record {
    remote_port = remote_port;
    identity = record { wallet_addr = []; worker_name = []; canxium_addr = []; remote_app = [] };
    client_id = 0;
    extranonce = [];
    state = new now;
    disconnecting = false;
    writes = writes;
    attempts = 0;
    sent = [];
  }

  abbrev pub with_client : ClientHandler x × StratumContext x → Accepting x → Accepting x
  with_client (h, ctx) l = record l { client_handler = h; contexts = l.contexts ++ ctx ∷ [] }

  unfoldable pub on_arrival : Arrival → Accepting x → Accepting x
  unfolding new_context
  on_arrival (changed true) l = record l { shutting_down = true; accepting = false }
  on_arrival (changed false) l = l
  on_arrival (accepted remote_port writes now) l =
      with_client (on_connect l.client_handler (new_context remote_port writes now)) l
  on_arrival accept_failed l = if l.shutting_down then record l { accepting = false } else l

  -- One turn of the loop.
  unfoldable pub accept_turn : Arrival → Accepting x → Accepting x
  unfolding on_arrival
  accept_turn arrival l = if l.accepting then on_arrival arrival l else l

  -- `on_disconnect` of the connection at a place
  abbrev pub remove_client : Option (StratumContext x) → ℕ → Accepting x → Accepting x
  remove_client none place l = l
  remove_client (some ctx) place l = record l {
    client_handler = (on_disconnect l.client_handler ctx).0;
    contexts = update_at place disconnect l.contexts;
    disconnects = l.disconnects + 1;
  }

  abbrev pub receive_client : List ℕ → Accepting x → Accepting x
  receive_client [] l = l
  receive_client (place ∷ rest) l =
      remove_client (get_elem? l.contexts place) place (record l { disconnect_rx = rest })

  unfoldable pub on_removal : Removal → Accepting x → Accepting x
  on_removal (flagged true) l = record l { removing = false }
  on_removal (flagged false) l = l
  on_removal closed l = record l { removing = false }
  on_removal received l = receive_client l.disconnect_rx l

  -- One turn of the task that removes clients.
  unfoldable pub removal_turn : Removal → Accepting x → Accepting x
  unfolding on_removal
  removal_turn removal l = if l.removing then on_removal removal l else l

  -- `ctx.disconnect()`, called by any task for the connection at a place
  unfoldable pub disconnect_at : ℕ → Accepting x → Accepting x
  disconnect_at place l = record l { contexts = update_at place disconnect l.contexts }

  abbrev pub starting : ClientHandler x → Accepting x
  starting h = record {
    client_handler = h;
    contexts = [];
    disconnect_rx = [];
    disconnects = 0;
    shutting_down = false;
    accepting = true;
    removing = true;
  }

  abbrev pub bound : Result Text (Unit {0}) → Text → ClientHandler x → Result Text (Accepting x)
  bound (ok u) port h = ok (starting h)
  bound (err e) port h = err (codes "failed listening to socket " ++ (port ++ (codes ": " ++ e)))

  -- What the loop starts with, or the error of `bind`.
  unfoldable pub listen_impl :
      (Text → Result Text (Unit {0})) → Text → ClientHandler x → Result Text (Accepting x)
  unfolding bind_addr_from_port
  listen_impl bind port h = bound (bind (bind_addr_from_port port)) port h

  unfoldable pub disconnect_clients :
      HashMap ℕ (StratumContext x) → List (StratumContext x) → List (StratumContext x)
  disconnect_clients [] contexts = contexts
  disconnect_clients ((id, client) ∷ clients) contexts =
      disconnect_clients clients (update_at id disconnect contexts)

  -- The end of `listen_and_serve_impl`: the clients in the table are disconnected.
  unfoldable pub after_listen : Accepting x → Accepting x
  unfolding disconnect_clients
  after_listen l = record l {
    client_handler = disconnect_all l.client_handler;
    contexts = disconnect_clients l.client_handler.clients l.contexts;
  }
