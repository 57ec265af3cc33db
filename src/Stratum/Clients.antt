-- ===== src/Stratum/Clients.antt =====
-- bridge/src/stratum/client_handler/mod.rs: the clients that are connected. An id is an `i32` that
-- counts up from 0; fewer than 2^31 connections are supposed. The map of the source shares a
-- connection with its tasks; here it holds the connection as it was put in. Metrics and the task
-- that makes statistics after five seconds are left out.
pub mod Leaks
pub mod NewBlocks
use rusty_kaspa_stratum.Shared.{
  ℕ, ◌+◌, Bool, true, Option, none, some, [], HashMap, insert, remove, nat_eq,
}
use rusty_kaspa_stratum.External.{External}
use rusty_kaspa_stratum.Stratum.Context.{StratumContext, connection_id}

pub record ClientHandler (x : External) : Type 0 where
  pub clients : HashMap ℕ (StratumContext x)
  pub client_counter : ℕ

module _ {x : External} where
  unfoldable pub on_connect :
      ClientHandler x → StratumContext x → ClientHandler x × StratumContext x
  on_connect h ctx =
      let idx = h.client_counter in
      let ctx' = record ctx { extranonce = []; client_id = idx } in
      (record h { client_counter = idx + 1; clients = insert idx ctx' h.clients }, ctx')

  abbrev pub forget : Option ℕ → ClientHandler x → ClientHandler x
  forget none h = h
  forget (some id) h = record h { clients = remove id h.clients }

  unfoldable pub on_disconnect :
      ClientHandler x → StratumContext x → ClientHandler x × StratumContext x
  on_disconnect h ctx = (forget (connection_id ctx) h, record ctx { disconnecting = true })

  -- What is left of the table; its connections are disconnected in Listener.Accept.
  unfoldable pub disconnect_all : ClientHandler x → ClientHandler x
  disconnect_all h = record h { clients = [] }
