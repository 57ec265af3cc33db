-- ===== src/Stratum/Clients/Leaks.antt =====
-- What a client leaves behind.
use rusty_kaspa_stratum.Shared.{
  ℕ, ◌<◌, ◌≡◌, none, some, get, insert, get-insert, get-remove, nat_eq, arith,
}
use rusty_kaspa_stratum.External.{External}
use rusty_kaspa_stratum.Stratum.Context.{StratumContext, connection_id}
use rusty_kaspa_stratum.Stratum.Clients.{ClientHandler, on_connect, on_disconnect}

module _ {x : External} where
  connection_id_pos :
      (ctx : StratumContext x) → 0 < ctx.client_id → connection_id ctx ≡ some ctx.client_id
  unfolding connection_id
  connection_id_pos ctx h = ground arith

  connection_id_zero : (ctx : StratumContext x) → ctx.client_id ≡ 0 → connection_id ctx ≡ none
  unfolding connection_id
  connection_id_zero ctx h = ground arith

module _ {x : External} (h : ClientHandler x) (ctx : StratumContext x) where
  abbrev pub after_visit : ClientHandler x
  after_visit = (on_disconnect (on_connect h ctx).0 (on_connect h ctx).1).0

  -- A client that connects and disconnects, and is not the first, leaves the table of the clients
  -- as it was, if the id that it gets was free.
  on_connect-on_disconnect :
      0 < h.client_counter
      → get h.client_counter h.clients ≡ none
      → (k : ℕ) → get k after_visit.clients ≡ get k h.clients
  unfolding on_connect on_disconnect
  on_connect-on_disconnect pos gone k =
      let ctx' = (on_connect h ctx).1 in
      rw (connection_id_pos ctx' pos) (
        ground (
          arith,
          get-remove h.client_counter k (insert h.client_counter ctx' h.clients),
          get-insert h.client_counter k ctx' h.clients,
          gone,
        ))

  -- A client that connects first gets the id 0, which counts as no id: it stays in the table after it
  -- has disconnected.
  on_disconnect_first : h.client_counter ≡ 0 → get 0 after_visit.clients ≡ some (on_connect h ctx).1
  unfolding on_connect on_disconnect
  on_disconnect_first start =
      let ctx' = (on_connect h ctx).1 in
      rw (connection_id_zero ctx' start)
        (ground (arith, get-insert h.client_counter 0 ctx' h.clients, start))
