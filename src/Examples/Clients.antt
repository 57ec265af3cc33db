-- ===== src/Examples/Clients.antt =====
-- Connections.
use rusty_kaspa_stratum.Shared.{
  ℕ, true, all, ◌<◌, ◌≡◌, ◌≢◌, refl, some, none, [], ◌∷◌, List, Text, codes, arith, get, nat_eq,
}
use rusty_kaspa_stratum.Shared
use rusty_kaspa_stratum.Stratum.Handshake.{assign_extranonce_for_miner, is_bitmain}
use rusty_kaspa_stratum.Stratum.Handshake.Extranonces.{after_miners, assign_extranonce_distinct}
use rusty_kaspa_stratum.Stratum.Clients.{ClientHandler}
use rusty_kaspa_stratum.Stratum.Clients.NewBlocks.{Clock, new_block_available}
use rusty_kaspa_stratum.Stratum.Clients.NewBlocks.Rounds.{
  is_before, spawns_nothing, run_calls, new_block_available-Serves, run_calls-new_block_available,
}
use rusty_kaspa_stratum.Examples.World.{world, session}

abbrev no_change : Text → Text
no_change s = s

assign_extranonce_distinct_example :
    (assign_extranonce_for_miner no_change 65535 session.ctx (codes "bz")).1.extranonce
    ≢ (assign_extranonce_for_miner no_change
        (after_miners no_change
          (assign_extranonce_for_miner no_change 65535 session.ctx (codes "bz")).0
          ((session.ctx, codes "bitmain") ∷ []))
        session.ctx
        (codes "ks")).1.extranonce
unfolding is_bitmain Shared.contains_text Shared.starts_with Shared.strip_prefix
assign_extranonce_distinct_example =
    assign_extranonce_distinct no_change 65535 session.ctx session.ctx (codes "bz") (codes "ks")
      ((session.ctx, codes "bitmain") ∷ []) (omega arith) refl refl (omega arith)

abbrev no_clients : ClientHandler world
no_clients = record { clients = []; client_counter = 0 }

abbrev two_clients : ClientHandler world
two_clients = record {
  clients = (0, record session.ctx { disconnecting = true }) ∷ (1, session.ctx) ∷ [];
  client_counter = 2;
}

abbrev clock : Clock
clock = record { last_template_time = 0; last_balance_check = 0 }

new_block_available-Serves_example :
    get 1 (new_block_available 300000000 300000500 two_clients clock).1.jobs ≡ some session.ctx
unfolding Shared.get
new_block_available-Serves_example =
    new_block_available-Serves 300000000 300000500 two_clients clock 1 session.ctx (omega arith)
      refl refl

run_calls-new_block_available_example :
    all spawns_nothing
      (run_calls
        ((400000000, 400000500, two_clients) ∷ (549999999, 550000500, no_clients) ∷ [])
        (new_block_available 300000000 300000500 two_clients clock).0).1
    ≡ true
unfolding is_before
run_calls-new_block_available_example =
    run_calls-new_block_available 300000000 300000500 two_clients clock
      ((400000000, 400000500, two_clients) ∷ (549999999, 550000500, no_clients) ∷ []) (omega arith)
      refl

new_block_available_test : new_block_available 60300000000 60300000500 two_clients clock ≡ (
  record { last_template_time = 60300000000; last_balance_check = 60300000500 },
  record { jobs = (1, session.ctx) ∷ []; balances = some (session.ctx.wallet_addr ∷ []) },
)
unfolding new_block_available
new_block_available_test = refl
