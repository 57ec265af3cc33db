-- ===== src/Stratum/Clients/NewBlocks.antt =====
-- bridge/src/stratum/client_handler/mod.rs, `new_block_available`: a new block is handed to all
-- clients. Times are in nanoseconds. A client is as it stands in the table when its turn comes, and
-- the tasks that are spawned are what a call returns: those of job dispatch, by the client, and the
-- request for balances. `later` is the time after the pauses between the clients.
pub mod Rounds
use rusty_kaspa_stratum.Shared.{
  ℕ, ◌-◌, ◌*◌, Bool, true, false, ◌&&◌, not, Option, none, some, [], ◌∷◌, List, Text, if◌then◌else◌,
  ltb, is_empty, HashMap,
}
use rusty_kaspa_stratum.External.{External}
use rusty_kaspa_stratum.Stratum.Context.{StratumContext}
use rusty_kaspa_stratum.Stratum.Clients.{ClientHandler}

abbrev pub template_delay : ℕ
template_delay = 250 * 1000000

abbrev pub balance_delay : ℕ
balance_delay = 60 * 1000000000

pub record Clock : Type 0 where
  pub last_template_time : ℕ
  pub last_balance_check : ℕ

pub record Spawned (x : External) : Type 0 where
  pub jobs : HashMap ℕ (StratumContext x)
  pub balances : Option (List Text)

abbrev pub no_addresses : List Text → Bool
no_addresses [] = true
no_addresses (w ∷ ws) = false

module _ {x : External} where
  abbrev pub nothing : Spawned x
  nothing = record { jobs = []; balances = none }

  -- The clients that are connected, each of which gets a task.
  unfoldable pub connected_clients : HashMap ℕ (StratumContext x) → HashMap ℕ (StratumContext x)
  connected_clients [] = []
  connected_clients ((id, client) ∷ clients) =
      let rest = connected_clients clients in
      if client.disconnecting then rest else (id, client) ∷ rest

  unfoldable pub addresses : HashMap ℕ (StratumContext x) → List Text
  addresses [] = []
  addresses ((id, client) ∷ clients) =
      let rest = addresses clients in
      if is_empty client.wallet_addr then rest else client.wallet_addr ∷ rest

  unfoldable pub check_balances :
      ℕ → List Text → HashMap ℕ (StratumContext x) → Clock → Clock × Spawned x
  check_balances later wallets jobs t =
      if ltb balance_delay (later - t.last_balance_check) && not (no_addresses wallets)
      then (
        record t { last_balance_check = later },
        record { jobs = jobs; balances = some wallets },
      )
      else (t, record { jobs = jobs; balances = none })

  unfoldable pub new_block_available : ℕ → ℕ → ClientHandler x → Clock → Clock × Spawned x
  unfolding connected_clients addresses check_balances
  new_block_available now later h t =
      if ltb (now - t.last_template_time) template_delay
      then (t, nothing)
      else (let jobs = connected_clients h.clients in
          check_balances later (addresses jobs) jobs (record t { last_template_time = now }))
