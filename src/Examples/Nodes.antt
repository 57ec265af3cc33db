-- ===== src/Examples/Nodes.antt =====
-- The node, its templates and its notifications.
use rusty_kaspa_stratum.Shared.{
  ℕ, zero, suc, ◌+◌, ◌%◌, ◌^◌, ◌≡◌, refl, Bool, true, false, Option, none, some, List, [], ◌∷◌,
  ◌++◌, Text, codes, arith, Result, ok, err, HashMap, get, text_key, if◌then◌else◌, ◌-◌,
}
use rusty_kaspa_stratum.Shared
use rusty_kaspa_stratum.Node.Sync.{
  Answers, DagInfo, Poll, ready_stable, is_node_synced_for_mining, wait_until_mining_ready_stable,
}
use rusty_kaspa_stratum.Node.Sync.Stable.{
  is_ready, HasStableRun, wait_until_mining_ready_stable-HasStableRun,
}
use rusty_kaspa_stratum.Node.Sync.Ends.{is_quiet, wait_until_mining_ready_stable_ends}
use rusty_kaspa_stratum.Node.Status.{
  NodeStatusSnapshot, refresh_node_status_snapshot, network_display_from_id,
}
use rusty_kaspa_stratum.Node.Status.Shown.{refresh_node_status_snapshot-is_node_synced_for_mining}
use rusty_kaspa_stratum.Node.Templates.{Call, call_error, raw, get_block_template}
use rusty_kaspa_stratum.Node.Templates.Retries.{outcome, deciding, get_block_template-deciding}
use rusty_kaspa_stratum.Node.Balances.{
  UtxoEntry, parse_addresses, get_balances_by_addresses, held, occurs,
  get-get_balances_by_addresses,
}
use rusty_kaspa_stratum.Node.Connect.{
  failed, succeeded, first_backoff, connect_with_retries, IsBackoff, connect_with_retries-IsBackoff,
}
use rusty_kaspa_stratum.Node.Streams.{
  new_block_template, other_notification, TemplateListener, syncing, serving, ended, Seen, notified,
  ticked, select_turn,
}
use rusty_kaspa_stratum.Node.Streams.Runs.{
  here, next, arrives, turns, is_held_back, seeing, Reach-calls, select_turn-Reach-calls,
}
use rusty_kaspa_stratum.Node.Streams.Calls.{
  good, take_notifications, take_notifications_burst, select_turn-syncing,
}
use rusty_kaspa_stratum.Examples.World.{world}
use rusty_kaspa_stratum.Examples.Dispatches.{block}

abbrev dag : DagInfo world
dag = record {
  block_count = 5;
  header_count = 5;
  difficulty = 1;
  tip_hashes = [];
  virtual_daa_score = 9;
  network = codes "mainnet";
}

abbrev answers : Answers world
answers = record {
  connected = true;
  sync_status = some true;
  peers = some (false ∷ []);
  dag_info = some dag;
  server_info = none;
  info = none;
  sink_blue_score = none;
}

abbrev poll : ℕ → Poll world
poll now = record { shutdown = false; answers = answers; now = now; shutdown_in_pause = false }

abbrev polls : List (Poll world)
polls = poll 0 ∷ poll 1000000000 ∷ poll 2000000000 ∷ []

wait_until_mining_ready_stable-HasStableRun_example : HasStableRun polls
unfolding wait_until_mining_ready_stable
wait_until_mining_ready_stable-HasStableRun_example =
    wait_until_mining_ready_stable-HasStableRun true polls refl

wait_until_mining_ready_stable_ends_example :
    wait_until_mining_ready_stable true none polls ≡ ready_stable
unfolding is_ready is_node_synced_for_mining is_quiet
wait_until_mining_ready_stable_ends_example =
    wait_until_mining_ready_stable_ends true polls (omega arith) refl (
      [],
      poll 0,
      poll 1000000000 ∷ poll 2000000000 ∷ [],
      refl,
      refl,
      (poll 1000000000 ∷ [], poll 2000000000, [], refl, refl, refl, omega arith),
    )

abbrev snapshot : NodeStatusSnapshot world
snapshot = record {
  last_updated_unix_ms = none;
  is_connected = false;
  is_synced = none;
  network_id = none;
  server_version = none;
  virtual_daa_score = none;
  sink_blue_score = none;
  block_count = none;
  header_count = none;
  difficulty = none;
  tip_hash = none;
  peers = none;
  mempool_size = none;
}

refresh_node_status_snapshot-is_node_synced_for_mining_example :
    (refresh_node_status_snapshot (some 7) answers snapshot).is_synced
    ≡ some (is_node_synced_for_mining answers)
refresh_node_status_snapshot-is_node_synced_for_mining_example =
    refresh_node_status_snapshot-is_node_synced_for_mining (some 7) answers snapshot true dag refl
      refl

abbrev without_dag : Answers world
without_dag = record answers { dag_info = none }

network_display_from_id_test :
    network_display_from_id (some (codes "NetworkId { network_type: Testnet, suffix: Some(10) }"))
    ≡ some (codes "Testnet-Some(10)")
unfolding network_display_from_id Shared.trim Shared.strip_prefix
network_display_from_id_test = refl

-- The first call fails, the second has a malformed hash, and the third a block.
abbrev calls : ℕ → Call world
calls zero = call_error (codes "timeout")
calls (suc zero) = raw (err (codes "Odd number of digits"))
calls (suc (suc n)) = raw (ok block)

abbrev decodes : Text → Result Text (Unit {0})
decodes wallet_addr = ok tt

abbrev debug : Option Text → Text
debug e = []

get_block_template-deciding_example :
    get_block_template decodes calls debug (codes "kaspa:q") true
    ≡ (outcome (calls (deciding calls).0), (deciding calls).1)
get_block_template-deciding_example =
    get_block_template-deciding decodes calls debug (codes "kaspa:q") refl

abbrev rejects : Text → Result Text (Unit {0})
rejects wallet_addr = err (codes "missing prefix")

abbrev own_text : Text → Result Text Text
own_text a = ok a

abbrev entry : Text → ℕ → UtxoEntry
entry a amount = record { address = some a; amount = amount }

abbrev entries : List UtxoEntry
entries = entry (codes "a") 3 ∷ entry (codes "b") 5 ∷ entry (codes "a") (2 ^ 64 - 1) ∷ []

abbrev utxos : List Text → Result Text (List UtxoEntry)
utxos addresses = ok entries

get-get_balances_by_addresses_example :
    (balances : HashMap Text ℕ) × (get_balances_by_addresses own_text utxos (codes "a" ∷ [])
      ≡ ok balances)
    × (get (codes "a") balances
        ≡ (if occurs (codes "a") entries then some (held (codes "a") entries % 2 ^ 64) else none))
unfolding parse_addresses
get-get_balances_by_addresses_example =
    get-get_balances_by_addresses own_text utxos (codes "a" ∷ []) (codes "a" ∷ []) entries
      (codes "a") refl refl

connect_with_retries-IsBackoff_example :
    IsBackoff first_backoff (connect_with_retries (failed false ∷ failed false ∷ succeeded ∷ [])).1
connect_with_retries-IsBackoff_example =
    connect_with_retries-IsBackoff (failed false ∷ failed false ∷ succeeded ∷ [])

abbrev listener : TemplateListener
listener = record {
  phase = serving;
  rx = other_notification ∷ other_notification ∷ new_block_template ∷ new_block_template ∷ [];
  next_tick = 40;
  log_sync_resume = false;
  calls = 6;
}

abbrev out_of_sync : Seen
out_of_sync = seeing false false false

Reach-calls_example :
    (select_turn 1000 50 out_of_sync ticked
      (record listener { rx = listener.rx ++ new_block_template ∷ [] })).calls
    ≡ 6
unfolding is_held_back
Reach-calls_example = Reach-calls 1000 (
    next (next here (arrives listener new_block_template)) (
      turns (record listener { rx = listener.rx ++ new_block_template ∷ [] }) 50 out_of_sync ticked
        refl))

select_turn-Reach-calls_example :
    ((select_turn 1000 60 good ticked
        (select_turn 1000 50 (seeing true false true) notified listener)).phase
      ≡ ended)
    × ((select_turn 1000 60 good ticked
          (select_turn 1000 50 (seeing true false true) notified listener)).calls
        ≡ 6)
select_turn-Reach-calls_example =
    select_turn-Reach-calls 1000 50 false true notified listener
      (select_turn 1000 60 good ticked
        (select_turn 1000 50 (seeing true false true) notified listener))
      (next here
        (turns (select_turn 1000 50 (seeing true false true) notified listener) 60 good ticked tt))

take_notifications_burst_example :
    take_notifications 1000 50 3 listener ≡ record listener { rx = []; calls = 7; next_tick = 50 }
take_notifications_burst_example =
    take_notifications_burst 1000 50 2 listener (new_block_template ∷ []) refl refl

select_turn-syncing_example :
    (select_turn 1000 50 good ticked
      (select_turn 1000 50 good notified (record listener { phase = syncing }))).calls
    ≡ 7
select_turn-syncing_example =
    select_turn-syncing 1000 50 50 notified (record listener { phase = syncing }) refl (omega arith)

abbrev notified_listener : TemplateListener
notified_listener = record listener { rx = new_block_template ∷ [] }
