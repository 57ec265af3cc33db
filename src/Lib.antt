-- ===== src/Lib.antt =====
-- A stratum bridge between miners and a Kaspa node: miners connect by TCP and speak a line protocol
-- of JSON-RPC messages; the bridge hands out jobs from the node's block templates and checks the
-- nonces that come back. Here both ways are modelled: from the block template to the job that a
-- miner is sent, and from the bytes of a connection to the counters, the reply and the node, with the
-- tables that are read and written.
--
-- The files, and the code they are about (paths from the root of the repository):
--
-- Shared: notation, lists, maps, texts and the state-and-error runs that the parts share.
-- External: the node's header, its hashes and proof of work, serde_json's numbers and f64, as
--   parameters.
-- Numerals: the standard library's number texts.
-- Mining: bridge/src/mining/mining_state.rs (State: `add_job`, `get_job` and the setters of
--   `MiningState`, each one step on the state) and bridge/src/mining/hasher.rs (Target:
--   `calculate_target`, `stratum_difficulty_to_target_kaspa`; Difficulty: `KaspaDiff`,
--   `diff_to_target`; Header: `serialize_block_header`; JobParams: the texts of a job).
-- Dedupe: the guards of bridge/src/share_handler/duplicate_submit.rs (Submits) and
--   bridge/src/kaspa/kaspaapi/api/block_submit_guard.rs (Blocks), over the `prune` that both have
--   (Pruning). Both are structural recursions on the queue.
-- Rpc: bridge/src/jsonrpc/jsonrpc_event.rs.
-- Stratum: the connection, bridge/src/stratum/stratum_context (Context), the lines of
--   bridge/src/stratum/stratum_line_codec.rs (LineCodec), and the loop that reads a connection,
--   bridge/src/stratum/stratum_listener/client_io/read_loop.rs (Listener, over the decoding of UTF-8
--   in Utf8; Listener/Accept: the loop that accepts connections in stratum_listener/listen.rs, the
--   task that removes clients, and the end of stratum_server.rs); of
--   bridge/src/stratum/client_handler the table of clients in mod.rs (Clients, with
--   `new_block_available` in Clients/NewBlocks) and the extranonces of handshake.rs (Handshake).
-- Handlers: bridge/src/stratum/default_client.rs: subscribe, the addresses (Wallet), authorize
--   (Authorize).
-- Jobs: bridge/src/stratum/client_handler/job_dispatch: what both tasks share, the parameters and the
--   message (Params), immediate_job.rs (Immediate), new_block_job.rs (NewBlock).
-- Shares: bridge/src/share_handler/work_stats.rs and the statistics of `ShareHandler` (Stats), the
--   difficulty of vardiff.rs (Vardiff), and of lifecycle.rs the ticks of its threads and the calls of
--   job dispatch (Lifecycle).
-- Node: of bridge/src/kaspa/kaspaapi, `submit_block` (Submit), `get_block_template` (Templates) and
--   `get_balances_by_addresses` (Balances) of api/template_submit.rs; of api/mod.rs the loops of
--   `KaspaApi::new` (Connect), `is_node_synced_for_mining` and the wait for it (Sync), and the
--   snapshot of the node, with node_status.rs (Status); api/streams.rs (Streams); coinbase_tag.rs
--   (CoinbaseTag).
-- Config: bridge/src/config/app_config.rs, with bridge/src/util/net_utils.rs (Ports), and of
--   bridge/src/cli.rs `parse_instance_spec` (Spec) and `apply_cli_overrides` (Cli).
-- Http: of bridge/src/prom/http, ops_access.rs (Access) and stats_json (StatsJson: Workers is the
--   loop over the metric families, Shown the join and the choice of the workers that are shown,
--   Report the whole).
-- Submit: bridge/src/share_handler/submit, a file for each file of the source: Parse (`prepare`),
--   Duplicate (`respond_on_duplicate`), PowMath, PowLoop (`run_pow_validation_loop`, with
--   `evaluate_job_pow` of pow_step.rs), BlockSubmit (`run_block_found_submit_flow`, and the task it
--   spawns in BlockSubmit/Confirm), Finish (`after_pow_loop`), Handle (`handle_submit`).
--   Session holds what a submission reads and writes: the share handler, the connection, and lists
--   of the metric calls and the spawned tasks.
-- Examples: the theorems at concrete inputs.
--
-- How the parts interact: `handle_submit` prepares the submission from the job table of its
-- connection (Mining.State), asks and updates the duplicate guard (Dedupe.Submits), tries the jobs
-- of the table from the submitted id downwards, sends a block to the node or counts the share
-- (Shares.Stats), and replies on the connection (Stratum.Context). `handle_authorize` runs
-- `send_immediate_job_task`, which puts a job into the same table, leaves the difficulty to a task
-- (`diff_tasks` of the session) and writes the work to the connection. The read loop calls the
-- handlers through a table that is a parameter of it. What `handle_submit` takes as the node is a
-- parameter; Node.Submit is such a node, over the block guard.
--
-- Bounds and fuel: a job id is a u64 and wraps; counters that only go up from 0 are natural
-- numbers. The loop over older jobs runs on fuel, one try for each of the `max_jobs` slots, and the
-- loop over lines on the length of the buffer, of which each turn drops a part. Decoding runs on the
-- number of bytes, and the recursion of `clean_wallet` on two calls. The read loop runs over any list
-- of reads. A time is a natural number, and the difference of two times stops at 0, as
-- `duration_since` does.
--
-- Not modelled: logging, sockets and the task that removes a connection after a failed write, the
-- arithmetic of floating point (f64 is a parameter), metrics beyond the list of their calls,
-- interleavings of several submissions, or of a handler with other tasks (a run is not interrupted,
-- but for the pause of the immediate job, in which the spawned task runs or does not), the parsing
-- of YAML and of the flags, start-up, the registration of metrics and their pages, and of the
-- report of the dashboard the gauges of the network, the hash rates, the recent blocks of the
-- internal miner and the order of the lists.
pub mod Config
pub mod Http
pub mod Shared
pub mod Mining
pub mod Dedupe
pub mod Numerals
pub mod External
pub mod Stratum
pub mod Shares
pub mod Rpc
pub mod Submit
pub mod Node
pub mod Examples
pub mod Jobs
pub mod Handlers
