-- ===== src/Node/Sync.antt =====
-- bridge/src/kaspa/kaspaapi/api/mod.rs: whether the node is ready for mining, and the wait for it. What
-- the node answers to a round of calls is a parameter, `none` for an error; a peer is given by its
-- `is_ibd_peer`. Times are in nanoseconds.
pub mod Stable
pub mod Ends
use rusty_kaspa_stratum.Shared.{
  ℕ, ◌-◌, ◌*◌, Bool, true, false, ◌&&◌, ◌||◌, not, Option, none, some, List, [], ◌∷◌, Text,
  if◌then◌else◌, leb, ◌==◌, unwrap_or,
}
use rusty_kaspa_stratum.External.{External}

pub record DagInfo (x : External) : Type 0 where
  pub block_count : ℕ
  pub header_count : ℕ
  pub difficulty : x.Float
  pub tip_hashes : List Text
  pub virtual_daa_score : ℕ
  pub network : Text

pub record ServerInfo : Type 0 where
  pub is_synced : Bool
  pub network_id : Text
  pub server_version : Text
  pub virtual_daa_score : ℕ

pub record Info : Type 0 where
  pub mempool_size : ℕ
  pub server_version : Text

pub record Answers (x : External) : Type 0 where
  pub connected : Bool
  pub sync_status : Option Bool
  pub peers : Option (List Bool)
  pub dag_info : Option (DagInfo x)
  pub server_info : Option ServerInfo
  pub info : Option Info
  pub sink_blue_score : Option ℕ

-- The time that the node has to stay ready.
abbrev pub min_mining_ready_stable : ℕ
min_mining_ready_stable = 2 * 1000000000

abbrev pub any_ibd_peer : List Bool → Bool
any_ibd_peer [] = false
any_ibd_peer (is_ibd_peer ∷ peers) = is_ibd_peer || any_ibd_peer peers

abbrev pub ibd_peer_active : Option (List Bool) → Bool
ibd_peer_active none = false
ibd_peer_active (some peers) = any_ibd_peer peers

-- How a wait ends; `waiting` says that it goes on after the polls that there are.
pub data Waited : Type 0 where
  ready_stable shutdown_requested waiting : Waited

-- A turn of the loop: whether a shutdown is seen before or during the calls, what they answer, the
-- time after them, and whether a shutdown is seen in the pause.
pub record Poll (x : External) : Type 0 where
  pub shutdown : Bool
  pub answers : Answers x
  pub now : ℕ
  pub shutdown_in_pause : Bool

abbrev pub is_stable : Option ℕ → ℕ → Bool
is_stable none now = false
is_stable (some t0) now = leb min_mining_ready_stable (now - t0)

-- `stable_since` after a turn
abbrev pub since : Bool → Option ℕ → ℕ → Option ℕ
since false stable_since now = none
since true none now = some now
since true (some t0) now = some t0

module _ {x : External} where
  abbrev pub has_parity : Option (DagInfo x) → Bool
  has_parity none = false
  has_parity (some dag) = dag.block_count == dag.header_count

  unfoldable pub is_node_synced_for_mining : Answers x → Bool
  is_node_synced_for_mining a =
      if not (unwrap_or a.sync_status false)
      then false
      else if ibd_peer_active a.peers
      then false
      else has_parity a.dag_info

  -- `with_shutdown` says whether there is a `shutdown_rx`.
  unfoldable pub wait_until_mining_ready_stable : Bool → Option ℕ → List (Poll x) → Waited
  unfolding is_node_synced_for_mining
  wait_until_mining_ready_stable with_shutdown stable_since [] = waiting
  wait_until_mining_ready_stable with_shutdown stable_since (p ∷ polls) =
      let ready = is_node_synced_for_mining p.answers in
      let rest =
        wait_until_mining_ready_stable with_shutdown (since ready stable_since p.now) polls in
      if with_shutdown && p.shutdown
      then shutdown_requested
      else if ready && is_stable stable_since p.now
      then ready_stable
      else if with_shutdown && p.shutdown_in_pause
      then shutdown_requested
      else rest
