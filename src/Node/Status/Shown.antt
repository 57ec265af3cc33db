-- ===== src/Node/Status/Shown.antt =====
-- What the snapshot shows, against what the bridge goes by.
use rusty_kaspa_stratum.Shared.{
  ℕ, ◌≡◌, refl, Bool, true, false, Option, none, some, arith, not, ◌==◌, if◌then◌else◌,
}
use rusty_kaspa_stratum.External.{External}
use rusty_kaspa_stratum.Node.Sync.{Answers, DagInfo, is_node_synced_for_mining, ibd_peer_active}
use rusty_kaspa_stratum.Node.Status.{
  NodeStatusSnapshot, refresh_node_status_snapshot, synced_of, cleared_if,
}

synced_agree :
    (active parity status : Bool)
    → cleared_if (not parity) (cleared_if active (some status))
      ≡ some (if not status then false else if active then false else parity)
synced_agree true true true = refl
synced_agree true true false = refl
synced_agree true false true = refl
synced_agree true false false = refl
synced_agree false true true = refl
synced_agree false true false = refl
synced_agree false false true = refl
synced_agree false false false = refl

module _ {x : External} where
  refresh-synced :
      (now : Option ℕ) (a : Answers x) (s : NodeStatusSnapshot x)
      → (refresh_node_status_snapshot now a s).is_synced ≡ synced_of a
  unfolding refresh_node_status_snapshot
  refresh-synced now a s = ground arith

  -- Where the node answers to `getSyncStatus` and `getBlockDagInfo`, the snapshot shows it as synced
  -- exactly if the bridge mines on it.
  pub refresh_node_status_snapshot-is_node_synced_for_mining :
      (now : Option ℕ) (a : Answers x) (s : NodeStatusSnapshot x) (status : Bool) (dag : DagInfo x)
      → a.sync_status ≡ some status
      → a.dag_info ≡ some dag
      → (refresh_node_status_snapshot now a s).is_synced ≡ some (is_node_synced_for_mining a)
  unfolding synced_of is_node_synced_for_mining
  refresh_node_status_snapshot-is_node_synced_for_mining now a s status dag hs hd =
      rw (refresh-synced now a s) (
        rw (hs, hd)
          (synced_agree (ibd_peer_active a.peers) (dag.block_count == dag.header_count) status))

  -- A node that does not answer to `getBlockDagInfo`, but is synced and without an IBD peer, is shown as
  -- synced, and the bridge does not mine on it.
  refresh_node_status_snapshot_ahead :
      (now : Option ℕ) (a : Answers x) (s : NodeStatusSnapshot x)
      → a.sync_status ≡ some true
      → ibd_peer_active a.peers ≡ false
      → a.dag_info ≡ none
      → ((refresh_node_status_snapshot now a s).is_synced ≡ some true)
        × (is_node_synced_for_mining a ≡ false)
  unfolding synced_of is_node_synced_for_mining
  refresh_node_status_snapshot_ahead now a s hs hp hd =
      (rw (refresh-synced now a s) (ground (arith, hs, hp, hd)), ground (arith, hs, hp, hd))
