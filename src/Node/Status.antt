-- ===== src/Node/Status.antt =====
-- bridge/src/kaspa/kaspaapi: the snapshot of the node that the console and `/api/status` show,
-- `refresh_node_status_snapshot` of api/mod.rs and `network_display_from_id` and `node_status_for_api`
-- of node_status.rs. The network id is the text that its Debug format gives.
pub mod Shown
use rusty_kaspa_stratum.Shared.{
  ℕ, Bool, true, false, ◌&&◌, ◌||◌, not, Option, none, some, List, [], ◌∷◌, ◌++◌, Text, codes,
  if◌then◌else◌, ◌==◌, is_empty, trim, trim_start_matches, is_whitespace, strip_prefix, text_eq,
  length,
}
use rusty_kaspa_stratum.External.{External}
use rusty_kaspa_stratum.Node.Sync.{
  Answers, DagInfo, ServerInfo, Info, any_ibd_peer, ibd_peer_active,
}

-- `last_updated`, an instant, is left out: nothing reads it but the console.
pub record NodeStatusSnapshot (x : External) : Type 0 where
  pub last_updated_unix_ms : Option ℕ
  pub is_connected : Bool
  pub is_synced : Option Bool
  pub network_id : Option Text
  pub server_version : Option Text
  pub virtual_daa_score : Option ℕ
  pub sink_blue_score : Option ℕ
  pub block_count : Option ℕ
  pub header_count : Option ℕ
  pub difficulty : Option x.Float
  pub tip_hash : Option Text
  pub peers : Option ℕ
  pub mempool_size : Option ℕ

abbrev pub first_of : List Text → Option Text
first_of [] = none
first_of (h ∷ hs) = some h

-- What is set only if it is not known.
abbrev pub or_else {ℓ} : {A : Type ℓ} → Option A → A → Option A
or_else none a = some a
or_else (some b) a = some b

abbrev pub answer_of : Option Bool → Option ServerInfo → Option Bool
answer_of (some v) server_info = some v
answer_of none none = none
answer_of none (some s) = some s.is_synced

-- `Some(true)` turns into `Some(false)` if this holds.
abbrev pub cleared_if : Bool → Option Bool → Option Bool
cleared_if lagging none = none
cleared_if lagging (some false) = some false
cleared_if lagging (some true) = some (not lagging)

module _ {x : External} where
  abbrev pub lags : Option (DagInfo x) → Bool
  lags none = false
  lags (some dag) = not (dag.block_count == dag.header_count)

  unfoldable pub synced_of : Answers x → Option Bool
  synced_of a =
      cleared_if (lags a.dag_info)
        (cleared_if (ibd_peer_active a.peers) (answer_of a.sync_status a.server_info))

  abbrev pub with_server_info : Option ServerInfo → NodeStatusSnapshot x → NodeStatusSnapshot x
  with_server_info none s = s
  with_server_info (some i) s = record s {
    network_id = some i.network_id;
    server_version = some i.server_version;
    virtual_daa_score = some i.virtual_daa_score;
  }

  abbrev pub with_dag_info : Option (DagInfo x) → NodeStatusSnapshot x → NodeStatusSnapshot x
  with_dag_info none s = s
  with_dag_info (some dag) s = record s {
    block_count = some dag.block_count;
    header_count = some dag.header_count;
    difficulty = some dag.difficulty;
    tip_hash = first_of dag.tip_hashes;
    virtual_daa_score = or_else s.virtual_daa_score dag.virtual_daa_score;
    network_id = or_else s.network_id dag.network;
  }

  abbrev pub with_peers : Option (List Bool) → NodeStatusSnapshot x → NodeStatusSnapshot x
  with_peers none s = s
  with_peers (some peers) s = record s { peers = some (length peers) }

  abbrev pub with_info : Option Info → NodeStatusSnapshot x → NodeStatusSnapshot x
  with_info none s = s
  with_info (some i) s = record s {
    mempool_size = some i.mempool_size;
    server_version = or_else s.server_version i.server_version;
  }

  -- `now` is the wall clock, none if it is before 1970.
  unfoldable pub refresh_node_status_snapshot :
      Option ℕ → Answers x → NodeStatusSnapshot x → NodeStatusSnapshot x
  unfolding synced_of
  refresh_node_status_snapshot now a s =
      let s' = record s {
        last_updated_unix_ms = now;
        is_connected = a.connected;
        is_synced = synced_of a;
      } in
      let s'' = with_peers a.peers (with_dag_info a.dag_info (with_server_info a.server_info s')) in
      record (with_info a.info s'') { sink_blue_score = a.sink_blue_score }

-- `net.find(p)`, and the text after it
unfoldable pub after_text : Text → Text → Option Text
after_text p [] = strip_prefix p []
after_text p (c ∷ s) =
    let later = after_text p s in elim (strip_prefix p (c ∷ s)) [ none ↦ later | some t ↦ some t ]

-- `s.split(&[',', '}'][..]).next()`
unfoldable pub until_end : Text → Text
until_end [] = []
until_end (c ∷ s) = if c == b',' || c == b'}' then [] else c ∷ until_end s

abbrev pub field_after : Option Text → Option Text
field_after none = none
field_after (some s) = some (trim (until_end (trim_start_matches is_whitespace s)))

abbrev pub not_none : Option Text → Option Text
not_none none = none
not_none (some raw) = if text_eq raw (codes "None") then none else some raw

abbrev pub joined : Text → Option Text → Option Text → Text
joined net (some nt) (some suf) = nt ++ b'-' ∷ suf
joined net (some nt) none = nt
joined net none suffix = net

abbrev pub network_type_of : Text → Option Text
network_type_of net = field_after (after_text (codes "network_type:") net)

abbrev pub suffix_of : Text → Option Text
suffix_of net = not_none (field_after (after_text (codes "suffix:") net))

abbrev pub display_of : Text → Option Text
display_of net =
    if is_empty net || text_eq net (codes "-")
    then none
    else some (joined net (network_type_of net) (suffix_of net))

unfoldable pub network_display_from_id : Option Text → Option Text
unfolding after_text until_end
network_display_from_id none = none
network_display_from_id (some network_id) = display_of (trim network_id)

-- `/api/status`: the snapshot, and the label of the network.
pub record NodeStatusApi (x : External) : Type 0 where
  pub status : NodeStatusSnapshot x
  pub network_display : Option Text

unfoldable pub node_status_for_api : {x : External} → NodeStatusSnapshot x → NodeStatusApi x
unfolding network_display_from_id
node_status_for_api s = record {
  status = s;
  network_display = network_display_from_id s.network_id;
}
