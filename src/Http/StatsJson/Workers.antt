-- ===== src/Http/StatsJson/Workers.antt =====
-- bridge/src/prom/http/stats_json/aggregate.rs, the loop over the families of workers and blocks. Its
-- variables are a record.
pub mod Sums
pub mod Totals
use rusty_kaspa_stratum.Shared.{
  ℕ, ◌+◌, Bool, true, false, not, ◌&&◌, ◌||◌, Option, none, some, List, [], ◌∷◌, ◌++◌, Text, codes,
  if◌then◌else◌, is_empty, HashMap, get, insert, unwrap_or, text_key, text_eq, contains,
}
use rusty_kaspa_stratum.External.{External}
use rusty_kaspa_stratum.Http.StatsJson.{
  LabelPair, Sample, MetricFamily, Family, mined_blocks, blocks_mined, share_diff, valid_share,
  invalid_share, worker_disconnect, worker_job, accepted_by_node, not_confirmed_blue,
  balance_by_wallet, worker_errors, start_time, current_difficulty, family_names, WorkerInfo,
  saturating_add, label_of, new_worker_info, wallet_key, worker_map_key, parse_worker_labels,
  parse_instance_wallet_labels,
}

pub record BlockInfo : Type 0 where
  pub instance_id : Text
  pub worker : Text
  pub wallet : Text
  pub timestamp : Text
  pub hash : Text
  pub nonce : Text
  pub bluescore : Text

pub record Gathered (x : External) : Type 0 where
  pub worker_stats : HashMap Text (WorkerInfo x.Float)
  pub worker_hash_values : HashMap Text x.Float
  pub worker_start_times : HashMap Text x.Float
  pub worker_difficulties : HashMap Text x.Float
  pub balance_by_instance_wallet : HashMap Text x.Float
  pub errors_by_instance_wallet : HashMap Text ℕ
  pub block_set : List Text
  pub found_blocks : List BlockInfo
  pub total_blocks : ℕ
  pub total_shares : ℕ

abbrev pub block_info : List LabelPair → BlockInfo
block_info labels = record {
  instance_id = label_of (codes "instance") labels [];
  worker = label_of (codes "worker") labels [];
  wallet = label_of (codes "wallet") labels [];
  timestamp = label_of (codes "timestamp") labels [];
  hash = label_of (codes "hash") labels [];
  nonce = label_of (codes "nonce") labels [];
  bluescore = label_of (codes "bluescore") labels [];
}

abbrev pub add_invalid : {F : Type 0} → Text → ℕ → WorkerInfo F → WorkerInfo F
add_invalid share_type n w =
    if text_eq share_type (codes "stale")
    then record w { stale = saturating_add w.stale n }
    else if text_eq share_type (codes "invalid")
    then record w { invalid = saturating_add w.invalid n }
    else if text_eq share_type (codes "duplicate")
    then record w { duplicate_shares = saturating_add w.duplicate_shares n }
    else if text_eq share_type (codes "weak")
    then record w { weak_shares = saturating_add w.weak_shares n }
    else w

module _ (x : External) where
  -- The value of a counter, `as u64` or `.max(0.0) as u64`
  abbrev pub count : x.Float → ℕ
  count v = x.trunc_u64 v

  abbrev pub count_max : x.Float → ℕ
  count_max v = x.trunc_u64 (if x.positive v then v else x.zero)

  -- What a metric of a family adds to the entry of its worker.
  unfoldable pub count_for :
      Family → List LabelPair → x.Float → WorkerInfo x.Float → WorkerInfo x.Float
  count_for blocks_mined labels v w = record w { blocks = saturating_add w.blocks (count v) }
  count_for valid_share labels v w = record w { shares = saturating_add w.shares (count v) }
  count_for invalid_share labels v w = add_invalid (label_of (codes "type") labels []) (count v) w
  count_for worker_disconnect labels v w = record w {
    disconnects = saturating_add w.disconnects (count_max v);
  }
  count_for worker_job labels v w = record w { jobs = saturating_add w.jobs (count_max v) }
  count_for accepted_by_node labels v w = record w {
    blocks_accepted_by_node = saturating_add w.blocks_accepted_by_node (count_max v);
  }
  count_for not_confirmed_blue labels v w = record w {
    blocks_not_confirmed_blue = saturating_add w.blocks_not_confirmed_blue (count_max v);
  }
  count_for _ labels v w = w

  -- The earliest start time
  abbrev pub earliest : x.Float → Option x.Float → x.Float
  earliest v none = v
  earliest v (some old) =
      if x.positive v && (not (x.positive old) || (x.le v old && x.ne v old)) then v else old

module _ {x : External} where
  abbrev pub nothing_gathered : Gathered x
  nothing_gathered = record {
    worker_stats = [];
    worker_hash_values = [];
    worker_start_times = [];
    worker_difficulties = [];
    balance_by_instance_wallet = [];
    errors_by_instance_wallet = [];
    block_set = [];
    found_blocks = [];
    total_blocks = 0;
    total_shares = 0;
  }

  abbrev pub push_block : BlockInfo → Gathered x → Gathered x
  push_block block g =
      if is_empty block.hash || contains g.block_set block.hash then g else record g {
        block_set = block.hash ∷ g.block_set;
        found_blocks = g.found_blocks ++ block ∷ [];
        total_blocks = g.total_blocks + 1;
      }

  unfoldable pub on_block : Sample x.Float → Gathered x → Gathered x
  on_block metric g = if x.positive metric.value then push_block (block_info metric.labels) g else g

  -- What it adds to the other tables.
  unfoldable pub note_for : Family → Text → x.Float → Gathered x → Gathered x
  note_for share_diff key v g = record g {
    worker_hash_values =
        insert key (x.add (unwrap_or (get key g.worker_hash_values) x.zero) v) g.worker_hash_values;
  }
  note_for valid_share key v g = record g {
    total_shares = saturating_add g.total_shares (count x v);
  }
  note_for start_time key v g = record g {
    worker_start_times =
        insert key (earliest x v (get key g.worker_start_times)) g.worker_start_times;
  }
  note_for current_difficulty key v g =
      if x.positive v
      then record g { worker_difficulties = insert key v g.worker_difficulties }
      else g
  note_for _ key v g = g

  -- worker_stats.entry(key).or_insert_with(..)
  unfoldable pub entry : Text → Text × Text × Text → Gathered x → WorkerInfo x.Float
  entry key (id, worker, wallet) g =
      unwrap_or (get key g.worker_stats) (new_worker_info id worker wallet)

  abbrev pub on_worker_key :
      Family → Text → Text × Text × Text → Sample x.Float → Gathered x → Gathered x
  on_worker_key family key parts metric g =
      let noted = note_for family key metric.value g in
      let w = count_for x family metric.labels metric.value (entry key parts g) in
      record noted { worker_stats = insert key w g.worker_stats }

  unfoldable pub on_worker : Family → Sample x.Float → Gathered x → Gathered x
  on_worker family metric g =
      let (id, worker, wallet) = parse_worker_labels metric.labels in
      if is_empty worker
      then g
      else on_worker_key family (worker_map_key id worker wallet) (id, worker, wallet) metric g

  unfoldable pub on_balance : Sample x.Float → Gathered x → Gathered x
  on_balance metric g =
      let (id, wallet) = parse_instance_wallet_labels metric.labels in
      if is_empty wallet then g else record g {
        balance_by_instance_wallet =
            insert (wallet_key id wallet) metric.value g.balance_by_instance_wallet;
      }

  unfoldable pub on_errors : Sample x.Float → Gathered x → Gathered x
  on_errors metric g =
      let (id, wallet) = parse_instance_wallet_labels metric.labels in
      let key = wallet_key id wallet in
      let errors = unwrap_or (get key g.errors_by_instance_wallet) 0 in
      if is_empty wallet then g else record g {
        errors_by_instance_wallet =
            insert key (saturating_add errors (count_max x metric.value))
              g.errors_by_instance_wallet;
      }

  unfoldable pub on_metric : Family → Sample x.Float → Gathered x → Gathered x
  on_metric mined_blocks metric g = on_block metric g
  on_metric balance_by_wallet metric g = on_balance metric g
  on_metric worker_errors metric g = on_errors metric g
  on_metric family metric g = on_worker family metric g

  unfoldable pub on_metrics : Family → List (Sample x.Float) → Gathered x → Gathered x
  on_metrics family [] g = g
  on_metrics family (metric ∷ metrics) g = on_metrics family metrics (on_metric family metric g)

  abbrev pub on_family : Option Family → List (Sample x.Float) → Gathered x → Gathered x
  on_family none metrics g = g
  on_family (some family) metrics g = on_metrics family metrics g

  unfoldable pub gather_workers : List (MetricFamily x.Float) → Gathered x → Gathered x
  gather_workers [] g = g
  gather_workers (family ∷ families) g =
      gather_workers families (on_family (get family.family_name family_names) family.samples g)
