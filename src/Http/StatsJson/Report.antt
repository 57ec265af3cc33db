-- ===== src/Http/StatsJson/Report.antt =====
-- bridge/src/prom/http/stats_json/aggregate.rs, `get_stats_json_filtered` as a whole, with
-- `filter_metric_families_for_instance` of bridge/src/prom/metrics.rs. The families are what
-- prometheus gathers, `mining_address` is the static of the internal miner. The lists are not sorted,
-- and the gauges of the network, the hash rates, the recent blocks of the internal miner and the
-- uptime of the bridge are left out.
pub mod Totals
use rusty_kaspa_stratum.Shared.{
  ℕ, ◌+◌, ◌-◌, Bool, true, false, not, ◌&&◌, ◌||◌, Option, none, some, List, [], ◌∷◌, Text, codes,
  if◌then◌else◌, ltb, is_empty, HashMap, unwrap_or, text_eq, length,
}
use rusty_kaspa_stratum.External.{External}
use rusty_kaspa_stratum.Http.StatsJson.{LabelPair, Sample, MetricFamily, WorkerInfo, saturating_add}
use rusty_kaspa_stratum.Http.StatsJson.Workers.{
  BlockInfo, Gathered, nothing_gathered, gather_workers, count_max,
}
use rusty_kaspa_stratum.Http.StatsJson.Shown.{report_workers}

pub record InternalCpuStats (F : Type 0) : Type 0 where
  pub hashrate_ghs : F
  pub hashes_tried : ℕ
  pub blocks_submitted : ℕ
  pub blocks_accepted : ℕ
  pub shares : ℕ
  pub stale : ℕ
  pub invalid : ℕ
  pub wallet : Text

pub record StatsResponse (F : Type 0) : Type 0 where
  pub total_blocks : ℕ
  pub total_blocks_accepted_by_node : ℕ
  pub total_blocks_not_confirmed_blue : ℕ
  pub total_shares : ℕ
  pub active_workers : ℕ
  pub internal_cpu : Option (InternalCpuStats F)
  pub blocks : List BlockInfo
  pub workers : List (WorkerInfo F)

unfoldable pub any {ℓ} : {A : Type ℓ} → (A → Bool) → List A → Bool
any p [] = false
any p (a ∷ rest) = p a || any p rest

module _ {F : Type 0} where
  abbrev pub has_instance : Sample F → Bool
  has_instance metric = any (λ label. text_eq label.label_name (codes "instance")) metric.labels

  abbrev pub metric_matches_instance : Text → Sample F → Bool
  metric_matches_instance id metric =
      any (λ label. text_eq label.label_name (codes "instance") && text_eq label.label_value id)
        metric.labels

  -- `retain` of the metrics of the instance
  unfoldable pub retain_instance : Text → List (Sample F) → List (Sample F)
  unfolding any
  retain_instance id [] = []
  retain_instance id (metric ∷ metrics) =
      let rest = retain_instance id metrics in
      if metric_matches_instance id metric then metric ∷ rest else rest

  abbrev pub push_family : Text → List (Sample F) → List (MetricFamily F) → List (MetricFamily F)
  push_family name [] rest = rest
  push_family name (metric ∷ metrics) rest =
      record { family_name = name; samples = metric ∷ metrics } ∷ rest

  unfoldable pub filter_metric_families_for_instance :
      Text → List (MetricFamily F) → List (MetricFamily F)
  unfolding any retain_instance
  filter_metric_families_for_instance id [] = []
  filter_metric_families_for_instance id (family ∷ families) =
      let rest = filter_metric_families_for_instance id families in
      if any has_instance family.samples
      then push_family family.family_name (retain_instance id family.samples) rest
      else family ∷ rest

  abbrev pub families_for : Option Text → List (MetricFamily F) → List (MetricFamily F)
  families_for none all_families = all_families
  families_for (some id) all_families = filter_metric_families_for_instance id all_families

  abbrev pub first_value : List (Sample F) → Option F → Option F
  first_value [] found = found
  first_value (metric ∷ metrics) found = some metric.value

  -- The first value of the last family of a name.
  unfoldable pub value_of : Text → List (MetricFamily F) → Option F → Option F
  value_of name [] found = found
  value_of name (family ∷ families) found =
      value_of name families
        (if text_eq family.family_name name then first_value family.samples found else found)

module _ (x : External) where
  unfoldable pub sum_samples : List (Sample x.Float) → ℕ → ℕ
  sum_samples [] sum = sum
  sum_samples (metric ∷ metrics) sum =
      sum_samples metrics (saturating_add sum (count_max x metric.value))

  unfoldable pub sum_prometheus_counter_family : Text → List (MetricFamily x.Float) → ℕ → ℕ
  unfolding sum_samples
  sum_prometheus_counter_family name [] sum = sum
  sum_prometheus_counter_family name (family ∷ families) sum =
      sum_prometheus_counter_family name families
        (if text_eq family.family_name name then sum_samples family.samples sum else sum)

  abbrev pub counter_of : Option x.Float → ℕ
  counter_of none = 0
  counter_of (some v) = count_max x v

  abbrev pub internal_counter : Text → List (MetricFamily x.Float) → ℕ
  internal_counter name all_families = counter_of (value_of name all_families none)

  -- The internal miner, where it is enabled or has done something.
  unfoldable pub internal_cpu_of :
      Text → List (MetricFamily x.Float) → Option (InternalCpuStats x.Float)
  unfolding value_of
  internal_cpu_of mining_address all_families =
      let submitted =
        internal_counter (codes "ks_internal_cpu_blocks_submitted_total") all_families in
      let accepted =
        internal_counter (codes "ks_internal_cpu_blocks_accepted_total") all_families in
      let tried = internal_counter (codes "ks_internal_cpu_hashes_tried_total") all_families in
      let rate =
        unwrap_or (value_of (codes "ks_internal_cpu_hashrate_ghs") all_families none) x.zero in
      if not (is_empty mining_address)
        || ltb 0 submitted
        || ltb 0 accepted
        || ltb 0 tried
        || x.positive rate
      then some (record {
        hashrate_ghs = rate;
        hashes_tried = tried;
        blocks_submitted = submitted;
        blocks_accepted = accepted;
        shares = accepted;
        stale = submitted - accepted;
        invalid = 0;
        wallet = mining_address;
      })
      else none

  -- The counts of the internal miner are added to the totals.
  abbrev pub fold_internal :
      Option (InternalCpuStats x.Float) → StatsResponse x.Float → StatsResponse x.Float
  fold_internal none r = r
  fold_internal (some icpu) r = record r {
    total_blocks = saturating_add r.total_blocks icpu.blocks_accepted;
    total_shares = saturating_add r.total_shares icpu.blocks_accepted;
    active_workers = r.active_workers + 1;
  }

  -- The workers and blocks of the families, before the internal miner is added.
  abbrev pub response_of :
      Gathered x
      → List (WorkerInfo x.Float)
      → List (MetricFamily x.Float)
      → Option (InternalCpuStats x.Float)
      → StatsResponse x.Float
  response_of g shown families icpu = record {
    total_blocks = g.total_blocks;
    total_blocks_accepted_by_node =
        sum_prometheus_counter_family (codes "ks_blocks_accepted_by_node") families 0;
    total_blocks_not_confirmed_blue =
        sum_prometheus_counter_family (codes "ks_blocks_not_confirmed_blue") families 0;
    total_shares = g.total_shares;
    active_workers = length shown;
    internal_cpu = icpu;
    blocks = g.found_blocks;
    workers = shown;
  }

  -- The activity of workers and the report, at `now` and `now_secs`, of one instance or of all.
  unfoldable pub get_stats_json_filtered :
      Text
      → ℕ
      → ℕ
      → HashMap Text ℕ
      → Option Text
      → List (MetricFamily x.Float)
      → HashMap Text ℕ × StatsResponse x.Float
  unfolding filter_metric_families_for_instance internal_cpu_of sum_prometheus_counter_family
  get_stats_json_filtered mining_address now now_secs activity instance_id all_families =
      let families = families_for instance_id all_families in
      let g = gather_workers families (nothing_gathered {x = x}) in
      let icpu = internal_cpu_of mining_address all_families in
      let (activity', shown) = report_workers g now now_secs activity in
      (activity', fold_internal icpu (response_of g shown families icpu))
