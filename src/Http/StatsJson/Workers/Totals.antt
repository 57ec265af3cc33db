-- ===== src/Http/StatsJson/Workers/Totals.antt =====
-- The total of shares after the loop over the families.
use rusty_kaspa_stratum.Shared.{
  ◌≤◌, ◌<◌, ◌≡◌, refl, Option, none, some, List, [], ◌∷◌, Text, codes, arith, get, text_key,
  is_empty, Bool-cases, inl, inr, contains, ◌||◌,
}
use rusty_kaspa_stratum.External.{External}
use rusty_kaspa_stratum.Http.StatsJson.{
  LabelPair, Sample, MetricFamily, Family, mined_blocks, blocks_mined, share_diff, valid_share,
  invalid_share, worker_disconnect, worker_job, accepted_by_node, not_confirmed_blue,
  balance_by_wallet, worker_errors, start_time, current_difficulty, family_names, label_of,
  worker_map_key, parse_worker_labels, parse_instance_wallet_labels,
}
use rusty_kaspa_stratum.Http.StatsJson.Workers.{
  Gathered, nothing_gathered, count, block_info, push_block, on_block, count_for, note_for,
  on_worker_key, on_worker, on_balance, on_errors, on_metric, on_metrics, on_family, gather_workers,
}
use rusty_kaspa_stratum.Http.StatsJson.Workers.Sums.{
  u64_max, sum_shares, add_invalid-shares, Agrees, Neutral, Neutral-Agrees, share-Agrees,
}

module _ {x : External} where
  note_difficulty-total_shares :
      (key : Text) (v : x.Float) (g : Gathered x)
      → (note_for current_difficulty key v g).total_shares ≡ g.total_shares
  unfolding note_for
  note_difficulty-total_shares key v g = ground arith

  on_worker_key-Agrees :
      (family : Family) (key : Text) (parts : Text × Text × Text) (metric : Sample x.Float)
      (g : Gathered x)
      → Agrees g
      → Agrees (on_worker_key family key parts metric g)
  unfolding Neutral count_for note_for
  on_worker_key-Agrees valid_share key parts metric g valid = share-Agrees key parts metric g valid
  on_worker_key-Agrees invalid_share key parts metric g valid =
      Neutral-Agrees invalid_share key parts metric g
        (
          λ labels v w. add_invalid-shares (label_of (codes "type") labels []) (count x v) w,
          λ k v h. refl,
        )
        valid
  on_worker_key-Agrees current_difficulty key parts metric g valid =
      Neutral-Agrees current_difficulty key parts metric g
        (λ labels v w. refl, note_difficulty-total_shares) valid
  on_worker_key-Agrees mined_blocks key parts metric g valid =
      Neutral-Agrees mined_blocks key parts metric g (λ labels v w. refl, λ k v h. refl) valid
  on_worker_key-Agrees blocks_mined key parts metric g valid =
      Neutral-Agrees blocks_mined key parts metric g (λ labels v w. refl, λ k v h. refl) valid
  on_worker_key-Agrees share_diff key parts metric g valid =
      Neutral-Agrees share_diff key parts metric g (λ labels v w. refl, λ k v h. refl) valid
  on_worker_key-Agrees worker_disconnect key parts metric g valid =
      Neutral-Agrees worker_disconnect key parts metric g (λ labels v w. refl, λ k v h. refl) valid
  on_worker_key-Agrees worker_job key parts metric g valid =
      Neutral-Agrees worker_job key parts metric g (λ labels v w. refl, λ k v h. refl) valid
  on_worker_key-Agrees accepted_by_node key parts metric g valid =
      Neutral-Agrees accepted_by_node key parts metric g (λ labels v w. refl, λ k v h. refl) valid
  on_worker_key-Agrees not_confirmed_blue key parts metric g valid =
      Neutral-Agrees not_confirmed_blue key parts metric g (λ labels v w. refl, λ k v h. refl) valid
  on_worker_key-Agrees balance_by_wallet key parts metric g valid =
      Neutral-Agrees balance_by_wallet key parts metric g (λ labels v w. refl, λ k v h. refl) valid
  on_worker_key-Agrees worker_errors key parts metric g valid =
      Neutral-Agrees worker_errors key parts metric g (λ labels v w. refl, λ k v h. refl) valid
  on_worker_key-Agrees start_time key parts metric g valid =
      Neutral-Agrees start_time key parts metric g (λ labels v w. refl, λ k v h. refl) valid

  on_worker-Agrees :
      (family : Family) (metric : Sample x.Float) (g : Gathered x)
      → Agrees g
      → Agrees (on_worker family metric g)
  unfolding on_worker
  on_worker-Agrees family metric g valid =
      let parts = parse_worker_labels metric.labels in
      elim (Bool-cases (is_empty parts.1)) [
        | inl e ↦ simp e valid
        | inr e ↦ simp e (
            on_worker_key-Agrees family (worker_map_key parts.0 parts.1 parts.2) parts metric g
              valid)
      ]

  push_block-Agrees :
      (labels : List LabelPair) (g : Gathered x)
      → Agrees g
      → Agrees (push_block (block_info labels) g)
  unfolding Agrees
  push_block-Agrees labels g valid =
      let hash = (block_info labels).hash in
      elim (Bool-cases (is_empty hash || contains g.block_set hash)) [
        | inl e ↦ simp e valid
        | inr e ↦ simp e valid
      ]

  on_block-Agrees :
      (metric : Sample x.Float) (g : Gathered x) → Agrees g → Agrees (on_block metric g)
  unfolding on_block
  on_block-Agrees metric g valid = elim (Bool-cases (x.positive metric.value)) [
    | inl e ↦ simp e (push_block-Agrees metric.labels g valid)
    | inr e ↦ simp e valid
  ]

  on_balance-Agrees :
      (metric : Sample x.Float) (g : Gathered x) → Agrees g → Agrees (on_balance metric g)
  unfolding on_balance Agrees
  on_balance-Agrees metric g valid =
      elim (Bool-cases (is_empty (parse_instance_wallet_labels metric.labels).1)) [
        | inl e ↦ simp e valid
        | inr e ↦ simp e valid
      ]

  on_errors-Agrees :
      (metric : Sample x.Float) (g : Gathered x) → Agrees g → Agrees (on_errors metric g)
  unfolding on_errors Agrees
  on_errors-Agrees metric g valid =
      elim (Bool-cases (is_empty (parse_instance_wallet_labels metric.labels).1)) [
        | inl e ↦ simp e valid
        | inr e ↦ simp e valid
      ]

  on_metric-Agrees :
      (family : Family) (metric : Sample x.Float) (g : Gathered x)
      → Agrees g
      → Agrees (on_metric family metric g)
  unfolding on_metric
  on_metric-Agrees mined_blocks metric g valid = on_block-Agrees metric g valid
  on_metric-Agrees balance_by_wallet metric g valid = on_balance-Agrees metric g valid
  on_metric-Agrees worker_errors metric g valid = on_errors-Agrees metric g valid
  on_metric-Agrees blocks_mined metric g valid = on_worker-Agrees blocks_mined metric g valid
  on_metric-Agrees share_diff metric g valid = on_worker-Agrees share_diff metric g valid
  on_metric-Agrees valid_share metric g valid = on_worker-Agrees valid_share metric g valid
  on_metric-Agrees invalid_share metric g valid = on_worker-Agrees invalid_share metric g valid
  on_metric-Agrees worker_disconnect metric g valid =
      on_worker-Agrees worker_disconnect metric g valid
  on_metric-Agrees worker_job metric g valid = on_worker-Agrees worker_job metric g valid
  on_metric-Agrees accepted_by_node metric g valid =
      on_worker-Agrees accepted_by_node metric g valid
  on_metric-Agrees not_confirmed_blue metric g valid =
      on_worker-Agrees not_confirmed_blue metric g valid
  on_metric-Agrees start_time metric g valid = on_worker-Agrees start_time metric g valid
  on_metric-Agrees current_difficulty metric g valid =
      on_worker-Agrees current_difficulty metric g valid

  on_metrics-Agrees :
      (family : Family) (metrics : List (Sample x.Float)) (g : Gathered x)
      → Agrees g
      → Agrees (on_metrics family metrics g)
  unfolding on_metrics
  on_metrics-Agrees family [] g valid = valid
  on_metrics-Agrees family (metric ∷ metrics) g valid =
      on_metrics-Agrees family metrics (on_metric family metric g)
        (on_metric-Agrees family metric g valid)

  on_family-Agrees :
      (family : Option Family) (metrics : List (Sample x.Float)) (g : Gathered x)
      → Agrees g
      → Agrees (on_family family metrics g)
  on_family-Agrees none metrics g valid = valid
  on_family-Agrees (some family) metrics g valid = on_metrics-Agrees family metrics g valid

  from-Agrees :
      (families : List (MetricFamily x.Float)) (g : Gathered x)
      → Agrees g
      → Agrees (gather_workers families g)
  unfolding gather_workers
  from-Agrees [] g valid = valid
  from-Agrees (family ∷ families) g valid =
      from-Agrees families (on_family (get family.family_name family_names) family.samples g)
        (on_family-Agrees (get family.family_name family_names) family.samples g valid)

-- Whatever the registry holds: the total of shares that the loop gathers is the sum of the shares of
-- the workers that it gathers, as long as it is below the greatest `u64`.
pub gather_workers-total_shares :
    (x : External) (families : List (MetricFamily x.Float))
    → (gather_workers families (nothing_gathered {x = x})).total_shares < u64_max
    → sum_shares (gather_workers families (nothing_gathered {x = x})).worker_stats
      ≡ (gather_workers families (nothing_gathered {x = x})).total_shares
unfolding Agrees sum_shares
gather_workers-total_shares x families below =
    (from-Agrees families nothing_gathered (omega arith, λ h. refl)).1 below

pub gather_workers-total_shares_bounded :
    (x : External) (families : List (MetricFamily x.Float))
    → (gather_workers families (nothing_gathered {x = x})).total_shares ≤ u64_max
unfolding Agrees sum_shares
gather_workers-total_shares_bounded x families =
    (from-Agrees families nothing_gathered (omega arith, λ h. refl)).0
