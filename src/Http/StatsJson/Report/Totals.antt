-- ===== src/Http/StatsJson/Report/Totals.antt =====
-- The total of shares in the report, the workers in it, and those that are left out.
use rusty_kaspa_stratum.Shared.{
  ℕ, ◌+◌, ◌-◌, ◌≤◌, ◌<◌, ◌≡◌, refl, Option, none, some, List, [], ◌∷◌, Text, arith, HashMap, get,
  text_key, is_empty, Bool-cases, inl, inr, leb, ltb, ◌&&◌,
}
use rusty_kaspa_stratum.External.{External}
use rusty_kaspa_stratum.Http.StatsJson.{MetricFamily, WorkerInfo, saturating_add}
use rusty_kaspa_stratum.Http.StatsJson.Workers.{Gathered, nothing_gathered, gather_workers}
use rusty_kaspa_stratum.Http.StatsJson.Workers.Sums.{u64_max, sum_shares}
use rusty_kaspa_stratum.Http.StatsJson.Workers.Totals.{
  gather_workers-total_shares, gather_workers-total_shares_bounded,
}
use rusty_kaspa_stratum.Http.StatsJson.Shown.{
  key_parts, join_wallet, with_balance, with_errors, with_difficulty, with_uptime, show_worker,
  show_entry, push_shown, active_workers, report_workers, worker_inactivity_timeout, start_secs,
}
use rusty_kaspa_stratum.Http.StatsJson.Report.{
  InternalCpuStats, StatsResponse, families_for, fold_internal, response_of, internal_cpu_of,
  get_stats_json_filtered,
}

module _ {F : Type 0} where
  unfoldable pub sum_shown : List (WorkerInfo F) → ℕ
  sum_shown [] = 0
  sum_shown (w ∷ rest) = w.shares + sum_shown rest

  abbrev shown_shares : Option (WorkerInfo F) → ℕ
  shown_shares none = 0
  shown_shares (some w) = w.shares

  -- What the internal miner adds.
  abbrev pub accepted_of : Option (InternalCpuStats F) → ℕ
  accepted_of none = 0
  accepted_of (some icpu) = icpu.blocks_accepted

  with_errors-shares :
      (errors : Option ℕ) (balance : Option F) (w : WorkerInfo F)
      → (with_errors errors (with_balance balance w)).shares ≡ w.shares
  with_errors-shares none none w = refl
  with_errors-shares none (some b) w = refl
  with_errors-shares (some e) none w = refl
  with_errors-shares (some e) (some b) w = refl

  show_worker-shares :
      (now now_secs : ℕ) (key : Text) (activity : HashMap Text ℕ) (last start : Option ℕ)
      (w : WorkerInfo F)
      → shown_shares (show_worker now now_secs key activity last start w).1 ≤ w.shares
  unfolding show_worker
  show_worker-shares now now_secs key activity none none w = omega arith
  show_worker-shares now now_secs key activity none (some start) w =
      elim (Bool-cases (ltb (now_secs - start) 60 && ltb 0 w.shares)) [
        | inl e ↦ rw e (omega arith)
        | inr e ↦ rw e (omega arith)
      ]
  show_worker-shares now now_secs key activity (some last) start w =
      elim (Bool-cases (leb last now)) [
        | inr e ↦ rw e (omega arith)
        | inl e ↦ elim (Bool-cases (leb (now - last) worker_inactivity_timeout)) [
          | inl d ↦ rw (e, d) (omega arith)
          | inr d ↦ rw (e, d) (omega arith)
        ]
      ]

  sum_shown-push_shown :
      (o : Option (WorkerInfo F)) (l : List (WorkerInfo F))
      → sum_shown (push_shown o l) ≡ shown_shares o + sum_shown l
  unfolding sum_shown
  sum_shown-push_shown none l = omega arith
  sum_shown-push_shown (some w) l = refl

module _ {x : External} (g : Gathered x) where
  join_wallet-shares :
      (key : Text) (w : WorkerInfo x.Float) → (join_wallet g key w).shares ≡ w.shares
  unfolding join_wallet
  join_wallet-shares key w = elim (Bool-cases (is_empty (key_parts key).1)) [
    | inl e ↦ simp e refl
    | inr e ↦ simp e (
        with_errors-shares (get _ g.errors_by_instance_wallet) (get _ g.balance_by_instance_wallet)
          w)
  ]

  with_difficulty-shares :
      (d : Option x.Float) (w : WorkerInfo x.Float) → (with_difficulty x d w).shares ≡ w.shares
  with_difficulty-shares none w = refl
  with_difficulty-shares (some d) w = elim (Bool-cases (x.positive d)) [
    | inl e ↦ simp e refl
    | inr e ↦ simp e refl
  ]

  with_uptime-shares :
      (now_secs : ℕ) (start : Option x.Float) (w : WorkerInfo x.Float)
      → (with_uptime x now_secs start w).shares ≡ w.shares
  with_uptime-shares now_secs none w = refl
  with_uptime-shares now_secs (some start) w = elim (Bool-cases (x.positive start)) [
    | inl e ↦ simp e refl
    | inr e ↦ simp e refl
  ]

  show_entry-shares :
      (now now_secs : ℕ) (key : Text) (w : WorkerInfo x.Float) (activity : HashMap Text ℕ)
      → shown_shares (show_entry g now now_secs key w activity).1 ≤ w.shares
  unfolding show_entry
  show_entry-shares now now_secs key w activity =
      let start = get key g.worker_start_times in
      let joined = join_wallet g key w in
      let with_d = with_difficulty x (get key g.worker_difficulties) joined in
      omega (
        arith,
        show_worker-shares now now_secs key activity (get key activity) (start_secs x start)
            (with_uptime x now_secs start with_d),
        with_uptime-shares now_secs start with_d,
        with_difficulty-shares (get key g.worker_difficulties) joined,
        join_wallet-shares key w,
      )

  active_workers-shares :
      (now now_secs : ℕ) (workers : HashMap Text (WorkerInfo x.Float)) (activity : HashMap Text ℕ)
      → sum_shown (active_workers g now now_secs workers activity).1 ≤ sum_shares workers
  unfolding active_workers sum_shares sum_shown
  active_workers-shares now now_secs [] activity = omega arith
  active_workers-shares now now_secs ((key, w) ∷ rest) activity =
      let first = show_entry g now now_secs key w activity in
      omega (
        arith,
        sum_shown-push_shown first.1 (active_workers g now now_secs rest first.0).1,
        show_entry-shares now now_secs key w activity,
        active_workers-shares now now_secs rest first.0,
      )

module _ (x : External) where
  fold_internal-total :
      (icpu : Option (InternalCpuStats x.Float)) (r : StatsResponse x.Float)
      → r.total_shares ≤ u64_max
      → (fold_internal x icpu r).total_shares < u64_max
      → (fold_internal x icpu r).total_shares ≡ r.total_shares + accepted_of icpu
  unfolding saturating_add
  fold_internal-total none r bounded below = omega arith
  fold_internal-total (some icpu) r bounded below = ground (arith, below)

  fold_internal-workers :
      (icpu : Option (InternalCpuStats x.Float)) (r : StatsResponse x.Float)
      → ((fold_internal x icpu r).workers ≡ r.workers)
        × ((fold_internal x icpu r).internal_cpu ≡ r.internal_cpu)
  fold_internal-workers none r = (refl, refl)
  fold_internal-workers (some icpu) r = (refl, refl)

  -- The total of shares that the report shows, as long as it is below the greatest `u64`: the shares
  -- of all workers that have metrics, shown or not, and the blocks of the internal miner that were
  -- accepted. So the workers that are shown and the internal miner never have more shares than it.
  pub get_stats_json_filtered-total_shares :
      (mining_address : Text) (now now_secs : ℕ) (activity : HashMap Text ℕ)
      (instance_id : Option Text) (all_families : List (MetricFamily x.Float))
      → (get_stats_json_filtered x mining_address now now_secs activity instance_id
          all_families).1.total_shares
        < u64_max
      → (let r =
            (get_stats_json_filtered x mining_address now now_secs activity instance_id
              all_families).1 in
          let g =
            gather_workers (families_for instance_id all_families) (nothing_gathered {x = x}) in
          (r.total_shares ≡ sum_shares g.worker_stats + accepted_of r.internal_cpu)
          × (sum_shown r.workers + accepted_of r.internal_cpu ≤ r.total_shares))
  unfolding get_stats_json_filtered report_workers
  get_stats_json_filtered-total_shares mining_address now now_secs activity instance_id all_families
        below =
      let families = families_for instance_id all_families in
      let g = gather_workers families (nothing_gathered {x = x}) in
      let icpu = internal_cpu_of x mining_address all_families in
      let shown = (report_workers g now now_secs activity).1 in
      let r = response_of x g shown families icpu in
      let whole =
        fold_internal-total icpu r (gather_workers-total_shares_bounded x families) below in
      let same = fold_internal-workers icpu r in
      let summed = gather_workers-total_shares x families (omega (arith, whole, below)) in
      let fewer = active_workers-shares g now now_secs g.worker_stats activity in
      rw (same.0, same.1) (omega (arith, whole, summed), omega (arith, whole, summed, fewer))
