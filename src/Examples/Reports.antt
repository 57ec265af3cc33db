-- ===== src/Examples/Reports.antt =====
-- The listener from start to end, and the report of the dashboard.
use rusty_kaspa_stratum.Shared.{
  HashMap, ◌+◌, ℕ, ◌≤◌, ◌<◌, ◌-◌, ◌≡◌, refl, Bool, true, false, Option, none, some, List, [], ◌∷◌,
  ◌++◌, Text, codes, arith, Result, ok, err, all, length, contains_key, text_key, nat_eq,
}
use rusty_kaspa_stratum.Shared
use rusty_kaspa_stratum.Config.Ports
use rusty_kaspa_stratum.Stratum.Listener.Accept
use rusty_kaspa_stratum.Http.StatsJson
use rusty_kaspa_stratum.Http.StatsJson.Workers
use rusty_kaspa_stratum.Http.StatsJson.Shown
use rusty_kaspa_stratum.Stratum.Listener.Accept.{
  changed, accepted, accept_failed, flagged, received, Accepting, new_handler, starting,
  listen_impl, accept_turn, removal_turn, disconnect_at, after_listen,
}
use rusty_kaspa_stratum.Stratum.Listener.Accept.Runs.{
  Reach, here, next, accepts, removes, disconnects, listen_impl-contains_key,
}
use rusty_kaspa_stratum.Stratum.Listener.Accept.Ends.{after_listen-disconnecting}
use rusty_kaspa_stratum.Http.StatsJson.{LabelPair, Sample, MetricFamily, worker_map_key}
use rusty_kaspa_stratum.Http.StatsJson.Workers.{Gathered, nothing_gathered, gather_workers}
use rusty_kaspa_stratum.Http.StatsJson.Workers.Sums.{sum_shares}
use rusty_kaspa_stratum.Http.StatsJson.Report
use rusty_kaspa_stratum.Http.StatsJson.Report.{StatsResponse, families_for, get_stats_json_filtered}
use rusty_kaspa_stratum.Http.StatsJson.Report.Totals.{
  sum_shown, accepted_of, get_stats_json_filtered-total_shares,
}
use rusty_kaspa_stratum.Http.StatsJson.Shown.{key_parts, report_workers}
use rusty_kaspa_stratum.Http.StatsJson.Shown.Keys.{key_parts-worker_map_key}
use rusty_kaspa_stratum.Http.StatsJson.Shown.Active.{IsRecent, report_workers-IsRecent}
use rusty_kaspa_stratum.Examples.World.{world}

abbrev bind : Text → Result Text (Unit {0})
bind addr = ok tt

-- Two miners connect, the second is disconnected, the task that removes clients wakes, and a shutdown
-- is seen.
abbrev two_connected : Accepting world
two_connected =
    accept_turn (accepted 7001 (λ n. true) 5)
      (accept_turn (accepted 7000 (λ n. true) 0) (starting new_handler))

abbrev shut_down : Accepting world
shut_down = accept_turn (changed true) (removal_turn received (disconnect_at 1 two_connected))

two_miners : Reach {x = world} (starting new_handler) shut_down
two_miners =
    next
      (next
        (next
          (next (next here (accepts (accepted 7000 (λ n. true) 0)))
            (accepts (accepted 7001 (λ n. true) 5)))
          (disconnects 1))
        (removes received))
      (accepts (changed true))

listen_impl-contains_key_example :
    (shut_down.disconnects ≡ 0)
    × ((id : ℕ)
        → id < length shut_down.contexts
        → contains_key id shut_down.client_handler.clients ≡ true)
unfolding listen_impl
listen_impl-contains_key_example = listen_impl-contains_key bind (codes "5555") refl two_miners

after_listen-disconnecting_example :
    (all (λ ctx. ctx.disconnecting) (after_listen shut_down).contexts ≡ true)
    × ((after_listen shut_down).client_handler.clients ≡ [])
unfolding listen_impl
after_listen-disconnecting_example = after_listen-disconnecting bind (codes "5555") refl two_miners

shut_down_test : length shut_down.contexts ≡ 2
unfolding accept_turn removal_turn disconnect_at Accept.update_at
shut_down_test = refl

listen_impl_test :
    listen_impl (λ addr. err addr) (codes "5555") (new_handler {x = world})
    ≡ err (codes "failed listening to socket 5555: 0.0.0.0:5555")
unfolding listen_impl Ports.bind_addr_from_port Ports.normalize_port Shared.trim
    Shared.trim_start_matches Shared.trim_end_matches Shared.trim_matches Shared.starts_with
    Shared.strip_prefix
listen_impl_test = refl

abbrev label : Text → Text → LabelPair
label name value = record { label_name = name; label_value = value }

abbrev labels_of : Text → List LabelPair
labels_of worker =
    label (codes "worker") worker
    ∷ label (codes "wallet") (codes "kaspa:q")
    ∷ label (codes "instance") (codes "one")
    ∷ []

abbrev shares_family : MetricFamily ℕ
shares_family = record {
  family_name = codes "ks_valid_share_counter";
  samples =
      record { labels = labels_of (codes "rig"); value = 3 }
      ∷ record { labels = labels_of (codes "asic-1"); value = 4 }
      ∷ record { labels = labels_of (codes "rig"); value = 5 }
      ∷ [];
}

abbrev gathered : Gathered world
gathered = gather_workers (shares_family ∷ []) nothing_gathered

-- The internal miner has three accepted blocks; of the two workers only the rig is active.
abbrev internal_family : MetricFamily ℕ
internal_family = record {
  family_name = codes "ks_internal_cpu_blocks_accepted_total";
  samples = record { labels = []; value = 3 } ∷ [];
}

abbrev all_families : List (MetricFamily ℕ)
all_families = internal_family ∷ shares_family ∷ []

abbrev activity : HashMap Text ℕ
activity = (codes "one:rig:kaspa:q", 880000000000) ∷ []

abbrev reported : StatsResponse ℕ
reported =
    (get_stats_json_filtered world [] 900000000000 1700000000 activity (some (codes "one"))
      all_families).1

get_stats_json_filtered-total_shares_example :
    (reported.total_shares
      ≡ sum_shares
          (gather_workers
            (families_for (some (codes "one")) all_families)
            (nothing_gathered {x = world})).worker_stats
        + accepted_of reported.internal_cpu)
    × (sum_shown reported.workers + accepted_of reported.internal_cpu ≤ reported.total_shares)
unfolding gather_workers Workers.on_metrics Workers.on_metric Workers.on_worker Workers.count_for
    Workers.note_for Workers.entry StatsJson.saturating_add StatsJson.label_of
    StatsJson.new_worker_info worker_map_key StatsJson.parse_worker_labels Shared.get Shared.insert
    get_stats_json_filtered Report.any Report.retain_instance
    Report.filter_metric_families_for_instance Report.value_of Report.sum_samples
    Report.sum_prometheus_counter_family Report.internal_cpu_of report_workers Shown.active_workers
    Shown.show_entry Shown.show_worker Shown.join_wallet Shown.split_colon key_parts
    StatsJson.parse_instance_wallet_labels StatsJson.wallet_key sum_shown
get_stats_json_filtered-total_shares_example =
    get_stats_json_filtered-total_shares world [] 900000000000 1700000000 activity
      (some (codes "one")) all_families (omega arith)

reported_test :
    (reported.total_shares ≡ 15) × (reported.active_workers ≡ 2) × (sum_shown reported.workers ≡ 8)
unfolding gather_workers Workers.on_metrics Workers.on_metric Workers.on_worker Workers.count_for
    Workers.note_for Workers.entry StatsJson.saturating_add StatsJson.label_of
    StatsJson.new_worker_info worker_map_key StatsJson.parse_worker_labels Shared.get Shared.insert
    get_stats_json_filtered Report.any Report.retain_instance
    Report.filter_metric_families_for_instance Report.value_of Report.sum_samples
    Report.sum_prometheus_counter_family Report.internal_cpu_of report_workers Shown.active_workers
    Shown.show_entry Shown.show_worker Shown.join_wallet Shown.split_colon key_parts
    StatsJson.parse_instance_wallet_labels StatsJson.wallet_key sum_shown
reported_test = (refl, refl, refl)

total_shares_test : gathered.total_shares ≡ 12
unfolding gather_workers Workers.on_metrics Workers.on_metric Workers.on_worker Workers.count_for
    Workers.note_for Workers.entry StatsJson.saturating_add StatsJson.label_of
    StatsJson.new_worker_info worker_map_key StatsJson.parse_worker_labels Shared.get Shared.insert
total_shares_test = refl

key_parts-worker_map_key_example :
    key_parts (worker_map_key (codes "one") (codes "rig") (codes "kaspa:q"))
    ≡ (codes "one", codes "kaspa:q")
key_parts-worker_map_key_example =
    key_parts-worker_map_key (codes "one") (codes "rig") (codes "kaspa:q") refl refl

-- A colon in the name of a worker is taken for the one before the wallet.
key_parts_colon_test :
    key_parts (worker_map_key (codes "one") (codes "rig:2") (codes "kaspa:q"))
    ≡ (codes "one", codes "2:kaspa:q")
unfolding key_parts worker_map_key Shown.split_colon
key_parts_colon_test = refl

-- The rig was last seen ten minutes ago.
report_workers-IsRecent_example :
    IsRecent 900000000000
      (worker_map_key (codes "one") (codes "rig") (codes "kaspa:q"))
      (report_workers gathered 900000000000 1700000000
        ((worker_map_key (codes "one") (codes "rig") (codes "kaspa:q"), 300000000000) ∷ [])).0
unfolding gather_workers Workers.on_metrics Workers.on_metric Workers.on_worker Workers.count_for
    Workers.note_for Workers.entry StatsJson.saturating_add StatsJson.label_of
    StatsJson.new_worker_info worker_map_key StatsJson.parse_worker_labels Shared.get Shared.insert
report_workers-IsRecent_example =
    report_workers-IsRecent gathered 900000000000 1700000000
      (worker_map_key (codes "one") (codes "rig") (codes "kaspa:q"))
      ((worker_map_key (codes "one") (codes "rig") (codes "kaspa:q"), 300000000000) ∷ []) refl
