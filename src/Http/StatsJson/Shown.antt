-- ===== src/Http/StatsJson/Shown.antt =====
-- bridge/src/prom/http/stats_json/aggregate.rs, after the loop over the families: balances and errors
-- are joined to the workers by the parts of their keys, and the workers that are active are shown.
-- Instants are in nanoseconds; the activity of workers is passed on as state.
pub mod Keys
pub mod Active
use rusty_kaspa_stratum.Shared.{
  ℕ, ◌+◌, ◌-◌, ◌*◌, ◌/◌, Bool, true, false, ◌&&◌, Option, none, some, List, [], ◌∷◌, ◌++◌, Text,
  codes, if◌then◌else◌, leb, ltb, is_empty, HashMap, get, insert, remove, text_key, ◌==◌,
}
use rusty_kaspa_stratum.External.{External}
use rusty_kaspa_stratum.Http.StatsJson.{WorkerInfo, wallet_key}
use rusty_kaspa_stratum.Http.StatsJson.Workers.{Gathered}

-- What stands before the first ':' and, if there is one, after it.
abbrev pub cons_before : ℕ → Text × Option Text → Text × Option Text
cons_before c (before, after) = (c ∷ before, after)

unfoldable pub split_colon : Text → Text × Option Text
split_colon [] = ([], none)
split_colon (c ∷ s) =
    let rest = split_colon s in if c == b':' then ([], some s) else cons_before c rest

abbrev pub after_name : Option Text → Text
after_name none = []
after_name (some wallet) = wallet

abbrev pub after_instance : Option Text → Text
after_instance none = []
after_instance (some s) = after_name (split_colon s).1

-- key.splitn(3, ':'): the instance and the wallet
unfoldable pub key_parts : Text → Text × Text
key_parts key = ((split_colon key).0, after_instance (split_colon key).1)

-- WORKER_INACTIVITY_TIMEOUT, WORKER_IDLE_THRESHOLD
abbrev pub worker_inactivity_timeout : ℕ
worker_inactivity_timeout = 300 * 1000000000

abbrev pub worker_idle_threshold : ℕ
worker_idle_threshold = 60 * 1000000000

module _ {F : Type 0} where
  abbrev pub with_balance : Option F → WorkerInfo F → WorkerInfo F
  with_balance none w = w
  with_balance (some balance) w = record w { balance_kas = some balance }

  abbrev pub with_errors : Option ℕ → WorkerInfo F → WorkerInfo F
  with_errors none w = w
  with_errors (some errors) w = record w { errors = errors }

  -- A worker that is shown, and how.
  abbrev pub seen : ℕ → Text → WorkerInfo F → WorkerInfo F
  seen last_seen status w = record w { last_seen = some last_seen; status = some status }

module _ {x : External} where
  unfoldable pub join_wallet : Gathered x → Text → WorkerInfo x.Float → WorkerInfo x.Float
  join_wallet g key w =
      let (id, wallet) = key_parts key in
      let iw = wallet_key id wallet in
      if is_empty wallet
      then w
      else with_errors (get iw g.errors_by_instance_wallet)
          (with_balance (get iw g.balance_by_instance_wallet) w)

module _ (x : External) where
  abbrev pub with_difficulty : Option x.Float → WorkerInfo x.Float → WorkerInfo x.Float
  with_difficulty none w = w
  with_difficulty (some d) w =
      if x.positive d then record w { current_difficulty_of = some d } else w

  abbrev pub with_uptime : ℕ → Option x.Float → WorkerInfo x.Float → WorkerInfo x.Float
  with_uptime now_secs none w = w
  with_uptime now_secs (some start) w =
      if x.positive start
      then record w { session_uptime = some (now_secs - x.trunc_u64 start) }
      else w

module _ {F : Type 0} where
  abbrev pub on_last_activity :
      ℕ → ℕ → Text → HashMap Text ℕ → ℕ → WorkerInfo F → HashMap Text ℕ × Option (WorkerInfo F)
  on_last_activity now now_secs key activity last w =
      let duration = now - last in
      let last_seen = now_secs - duration / 1000000000 in
      let status = if leb duration worker_idle_threshold then codes "online" else codes "idle" in
      if leb last now
      then if leb duration worker_inactivity_timeout
        then (activity, some (seen last_seen status w))
        else (remove key activity, none)
      else (insert key now activity, some (seen now_secs (codes "online") w))

  abbrev pub on_start_time :
      ℕ
      → ℕ
      → Text
      → HashMap Text ℕ
      → Option ℕ
      → WorkerInfo F
      → HashMap Text ℕ × Option (WorkerInfo F)
  on_start_time now now_secs key activity none w = (activity, none)
  on_start_time now now_secs key activity (some start) w =
      if ltb (now_secs - start) 60 && ltb 0 w.shares
      then (insert key now activity, some (seen now_secs (codes "online") w))
      else (activity, none)

  -- Whether a worker is shown, by its last activity or, without one, by its start.
  unfoldable pub show_worker :
      ℕ
      → ℕ
      → Text
      → HashMap Text ℕ
      → Option ℕ
      → Option ℕ
      → WorkerInfo F
      → HashMap Text ℕ × Option (WorkerInfo F)
  show_worker now now_secs key activity (some last) start w =
      on_last_activity now now_secs key activity last w
  show_worker now now_secs key activity none start w =
      on_start_time now now_secs key activity start w

  abbrev pub push_shown : Option (WorkerInfo F) → List (WorkerInfo F) → List (WorkerInfo F)
  push_shown none workers = workers
  push_shown (some w) workers = w ∷ workers

abbrev pub start_secs : (x : External) → Option x.Float → Option ℕ
start_secs x none = none
start_secs x (some start) = some (x.trunc_u64 start)

module _ {x : External} where
  -- A worker with all that is known of it.
  unfoldable pub show_entry :
      Gathered x
      → ℕ
      → ℕ
      → Text
      → WorkerInfo x.Float
      → HashMap Text ℕ
      → HashMap Text ℕ × Option (WorkerInfo x.Float)
  unfolding show_worker join_wallet
  show_entry g now now_secs key w activity =
      let start = get key g.worker_start_times in
      let joined = join_wallet g key w in
      let with_d = with_difficulty x (get key g.worker_difficulties) joined in
      let complete = with_uptime x now_secs start with_d in
      show_worker now now_secs key activity (get key activity) (start_secs x start) complete

  -- The loop that collects `active_workers`.
  unfoldable pub active_workers :
      Gathered x
      → ℕ
      → ℕ
      → HashMap Text (WorkerInfo x.Float)
      → HashMap Text ℕ
      → HashMap Text ℕ × List (WorkerInfo x.Float)
  unfolding show_entry
  active_workers g now now_secs [] activity = (activity, [])
  active_workers g now now_secs ((key, w) ∷ rest) activity =
      let (activity', shown) = show_entry g now now_secs key w activity in
      let (last, workers) = active_workers g now now_secs rest activity' in
      (last, push_shown shown workers)

  -- The workers of the report: those of the families that have been active. The join of balances and
  -- errors is a loop of its own in the source; it changes the entries one by one.
  unfoldable pub report_workers :
      Gathered x → ℕ → ℕ → HashMap Text ℕ → HashMap Text ℕ × List (WorkerInfo x.Float)
  unfolding active_workers
  report_workers g now now_secs activity = active_workers g now now_secs g.worker_stats activity
