-- ===== src/Shares/Lifecycle.antt =====
-- bridge/src/share_handler/lifecycle.rs: the statistics of workers between submissions. A turn of a
-- thread that runs at intervals is a function on the map of workers. Times count nanoseconds, and
-- `duration_since` stops at 0.
pub mod Workers
use rusty_kaspa_stratum.Shared.{
  ℕ, ◌+◌, ◌-◌, ◌*◌, Bool, true, false, Option, none, some, List, [], ◌∷◌, map, if◌then◌else◌, ltb,
  ◌&&◌, ◌||◌, Text, HashMap, get, insert, text_key, ◌>>=◌, ◌>>◌, pure, gets, modify, unwrap_or,
}
use rusty_kaspa_stratum.External.{External}
use rusty_kaspa_stratum.Mining.State.{KaspaDiff}
use rusty_kaspa_stratum.Shares.Stats.{WorkStats}
use rusty_kaspa_stratum.Shares.Vardiff.{F64, vardiff_compute_next_diff}
use rusty_kaspa_stratum.Submit.Session.{Session, Run, worker_id, update_stats}

-- `Duration::from_secs`
abbrev pub from_secs : ℕ → ℕ
from_secs n = n * 1000000000

-- `retain` and the loop over `iter_mut` of a `HashMap`
abbrev pub retain {ℓ} : {K V : Type ℓ} → (V → Bool) → HashMap K V → HashMap K V
retain p [] = []
retain p ((k, v) ∷ m) = let rest = retain p m in if p v then (k, v) ∷ rest else rest

abbrev pub map_values {ℓ} : {K V : Type ℓ} → (V → V) → HashMap K V → HashMap K V
map_values f m = map (λ p. (p.0, f p.1)) m

abbrev pub diff_or : {F : Type 0} → F → Option (KaspaDiff F) → F
diff_or d none = d
diff_or d (some diff) = diff.diff_value

module _ {F : Type 0} where
  -- What the pruning thread keeps.
  unfoldable pub is_kept : ℕ → WorkStats F → Bool
  is_kept now v =
      (ltb 0 v.shares_found || ltb (now - v.start_time) (from_secs 180))
      && ltb (now - v.last_share) (from_secs 600)

  -- A tick of `start_prune_stats_thread_impl`
  unfoldable pub prune_stats : ℕ → HashMap Text (WorkStats F) → HashMap Text (WorkStats F)
  prune_stats now stats = retain (is_kept now) stats

  abbrev pub restarted : ℕ → F → WorkStats F → WorkStats F
  restarted now min_diff stats = record stats {
    min_diff = min_diff;
    var_diff_start_time = some now;
    var_diff_shares_found = 0;
    var_diff_window = 0;
  }

  -- The clock is started where it does not run.
  abbrev pub started : ℕ → Option ℕ → WorkStats F → WorkStats F
  started now none stats = record stats {
    var_diff_start_time = some now;
    var_diff_shares_found = 0;
  }
  started now (some t) stats = stats

  -- `as_secs_f64().max(0.0)` of a duration, and `as f64` of a number, are parameters.
  module _ (f : F64 F) (as_secs_f64 : ℕ → F) (as_f64 : ℕ → F) where
    abbrev pub retarget : ℕ → Option F → WorkStats F → WorkStats F
    retarget now none v = v
    retarget now (some next) v = record v {
      min_diff = next;
      var_diff_start_time = some now;
      var_diff_shares_found = 0;
      var_diff_window = 0;
    }

    abbrev pub tick_since : ℕ → F → Bool → Option ℕ → WorkStats F → WorkStats F
    tick_since now expected_spm clamp none v = v
    tick_since now expected_spm clamp (some start) v =
        retarget now
          (vardiff_compute_next_diff f v.min_diff (as_f64 v.var_diff_shares_found)
            (f.max (as_secs_f64 (now - start)) f.zero) expected_spm clamp)
          v

    -- One worker in a tick of `start_vardiff_thread_impl`
    unfoldable pub tick_worker : ℕ → F → Bool → WorkStats F → WorkStats F
    tick_worker now expected_spm clamp v = tick_since now expected_spm clamp v.var_diff_start_time v

    -- `expected_share_rate` is at least 1.
    unfoldable pub vardiff_tick :
        ℕ → ℕ → Bool → HashMap Text (WorkStats F) → HashMap Text (WorkStats F)
    unfolding tick_worker
    vardiff_tick now expected_share_rate clamp stats =
        let rate = if ltb expected_share_rate 1 then 1 else expected_share_rate in
        map_values (tick_worker now (as_f64 rate) clamp) stats

module _ {x : External} where
  -- `current_stratum_diff`
  abbrev pub current_stratum_diff : Session x → x.Float
  current_stratum_diff s = diff_or x.zero s.ctx.state.stratum_diff

module _ {x : External} {E : Type 0} where
  -- `get_stats_if_exists`: the name of the worker, and the entry under it.
  unfoldable pub get_stats_if_exists : Run x E (Text × Option (WorkStats x.Float))
  get_stats_if_exists = do key ← worker_id; gets (λ s. (key, get key s.stats))

  abbrev pub set_found : ℕ → x.Float → Text × Option (WorkStats x.Float) → Run x E x.Float
  set_found now min_diff (key, none) = gets current_stratum_diff
  set_found now min_diff (key, some stats) = do
    update_stats key (restarted now min_diff)
    pure stats.min_diff

  -- The difficulty before the call.
  unfoldable pub set_client_vardiff : ℕ → x.Float → Run x E x.Float
  set_client_vardiff now min_diff = get_stats_if_exists >>= set_found now min_diff

  abbrev pub get_found : Text × Option (WorkStats x.Float) → Run x E x.Float
  get_found (key, none) = gets current_stratum_diff
  get_found (key, some stats) = pure stats.min_diff

  unfoldable pub get_client_vardiff : Run x E x.Float
  get_client_vardiff = get_stats_if_exists >>= get_found

  abbrev pub start_found : ℕ → Text × Option (WorkStats x.Float) → Run x E (Unit {0})
  start_found now (key, none) = pure tt
  start_found now (key, some stats) = update_stats key (λ v. started now v.var_diff_start_time v)

  unfoldable pub start_client_vardiff : ℕ → Run x E (Unit {0})
  start_client_vardiff now = get_stats_if_exists >>= start_found now
