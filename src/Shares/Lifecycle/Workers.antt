-- ===== src/Shares/Lifecycle/Workers.antt =====
-- The workers in the map, after the threads that run at intervals and after the calls of job dispatch.
use rusty_kaspa_stratum.Shared.{
  ℕ, ◌≡◌, refl, sym, ap, ◌∙◌, Bool, false, Option, none, some, [], ◌∷◌, if◌then◌else◌, HashMap, get,
  IsMap, text_key, Text, arith, ok, get-insert_self, ltb,
}
use rusty_kaspa_stratum.External.{External}
use rusty_kaspa_stratum.Shares.Stats.{WorkStats}
use rusty_kaspa_stratum.Shares.Vardiff.{F64}
use rusty_kaspa_stratum.Shares.Vardiff.Bounds.{vardiff_compute_next_diff_bounded}
use rusty_kaspa_stratum.Shares.Lifecycle.{
  retain, map_values, is_kept, prune_stats, retarget, tick_since, tick_worker, vardiff_tick,
  get_stats_if_exists, set_client_vardiff, get_client_vardiff, diff_or, current_stratum_diff,
  restarted,
}
use rusty_kaspa_stratum.Stratum.Context.{
  StratumContext, ensure_default_worker_name, effective_worker_name,
}
use rusty_kaspa_stratum.Stratum.Context.Names.{effective_worker_name_twice}
use rusty_kaspa_stratum.Submit.Session.{Session, worker_id, update_stats}

abbrev pub kept : {V : Type 0} → (V → Bool) → Option V → Option V
kept p none = none
kept p (some v) = if p v then some v else none

abbrev pub changed : {V : Type 0} → (V → V) → Option V → Option V
changed f none = none
changed f (some v) = some (f v)

module _ {V : Type 0} where
  get-retain_absent :
      (p : V → Bool) (k : Text) (m : HashMap Text V) → get k m ≡ none → get k (retain p m) ≡ none
  unfolding get
  get-retain_absent p k [] h = refl
  get-retain_absent p k ((j, w) ∷ m) h =
      ground (arith, h, get-retain_absent p k m, text_key.beq_iff j k)

  get-retain :
      (p : V → Bool) (k : Text) (m : HashMap Text V)
      → IsMap m
      → get k (retain p m) ≡ kept p (get k m)
  unfolding get
  get-retain p k [] h = refl
  get-retain p k ((j, w) ∷ m) h =
      ground (arith, h, get-retain p k m h.1, get-retain_absent p k m, text_key.beq_iff j k)

  get-map_values :
      (f : V → V) (k : Text) (m : HashMap Text V) → get k (map_values f m) ≡ changed f (get k m)
  unfolding get
  get-map_values f k [] = refl
  get-map_values f k ((j, w) ∷ m) = ground (arith, get-map_values f k m)

module _ {F : Type 0} where
  -- Pruning keeps a worker, as it is, that has had a share in the last 600 seconds, and either has a
  -- share that counts or is younger than 180 seconds; it drops every other one.
  get-prune_stats :
      (now : ℕ) (stats : HashMap Text (WorkStats F)) (worker : Text)
      → IsMap stats
      → get worker (prune_stats now stats) ≡ kept (is_kept now) (get worker stats)
  unfolding prune_stats
  get-prune_stats now stats worker h = get-retain (is_kept now) worker stats h

  -- No worker's difficulty is below one.
  unfoldable pub IsAboveOne : F64 F → HashMap Text (WorkStats F) → Type 0
  IsAboveOne f stats =
      (worker : Text) (v : WorkStats F) → get worker stats ≡ some v → f.lt v.min_diff f.one ≡ false

  module _ (f : F64 F) (one_lt : f.lt f.one f.one ≡ false) (as_secs_f64 : ℕ → F)
      (as_f64 : ℕ → F) where
    retarget_bounded :
        (now : ℕ) (next : Option F) (v : WorkStats F)
        → ((d : F) → next ≡ some d → f.lt d f.one ≡ false)
        → f.lt v.min_diff f.one ≡ false
        → f.lt (retarget f as_secs_f64 as_f64 now next v).min_diff f.one ≡ false
    retarget_bounded now none v h above = above
    retarget_bounded now (some d) v h above = h d refl

    tick_since_bounded :
        (now : ℕ) (expected_spm : F) (clamp : Bool) (start : Option ℕ) (v : WorkStats F)
        → f.lt v.min_diff f.one ≡ false
        → f.lt (tick_since f as_secs_f64 as_f64 now expected_spm clamp start v).min_diff f.one
          ≡ false
    tick_since_bounded now expected_spm clamp none v above = above
    tick_since_bounded now expected_spm clamp (some t) v above =
        retarget_bounded now _ v
          (vardiff_compute_next_diff_bounded f one_lt v.min_diff _ _ expected_spm clamp) above

    changed_bounded :
        (g : WorkStats F → WorkStats F) (o : Option (WorkStats F)) (v : WorkStats F)
        → ((w : WorkStats F) → f.lt w.min_diff f.one ≡ false → f.lt (g w).min_diff f.one ≡ false)
        → ((w : WorkStats F) → o ≡ some w → f.lt w.min_diff f.one ≡ false)
        → changed g o ≡ some v
        → f.lt v.min_diff f.one ≡ false
    changed_bounded g none v keeps above e = absurd (cc)
    changed_bounded g (some w) v keeps above e =
        let same : g w ≡ v = cc in
        ap (λ u. f.lt u.min_diff f.one) (sym same) ∙ keeps w (above w refl)

    -- A tick leaves no worker's difficulty below one, if none was before it, whatever the rate that is
    -- aimed at and with the clamp to powers of two or without it.
    pub vardiff_tick-IsAboveOne :
        (now expected_share_rate : ℕ) (clamp : Bool) (stats : HashMap Text (WorkStats F))
        → IsAboveOne f stats
        → IsAboveOne f (vardiff_tick f as_secs_f64 as_f64 now expected_share_rate clamp stats)
    unfolding vardiff_tick tick_worker IsAboveOne
    vardiff_tick-IsAboveOne now expected_share_rate clamp stats above worker v e =
        let rate = as_f64 (if ltb expected_share_rate 1 then 1 else expected_share_rate) in
        changed_bounded (tick_worker f as_secs_f64 as_f64 now rate clamp) (get worker stats) v
          (λ w. tick_since_bounded now rate clamp w.var_diff_start_time w) (above worker)
          (sym (get-map_values _ worker stats) ∙ e)

module _ {x : External} where
  effective_worker_name_state :
      (ctx : StratumContext x) → (effective_worker_name ctx).0.state ≡ ctx.state
  unfolding effective_worker_name ensure_default_worker_name
  effective_worker_name_state ctx = ground arith

  -- A worker that was pruned is not brought back when a difficulty is set: the statistics stay as they
  -- are, and the difficulty of the connection is the answer.
  pub set_client_vardiff_pruned :
      {E : Type 0} (now : ℕ) (min_diff : x.Float) (s : Session x)
      → get (effective_worker_name s.ctx).1 s.stats ≡ none
      → ((set_client_vardiff {E = E} now min_diff s).1.stats ≡ s.stats)
        × ((set_client_vardiff {E = E} now min_diff s).0 ≡ ok (current_stratum_diff s))
  unfolding set_client_vardiff get_stats_if_exists worker_id
  set_client_vardiff_pruned now min_diff s h =
      rw h (refl, ap (λ m. ok (diff_or x.zero m.stratum_diff)) (effective_worker_name_state s.ctx))

  -- A difficulty that was set for a worker is what is read for it.
  get_client_vardiff-set_client_vardiff :
      {E : Type 0} (now : ℕ) (min_diff : x.Float) (s : Session x) (v : WorkStats x.Float)
      → get (effective_worker_name s.ctx).1 s.stats ≡ some v
      → (get_client_vardiff {E = E} (set_client_vardiff {E = E} now min_diff s).1).0 ≡ ok min_diff
  unfolding set_client_vardiff get_stats_if_exists worker_id get_client_vardiff update_stats
  get_client_vardiff-set_client_vardiff now min_diff s v h =
      rw
        (
          h,
          h,
          effective_worker_name_twice s.ctx,
          get-insert_self (effective_worker_name s.ctx).1 (restarted now min_diff v) s.stats,
        )
        refl
