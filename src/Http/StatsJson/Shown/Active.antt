-- ===== src/Http/StatsJson/Shown/Active.antt =====
-- The activity of workers after a report.
use rusty_kaspa_stratum.Shared.{
  ℕ, ◌-◌, ◌≤◌, ◌≡◌, refl, true, Option, none, some, [], ◌∷◌, Text, arith, HashMap, get, insert,
  remove, get-insert, get-remove, contains_key, text_key, text_eq, text_eq_iff, Bool-cases, inl,
  inr, leb, ltb, ◌&&◌, subst,
}
use rusty_kaspa_stratum.External.{External}
use rusty_kaspa_stratum.Http.StatsJson.{WorkerInfo}
use rusty_kaspa_stratum.Http.StatsJson.Workers.{Gathered}
use rusty_kaspa_stratum.Http.StatsJson.Shown.{
  worker_inactivity_timeout, show_worker, active_workers, show_entry, report_workers,
}

-- The activity of a worker, where one is recorded, is not older than five minutes.
pub IsRecent : ℕ → Text → HashMap Text ℕ → Type 0
IsRecent now key activity =
    (last : ℕ) → get key activity ≡ some last → now - last ≤ worker_inactivity_timeout

insert_now :
    (now : ℕ) (key other : Text) (activity : HashMap Text ℕ)
    → IsRecent now key activity
    → IsRecent now key (insert other now activity)
unfolding IsRecent
insert_now now key other activity recent last h =
    ground (arith, recent last, get-insert other key now activity, h)

insert_now_self :
    (now : ℕ) (key : Text) (activity : HashMap Text ℕ) → IsRecent now key (insert key now activity)
unfolding IsRecent
insert_now_self now key activity last h =
    ground (arith, get-insert key key now activity, text_eq_iff key key, h)

remove_other :
    (now : ℕ) (key other : Text) (activity : HashMap Text ℕ)
    → IsRecent now key activity
    → IsRecent now key (remove other activity)
unfolding IsRecent
remove_other now key other activity recent last h =
    ground (arith, recent last, get-remove other key activity, h)

remove_self :
    (now : ℕ) (key : Text) (activity : HashMap Text ℕ) → IsRecent now key (remove key activity)
unfolding IsRecent
remove_self now key activity last h =
    absurd (ground (arith, get-remove key key activity, text_eq_iff key key, h))

module _ {F : Type 0} where
  -- What is recorded of the other workers stays recent.
  show_worker-IsRecent :
      (now now_secs : ℕ) (key other : Text) (activity : HashMap Text ℕ) (last start : Option ℕ)
      (w : WorkerInfo F)
      → IsRecent now key activity
      → IsRecent now key (show_worker now now_secs other activity last start w).0
  unfolding show_worker
  show_worker-IsRecent now now_secs key other activity none none w recent = recent
  show_worker-IsRecent now now_secs key other activity none (some start) w recent =
      elim (Bool-cases (ltb (now_secs - start) 60 && ltb 0 w.shares)) [
        | inl e ↦ simp e (insert_now now key other activity recent)
        | inr e ↦ simp e recent
      ]
  show_worker-IsRecent now now_secs key other activity (some last) start w recent =
      elim (Bool-cases (leb last now)) [
        | inr e ↦ simp e (insert_now now key other activity recent)
        | inl e ↦ elim (Bool-cases (leb (now - last) worker_inactivity_timeout)) [
          | inl d ↦ simp (e, d) recent
          | inr d ↦ simp (e, d) (remove_other now key other activity recent)
        ]
      ]

  show_worker-IsRecent_self :
      (now now_secs : ℕ) (key : Text) (activity : HashMap Text ℕ) (last start : Option ℕ)
      (w : WorkerInfo F)
      → get key activity ≡ last
      → IsRecent now key (show_worker now now_secs key activity last start w).0
  unfolding show_worker IsRecent
  show_worker-IsRecent_self now now_secs key activity none none w h = λ last e. absurd (cc)
  show_worker-IsRecent_self now now_secs key activity none (some start) w h =
      elim (Bool-cases (ltb (now_secs - start) 60 && ltb 0 w.shares)) [
        | inl e ↦ simp e (insert_now_self now key activity)
        | inr e ↦ simp e (λ last k. absurd (cc))
      ]
  show_worker-IsRecent_self now now_secs key activity (some last) start w h =
      elim (Bool-cases (leb last now)) [
        | inr e ↦ simp e (insert_now_self now key activity)
        | inl e ↦ elim (Bool-cases (leb (now - last) worker_inactivity_timeout)) [
          | inl d ↦ simp (e, d) (λ other k. ground (arith, d, h, k))
          | inr d ↦ simp (e, d) (remove_self now key activity)
        ]
      ]

module _ {x : External} (g : Gathered x) (now now_secs : ℕ) where
  show_entry-IsRecent :
      (key other : Text) (w : WorkerInfo x.Float) (activity : HashMap Text ℕ)
      → IsRecent now key activity
      → IsRecent now key (show_entry g now now_secs other w activity).0
  unfolding show_entry
  show_entry-IsRecent key other w activity recent =
      show_worker-IsRecent now now_secs key other activity (get other activity) _ _ recent

  show_entry-IsRecent_self :
      (key other : Text) (w : WorkerInfo x.Float) (activity : HashMap Text ℕ)
      → other ≡ key
      → IsRecent now key (show_entry g now now_secs other w activity).0
  unfolding show_entry
  show_entry-IsRecent_self key other w activity same =
      let after = (show_entry g now now_secs other w activity).0 in
      subst (λ k. IsRecent now k after) same
        (show_worker-IsRecent_self now now_secs other activity (get other activity) _ _ refl)

  active_workers-IsRecent_kept :
      (key : Text) (workers : HashMap Text (WorkerInfo x.Float)) (activity : HashMap Text ℕ)
      → IsRecent now key activity
      → IsRecent now key (active_workers g now now_secs workers activity).0
  unfolding active_workers
  active_workers-IsRecent_kept key [] activity recent = recent
  active_workers-IsRecent_kept key ((other, w) ∷ rest) activity recent =
      active_workers-IsRecent_kept key rest (show_entry g now now_secs other w activity).0
        (show_entry-IsRecent key other w activity recent)

  active_workers-IsRecent :
      (key : Text) (workers : HashMap Text (WorkerInfo x.Float)) (activity : HashMap Text ℕ)
      → contains_key key workers ≡ true
      → IsRecent now key (active_workers g now now_secs workers activity).0
  unfolding active_workers get
  active_workers-IsRecent key [] activity h = absurd (cc)
  active_workers-IsRecent key ((other, w) ∷ rest) activity h =
      let after = (show_entry g now now_secs other w activity).0 in
      elim (Bool-cases (text_eq other key)) [
        | inl e ↦
            active_workers-IsRecent_kept key rest after
              (show_entry-IsRecent_self key other w activity ((text_eq_iff other key).0 e))
        | inr e ↦ active_workers-IsRecent key rest after (ground (arith, h, e))
      ]

  -- After a report, the activity that is recorded of a worker whose metrics exist is not older than
  -- five minutes: an older one is removed, and one of the future is set to now.
  pub report_workers-IsRecent :
      (key : Text) (activity : HashMap Text ℕ)
      → contains_key key g.worker_stats ≡ true
      → IsRecent now key (report_workers g now now_secs activity).0
  unfolding report_workers
  report_workers-IsRecent key activity h = active_workers-IsRecent key g.worker_stats activity h
