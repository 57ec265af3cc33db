-- ===== src/Submit/Handle/Quiet.antt =====
-- Runs that leave the counters alone: the preparation of a submission, and the answer to a duplicate.
use rusty_kaspa_stratum.Shared.{
  ℕ, ◌≡◌, refl, Bool, true, false, Option, none, some, Result, ok, err, ◌∙◌, Text, ◌⊎◌, inl, inr,
  pure, continue, ◌>>=◌, ◌>>◌, lift, gets, fail, remove_0x, if◌then◌else◌,
}
use rusty_kaspa_stratum.Stratum.Context.{
  ErrorDisconnected, Reply, reply, reply_stale_share, reply_bad_share, reply_low_diff_share,
}
use rusty_kaspa_stratum.External.{External, Block}
use rusty_kaspa_stratum.Rpc.{JsonRpcEvent, Value}
use rusty_kaspa_stratum.Dedupe.Submits.{
  DuplicateSubmitOutcome, get, in_flight, accepted, stale, low_diff, bad,
}
use rusty_kaspa_stratum.Submit.Session.{
  Session, Run, Metric, SubmitError, record_metric, error_missing_job, error_bad_data_from_miner,
  on_ctx, stale_job, too_few_params, worker_id, stratum_disconnected,
}
use rusty_kaspa_stratum.Submit.Parse.{
  prepare, find_job, found_job, as_str, nonce_param, merge_extranonce, parse_nonce, submit_key_of,
}
use rusty_kaspa_stratum.Submit.Duplicate.{look_up, answer_duplicate, success, try_reply_low_diff}
use rusty_kaspa_stratum.Mining.State.{Job, get_job}

-- The statistics, the metrics and the spawned tasks of `s` are those of `t`.
pub record SameCounts {x : External} (s t : Session x) : Type 0 where
  pub same_stats : s.stats ≡ t.stats
  pub same_overall : s.overall ≡ t.overall
  pub same_metrics : s.metrics ≡ t.metrics
  pub same_tasks : s.tasks ≡ t.tasks

pub data Fails {E A : Type 0} (r : Result E A) : Type 0 where
  with : (e : E) → r ≡ err e → Fails r

-- A run that changes none of them, however it ends.
module _ (x : External) {E A : Type 0} where
  abbrev pub Quiet : Run x E A → Type 0
  Quiet m = (s : Session x) → SameCounts (m s).1 s

  -- A run that changes none of them, unless it fails.
  abbrev QuietUnlessErr : Run x E A → Type 0
  QuietUnlessErr m = (s : Session x) → SameCounts (m s).1 s ⊎ Fails (m s).0

same : {x : External} {s : Session x} → SameCounts s s
same = record { same_stats = refl; same_overall = refl; same_metrics = refl; same_tasks = refl }

pub compose : {x : External} {s t u : Session x} → SameCounts s t → SameCounts t u → SameCounts s u
compose p q = record {
  same_stats = p.same_stats ∙ q.same_stats;
  same_overall = p.same_overall ∙ q.same_overall;
  same_metrics = p.same_metrics ∙ q.same_metrics;
  same_tasks = p.same_tasks ∙ q.same_tasks;
}

on_ctx-Quiet :
    {x : External} {E : Type 0} (to_error : ErrorDisconnected → E) (m : Reply x)
    → Quiet x (on_ctx to_error m)
unfolding on_ctx
on_ctx-Quiet to_error m s = record {
  same_stats = refl;
  same_overall = refl;
  same_metrics = refl;
  same_tasks = refl;
}

continue-Quiet :
    {x : External} {E A B : Type 0} (r : Result E A) (f : A → Run x E B)
    → ((a : A) → Quiet x (f a))
    → Quiet x (continue r f)
continue-Quiet (ok a) f q s = q a s
continue-Quiet (err e) f q s = same

bind-Quiet :
    {x : External} {E A B : Type 0} (m : Run x E A) (f : A → Run x E B)
    → Quiet x m
    → ((a : A) → Quiet x (f a))
    → Quiet x (m >>= f)
bind-Quiet m f p q s = compose (continue-Quiet (m s).0 f q (m s).1) (p s)

module _ {x : External} (event : JsonRpcEvent x.Number) where
  try_reply_low_diff-Quiet : (id : Option (Value x.Number)) → Quiet x (try_reply_low_diff id)
  unfolding try_reply_low_diff
  try_reply_low_diff-Quiet none s = same
  try_reply_low_diff-Quiet (some id) s =
      on_ctx-Quiet stratum_disconnected (reply_low_diff_share id) s

  pub answer_duplicate-Quiet : (o : DuplicateSubmitOutcome) → Quiet x (answer_duplicate event o)
  unfolding answer_duplicate
  answer_duplicate-Quiet in_flight =
      bind-Quiet (on_ctx stratum_disconnected (reply (success event.id))) (λ _. pure true)
        (on_ctx-Quiet _ _) (λ _ s. same)
  answer_duplicate-Quiet accepted =
      bind-Quiet (on_ctx stratum_disconnected (reply (success event.id))) (λ _. pure true)
        (on_ctx-Quiet _ _) (λ _ s. same)
  answer_duplicate-Quiet stale =
      bind-Quiet (on_ctx stratum_disconnected (reply_stale_share event.id)) (λ _. pure true)
        (on_ctx-Quiet _ _) (λ _ s. same)
  answer_duplicate-Quiet low_diff =
      bind-Quiet (try_reply_low_diff event.id) (λ _. pure true) (try_reply_low_diff-Quiet _)
        (λ _ s. same)
  answer_duplicate-Quiet bad =
      bind-Quiet (on_ctx stratum_disconnected (reply_bad_share event.id)) (λ _. pure true)
        (on_ctx-Quiet _ _) (λ _ s. same)

  pub look_up-Quiet : (key : Text) (now : ℕ) → Quiet x (look_up key now)
  unfolding look_up
  look_up-Quiet key now s = record {
    same_stats = refl;
    same_overall = refl;
    same_metrics = refl;
    same_tasks = refl;
  }

  look_up_found :
      (key : Text) (now : ℕ) (s : Session x)
      → (look_up key now s).0 ≡ ok (get s.duplicate_submit_guard key now).1
  unfolding look_up
  look_up_found key now s = refl

module _ {x : External} where
  loose : {E A : Type 0} (m : Run x E A) → Quiet x m → QuietUnlessErr x m
  loose m q s = inl (q s)

  bind-QuietUnlessErr :
      {E A B : Type 0} (m : Run x E A) (f : A → Run x E B)
      → QuietUnlessErr x m
      → ((a : A) → QuietUnlessErr x (f a))
      → QuietUnlessErr x (m >>= f)
  bind-QuietUnlessErr m f p q s = after_first (m s).0 (m s).1 (p s)
    where
      after_first :
          (r : Result _ _) (t : Session x)
          → SameCounts t s ⊎ Fails r
          → SameCounts (continue r f t).1 s ⊎ Fails (continue r f t).0
      after_first (err e) t h = inr (with e refl)
      after_first (ok a) t (inr (with e h)) = absurd (cc)
      after_first (ok a) t (inl h) = elim (q a t) [ inl k ↦ inl (compose k h) | inr k ↦ inr k ]

  lift-QuietUnlessErr : {E A : Type 0} (r : Result E A) → QuietUnlessErr x (lift r)
  lift-QuietUnlessErr r s = inl same

  gets-QuietUnlessErr : {E A : Type 0} (f : Session x → A) → QuietUnlessErr x {E = E} (gets f)
  gets-QuietUnlessErr f s = inl same

  reject-QuietUnlessErr :
      {A : Type 0} (m : Metric x.Float) (e : SubmitError)
      → QuietUnlessErr x {A = A} (do record_metric m; fail e)
  unfolding record_metric
  reject-QuietUnlessErr m e s = inr (with e refl)

  found_job-QuietUnlessErr : (found : Option (Job (Block x))) → QuietUnlessErr x (found_job found)
  found_job-QuietUnlessErr none = reject-QuietUnlessErr error_missing_job stale_job
  found_job-QuietUnlessErr (some job) = λ s. inl same

  find_job-QuietUnlessErr : (id : ℕ) → QuietUnlessErr x (find_job id)
  unfolding find_job
  find_job-QuietUnlessErr id s = found_job-QuietUnlessErr (get_job s.ctx.state id) s

  worker_id-QuietUnlessErr : (E : Type 0) → QuietUnlessErr x {E = E} worker_id
  unfolding worker_id
  worker_id-QuietUnlessErr E s =
      inl
        (record { same_stats = refl; same_overall = refl; same_metrics = refl; same_tasks = refl })

  if-QuietUnlessErr :
      {E A : Type 0} (b : Bool) (m n : Run x E A)
      → QuietUnlessErr x m
      → QuietUnlessErr x n
      → QuietUnlessErr x (if b then m else n)
  if-QuietUnlessErr true m n p q = p
  if-QuietUnlessErr false m n p q = q

  pub prepare-QuietUnlessErr : (event : JsonRpcEvent x.Number) → QuietUnlessErr x (prepare event)
  unfolding prepare
  prepare-QuietUnlessErr event =
      if-QuietUnlessErr _ _ _ (reject-QuietUnlessErr error_bad_data_from_miner too_few_params) (
        bind-QuietUnlessErr _ _ (lift-QuietUnlessErr _) λ job_id.
          bind-QuietUnlessErr _ _ (find_job-QuietUnlessErr job_id) λ job.
            bind-QuietUnlessErr _ _ (lift-QuietUnlessErr (as_str (nonce_param event.params)))
              λ nonce.
                bind-QuietUnlessErr _ _ (gets-QuietUnlessErr (λ s. s.ctx.extranonce)) λ extranonce.
                  let final = merge_extranonce extranonce (remove_0x nonce) in
                  bind-QuietUnlessErr _ _ (lift-QuietUnlessErr (parse_nonce final)) λ nonce_val.
                    bind-QuietUnlessErr worker_id
                      (λ worker. pure (record {
                        job_id = job_id;
                        job = job;
                        nonce_val = nonce_val;
                        final_nonce_str = final;
                        submit_key = submit_key_of worker job_id final;
                      }))
                      (worker_id-QuietUnlessErr _) λ worker s. inl same)
