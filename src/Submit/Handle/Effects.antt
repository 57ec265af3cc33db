-- ===== src/Submit/Handle/Effects.antt =====
-- What a submission does to the counters.
use rusty_kaspa_stratum.Shared.{
  ℕ, ◌≡◌, refl, Bool, true, false, some, Result, ok, err, sym, ◌⊎◌, inl, inr, pure, continue, ◌>>=◌,
  ◌>>◌, subst,
}
use rusty_kaspa_stratum.Stratum.Context.{reply, reply_stale_share, reply_bad_share}
use rusty_kaspa_stratum.External.{External, Block}
use rusty_kaspa_stratum.Rpc.{JsonRpcEvent}
use rusty_kaspa_stratum.Dedupe.Submits.{
  DuplicateSubmitOutcome, get, in_flight, accepted, stale, low_diff, bad,
}
use rusty_kaspa_stratum.Submit.Session.{Session, Run, on_ctx, stratum_disconnected}
use rusty_kaspa_stratum.Submit.Parse.{PreparedSubmit, prepare}
use rusty_kaspa_stratum.Submit.Duplicate.{
  look_up, answer_duplicate, respond_on_duplicate, success, try_reply_low_diff,
}
use rusty_kaspa_stratum.Submit.BlockSubmit.{SubmitAnswer}
use rusty_kaspa_stratum.Submit.Handle.{handle_submit, validate}
use rusty_kaspa_stratum.Submit.Handle.Quiet.{
  SameCounts, Fails, with, compose, answer_duplicate-Quiet, look_up-Quiet, prepare-QuietUnlessErr,
}

module _ {x : External} where
  -- A run whose value is `true`, unless it fails.
  abbrev Trues : {E : Type 0} → Run x E Bool → Type 0
  Trues m = (s : Session x) → ((m s).0 ≡ ok true) ⊎ Fails (m s).0

  then_true : (E : Type 0) (m : Run x E (Unit {0})) → Trues (m >> pure true)
  then_true E m s = by_result (m s).0 (m s).1
    where
      by_result :
          (r : Result E (Unit {0})) (t : Session x)
          → ((continue r (λ _. pure true) t).0 ≡ ok true) ⊎ Fails (continue r (λ _. pure true) t).0
      by_result (ok a) t = inl refl
      by_result (err e) t = inr (with e refl)

  answer_duplicate-Trues :
      (event : JsonRpcEvent x.Number) (o : DuplicateSubmitOutcome)
      → Trues (answer_duplicate event o)
  unfolding answer_duplicate
  answer_duplicate-Trues event in_flight =
      then_true _ (on_ctx stratum_disconnected (reply (success event.id)))
  answer_duplicate-Trues event accepted =
      then_true _ (on_ctx stratum_disconnected (reply (success event.id)))
  answer_duplicate-Trues event stale =
      then_true _ (on_ctx stratum_disconnected (reply_stale_share event.id))
  answer_duplicate-Trues event low_diff = then_true _ (try_reply_low_diff event.id)
  answer_duplicate-Trues event bad =
      then_true _ (on_ctx stratum_disconnected (reply_bad_share event.id))

  continue-true :
      {E : Type 0} (r : Result E Bool) (f : Bool → Run x E (Unit {0})) (s : Session x)
      → f true ≡ pure tt
      → (r ≡ ok true) ⊎ Fails r
      → (continue r f s).1 ≡ s
  continue-true (ok true) f s e h = rw e
  continue-true (ok false) f s e (inl h) = absurd (cc)
  continue-true (ok false) f s e (inr (with d h)) = absurd (cc)
  continue-true (err d) f s e h = refl

  module _ (submit_block : Block x → SubmitAnswer) (check now : ℕ)
      (event : JsonRpcEvent x.Number) where
    duplicate_stops :
        (prep : PreparedSubmit x) (o : DuplicateSubmitOutcome) (s : Session x)
        → SameCounts
            ((answer_duplicate event o >>= validate submit_block check now event prep) s).1
            s
    duplicate_stops prep o s =
        subst (λ t. SameCounts t s)
          (sym (
            continue-true (answer_duplicate event o s).0
              (validate submit_block check now event prep) (answer_duplicate event o s).1 refl
              (answer_duplicate-Trues event o s)))
          (answer_duplicate-Quiet event o s)

    known :
        (prep : PreparedSubmit x) (o : DuplicateSubmitOutcome) (t : Session x)
        → (get t.duplicate_submit_guard prep.submit_key check).1 ≡ some o
        → respond_on_duplicate event prep.submit_key check t
          ≡ answer_duplicate event o (look_up prep.submit_key check t).1
    unfolding respond_on_duplicate look_up
    known prep o t h = rw h

    prepared_same :
        (s t : Session x) (prep : PreparedSubmit x)
        → prepare event s ≡ (ok prep, t)
        → SameCounts t s
    prepared_same s t prep e = elim (prepare-QuietUnlessErr event s) [
      | inl q ↦ subst (λ r. SameCounts r.1 s) e q
      | inr (with d h) ↦ absurd (cc)
    ]

    -- A submission whose key the guard knows is neither validated nor counted: whatever the outcome
    -- that is kept and whatever becomes of the reply, the statistics, the metrics and the tasks are
    -- those from before the request.
    pub handle_submit_duplicate :
        (s t : Session x) (prep : PreparedSubmit x) (o : DuplicateSubmitOutcome)
        → prepare event s ≡ (ok prep, t)
        → (get t.duplicate_submit_guard prep.submit_key check).1 ≡ some o
        → SameCounts (handle_submit submit_block check now event s).1 s
    unfolding handle_submit
    handle_submit_duplicate s t prep o e h =
        let seen = (look_up prep.submit_key check t).1 in
        rw (e, known prep o t h)
          (compose
            (compose (duplicate_stops prep o seen) (look_up-Quiet event prep.submit_key check t))
            (prepared_same s t prep e))
