-- ===== src/Examples/Resubmits.antt =====
-- A submission is registered, settled and known after that.
use rusty_kaspa_stratum.Shared.{ℕ, ◌≡◌, refl, false, some, none, ok, arith}
use rusty_kaspa_stratum.Shared
use rusty_kaspa_stratum.Dedupe.Pruning
use rusty_kaspa_stratum.Dedupe.Submits.{get, insert_inflight, in_flight}
use rusty_kaspa_stratum.Dedupe.Submits
use rusty_kaspa_stratum.Dedupe.Submits.Invariant.{IsValid, new-IsValid, insert_inflight-IsValid}
use rusty_kaspa_stratum.Submit.Session.{Session}
use rusty_kaspa_stratum.Submit.Duplicate.{respond_on_duplicate}
use rusty_kaspa_stratum.Submit.Finish.Remembers.{outcome_of_share}
use rusty_kaspa_stratum.Submit.Handle.{handle_submit}
use rusty_kaspa_stratum.Submit.Handle.Settled.{handle_submit-get}
use rusty_kaspa_stratum.Submit.PowLoop.{run_pow_validation_loop, continue_with}
use rusty_kaspa_stratum.Submit.PowLoop
use rusty_kaspa_stratum.Submit.PowLoop.Credit.{credited_from_above}
use rusty_kaspa_stratum.Submit.PowMath
use rusty_kaspa_stratum.Submit.Duplicate
use rusty_kaspa_stratum.Submit.Session
use rusty_kaspa_stratum.Submit.Parse.{prepare}
use rusty_kaspa_stratum.Submit.Parse
use rusty_kaspa_stratum.Stratum.Context
use rusty_kaspa_stratum.Numerals
use rusty_kaspa_stratum.Numerals.Print
use rusty_kaspa_stratum.Mining.State.{get_job}
use rusty_kaspa_stratum.Mining.Target.{calculate_target}
use rusty_kaspa_stratum.Examples.World.{world, session, event, prep, submit_block, job_of}

-- The session once the submission is registered.
abbrev waiting : Session world
waiting = record session {
  handler = record session.handler {
    duplicate_submit_guard = insert_inflight (Submits.new 100 50) prep.submit_key 7;
  };
}

waiting-IsValid : IsValid waiting.duplicate_submit_guard
waiting-IsValid =
    insert_inflight-IsValid (Submits.new 100 50) prep.submit_key 7 (new-IsValid 100 50)

abbrev looked_up : Session world
looked_up = (respond_on_duplicate {x = world} event prep.submit_key 7 session).1

-- The share is too weak for job 2 and is counted for job 1.
looked_up_credited :
    run_pow_validation_loop submit_block 8 event prep looked_up
    ≡ (ok (continue_with false), looked_up)
unfolding respond_on_duplicate Duplicate.look_up get Submits.prune Pruning.prune Pruning.expire
    Pruning.evict Submits.new get_job Shared.get PowLoop.evaluate_job_pow
    PowMath.meets_network_target_biguint PowMath.share_too_weak_for_pool calculate_target
    PowLoop.pool_target PowMath.pool_target_or_zero
looked_up_credited =
    credited_from_above prep submit_block 8 event 1 (job_of 0) looked_up refl refl (omega arith)
      refl refl refl refl refl

event_prepared : prepare event session ≡ (ok prep, session)
unfolding prepare Parse.parse_job_id Parse.find_job Parse.as_str Parse.merge_extranonce
    Parse.parse_nonce Parse.submit_key_of get_job Shared.get Numerals.from_str_radix Numerals.digits
    Numerals.to_digit Shared.remove_0x Session.worker_id Context.effective_worker_name
    Context.ensure_default_worker_name Context.connection_id Shared.trim Shared.trim_matches
    Shared.trim_start_matches Shared.trim_end_matches Shared.is_whitespace Print.to_string
    Print.print_fuel Print.digit_char
event_prepared = refl

handle_submit-get_example :
    (get
      (handle_submit submit_block 7 8 event session).1.duplicate_submit_guard
      prep.submit_key
      60).1
    ≡ some (outcome_of_share false)
unfolding get Submits.prune Pruning.prune Pruning.expire Pruning.evict Submits.new Shared.get
handle_submit-get_example =
    handle_submit-get submit_block 7 8 event session session prep false 60 event_prepared
      (new-IsValid 100 50) (omega arith) refl (omega arith) looked_up_credited (omega arith)
