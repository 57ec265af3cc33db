-- ===== src/Examples/Shares.antt =====
-- Submissions.
use rusty_kaspa_stratum.Shared.{ℕ, ◌≡◌, ◌≢◌, refl, false, true, none, some, ok, arith, ◌+◌}
use rusty_kaspa_stratum.Shared
use rusty_kaspa_stratum.Stratum.Context.{effective_worker_name}
use rusty_kaspa_stratum.Submit.PowLoop.{out_of_fuel, continue_with, run_pow_validation_loop}
use rusty_kaspa_stratum.Submit.PowLoop
use rusty_kaspa_stratum.Submit.PowLoop.Search.{run_pow_validation_loop_done}
use rusty_kaspa_stratum.Submit.PowLoop.Credit.{
  Outcome, run_pow_validation_loop-Outcome, credited_from_above,
}
use rusty_kaspa_stratum.Submit.Session.{Session}
use rusty_kaspa_stratum.Submit.Session
use rusty_kaspa_stratum.Stratum.Context
use rusty_kaspa_stratum.Submit.Finish.{weak_share_found, valid_share_found}
use rusty_kaspa_stratum.Submit.Finish.Counts.{
  Counted, weak_share_found-Counted, valid_share_found-Counted,
}
use rusty_kaspa_stratum.Submit.Handle.{handle_submit}
use rusty_kaspa_stratum.Submit.Handle.Quiet.{SameCounts}
use rusty_kaspa_stratum.Submit.Handle.Effects.{handle_submit_duplicate}
use rusty_kaspa_stratum.Submit.Parse.{prepare}
use rusty_kaspa_stratum.Submit.Parse
use rusty_kaspa_stratum.Dedupe.Submits.{in_flight, insert_inflight}
use rusty_kaspa_stratum.Dedupe.Submits
use rusty_kaspa_stratum.Dedupe.Pruning
use rusty_kaspa_stratum.Submit.PowMath
use rusty_kaspa_stratum.Mining.Target.{calculate_target}
use rusty_kaspa_stratum.Mining.State.{get_job}
use rusty_kaspa_stratum.Numerals
use rusty_kaspa_stratum.Numerals.Print
use rusty_kaspa_stratum.Examples.World.{world, submit_block, session, event, prep, job_of}

run_pow_validation_loop_done_example :
    (run_pow_validation_loop submit_block 8 event prep session).0 ≢ ok out_of_fuel
run_pow_validation_loop_done_example =
    run_pow_validation_loop_done submit_block 8 event prep session refl

run_pow_validation_loop-Outcome_example :
    Outcome prep submit_block 8 event session
      (run_pow_validation_loop submit_block 8 event prep session)
run_pow_validation_loop-Outcome_example =
    run_pow_validation_loop-Outcome prep submit_block 8 event session refl

-- The share is too weak for job 2 and is counted for job 1.
credited_from_above_example :
    run_pow_validation_loop submit_block 8 event prep session ≡ (ok (continue_with false), session)
unfolding get_job Shared.get PowLoop.evaluate_job_pow PowMath.meets_network_target_biguint
    PowMath.share_too_weak_for_pool calculate_target PowLoop.pool_target PowMath.pool_target_or_zero
credited_from_above_example =
    credited_from_above prep submit_block 8 event 1 (job_of 0) session refl refl (omega arith) refl
      refl refl refl refl

weak_share_found-Counted_example : Counted 0 1 session (weak_share_found 8 event prep session).1
weak_share_found-Counted_example = weak_share_found-Counted 8 event prep session

valid_share_found-Counted_example : Counted 1 0 session (valid_share_found 8 event prep session).1
valid_share_found-Counted_example = valid_share_found-Counted 8 event prep session

-- The session once the submission is registered.
abbrev registered : Session world
registered = record session {
  handler = record session.handler {
    duplicate_submit_guard = insert_inflight (Submits.new 100 50) prep.submit_key 7;
  };
}

handle_submit_duplicate_example :
    SameCounts (handle_submit submit_block 8 8 event registered).1 registered
unfolding prepare Parse.parse_job_id Parse.find_job Parse.as_str Parse.merge_extranonce
    Parse.parse_nonce Parse.submit_key_of get_job Shared.get Shared.insert Shared.remove
    Numerals.from_str_radix Numerals.digits Numerals.to_digit Shared.remove_0x Session.worker_id
    effective_worker_name Context.ensure_default_worker_name Context.connection_id Shared.trim
    Shared.trim_matches Shared.trim_start_matches Shared.trim_end_matches Shared.is_whitespace
    Print.to_string Print.print_fuel Print.digit_char Submits.get Submits.prune Pruning.prune
    Pruning.evict Pruning.expire insert_inflight Submits.new
handle_submit_duplicate_example =
    handle_submit_duplicate submit_block 8 8 event registered registered prep in_flight refl refl
