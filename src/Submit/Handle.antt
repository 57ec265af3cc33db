-- ===== src/Submit/Handle.antt =====
-- bridge/src/share_handler/submit/handle.rs: the whole pipeline. `check` and `now` are the times at
-- which the guard is asked and at which the share is settled.
pub mod Quiet
pub mod Effects
pub mod Settled
use rusty_kaspa_stratum.Shared.{
  ℕ, Bool, true, false, Exec, Result, ok, err, ◌>>=◌, ◌>>◌, pure, map_err,
}
use rusty_kaspa_stratum.External.{External, Block}
use rusty_kaspa_stratum.Rpc.{JsonRpcEvent}
use rusty_kaspa_stratum.Submit.Session.{Session, Run, SubmitRunError, validation}
use rusty_kaspa_stratum.Submit.Parse.{PreparedSubmit, prepare}
use rusty_kaspa_stratum.Submit.Duplicate.{respond_on_duplicate}
use rusty_kaspa_stratum.Submit.BlockSubmit.{SubmitAnswer}
use rusty_kaspa_stratum.Submit.PowLoop.{
  PowDone, already_finished, out_of_fuel, continue_with, run_pow_validation_loop,
}
use rusty_kaspa_stratum.Submit.Finish.{after_pow_loop}

module _ {x : External} (submit_block : Block x → SubmitAnswer) (check now : ℕ)
    (event : JsonRpcEvent x.Number) where
  abbrev finish_with : PreparedSubmit x → PowDone → Run x SubmitRunError (Unit {0})
  finish_with prep already_finished = pure tt
  finish_with prep out_of_fuel = pure tt
  finish_with prep (continue_with invalid_share) = after_pow_loop now event prep invalid_share

  abbrev pub validate : PreparedSubmit x → Bool → Run x SubmitRunError (Unit {0})
  validate prep true = pure tt
  validate prep false = do
    outcome ← run_pow_validation_loop submit_block now event prep
    finish_with prep outcome

  unfoldable pub handle_submit : Run x SubmitRunError (Unit {0})
  handle_submit = do
    prep ← map_err validation (prepare event)
    handled ← respond_on_duplicate event prep.submit_key check
    validate prep handled
