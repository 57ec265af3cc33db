-- ===== src/Submit/Duplicate.antt =====
-- bridge/src/share_handler/submit/duplicate.rs: the answer to a submission that was seen before.
pub mod Registers
use rusty_kaspa_stratum.Shared.{
  ℕ, Bool, true, false, Option, none, some, Text, ok, ◌>>=◌, ◌>>◌, pure, ignore,
}
use rusty_kaspa_stratum.External.{External}
use rusty_kaspa_stratum.Rpc.{Value, bool, JsonRpcEvent, JsonRpcResponse}
use rusty_kaspa_stratum.Stratum.Context.{
  reply, reply_stale_share, reply_low_diff_share, reply_bad_share,
}
use rusty_kaspa_stratum.Dedupe.Submits.{
  DuplicateSubmitGuard, DuplicateSubmitOutcome, in_flight, accepted, stale, low_diff, bad, get,
  insert_inflight,
}
use rusty_kaspa_stratum.Submit.Session.{Run, SubmitRunError, stratum_disconnected, on_ctx}

-- The reply `true` to a share.
abbrev pub success : {N : Type 0} → Option (Value N) → JsonRpcResponse N
success id = record { id = id; result = some (bool true); error = none }

abbrev pub register :
    Option DuplicateSubmitOutcome → DuplicateSubmitGuard → Text → ℕ → DuplicateSubmitGuard
register none guard key now = insert_inflight guard key now
register (some outcome) guard key now = guard

module _ {x : External} where
  -- `let _ = ctx.reply_low_diff_share(id).await`, where the request has an id
  unfoldable pub try_reply_low_diff : Option (Value x.Number) → Run x SubmitRunError (Unit {0})
  try_reply_low_diff none = pure tt
  try_reply_low_diff (some id) = ignore (on_ctx stratum_disconnected (reply_low_diff_share id))

  unfoldable pub answer_duplicate :
      JsonRpcEvent x.Number → DuplicateSubmitOutcome → Run x SubmitRunError Bool
  answer_duplicate event accepted = do
    on_ctx stratum_disconnected (reply (success event.id))
    pure true
  answer_duplicate event in_flight = do
    on_ctx stratum_disconnected (reply (success event.id))
    pure true
  answer_duplicate event stale = do
    on_ctx stratum_disconnected (reply_stale_share event.id)
    pure true
  answer_duplicate event low_diff = do try_reply_low_diff event.id; pure true
  answer_duplicate event bad = do on_ctx stratum_disconnected (reply_bad_share event.id); pure true

  -- Under the lock of the guard: look the key up, and register it if it is not there.
  unfoldable pub look_up : Text → ℕ → Run x SubmitRunError (Option DuplicateSubmitOutcome)
  look_up submit_key now s =
      let (guard, found) = get s.duplicate_submit_guard submit_key now in
      (
        ok found,
        record s {
          handler = record s.handler {
            duplicate_submit_guard = register found guard submit_key now;
          };
        },
      )

  abbrev pub respond :
      JsonRpcEvent x.Number → Option DuplicateSubmitOutcome → Run x SubmitRunError Bool
  respond event none = pure false
  respond event (some outcome) = answer_duplicate event outcome

  unfoldable pub respond_on_duplicate : JsonRpcEvent x.Number → Text → ℕ → Run x SubmitRunError Bool
  respond_on_duplicate event submit_key now = do found ← look_up submit_key now; respond event found
