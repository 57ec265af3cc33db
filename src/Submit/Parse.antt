-- ===== src/Submit/Parse.antt =====
-- bridge/src/share_handler/submit/parse.rs: from the parameters of `mining.submit` to a job, a nonce
-- and the key of the duplicate guard. A text is the list of its characters; one that is not ASCII is
-- refused by the number parser whatever its length in bytes is.
pub mod Keys
use rusty_kaspa_stratum.Shared.{
  ℕ, ◌+◌, ◌-◌, ◌%◌, ◌^◌, Bool, true, false, Option, none, some, List, [], ◌∷◌, ◌++◌, Text,
  if◌then◌else◌, Exec, Result, ok, err, ◌>>=◌, ◌>>◌, pure, fail, gets, lift, length, get_elem?, ltb,
  leb, is_empty, remove_0x, replicate, unwrap_or,
}
use rusty_kaspa_stratum.External.{External, Block}
use rusty_kaspa_stratum.Numerals.{
  Parsed, value, invalid, IntErrorKind, from_str_radix, digits, to_digit,
}
use rusty_kaspa_stratum.Numerals.Print.{to_string}
use rusty_kaspa_stratum.Mining.State.{MiningState, Job, get_job}
use rusty_kaspa_stratum.Rpc.{Value, null, bool, number, string, array, object, JsonRpcEvent}
use rusty_kaspa_stratum.Submit.Session.{
  SubmitError, too_few_params, job_id_wrong_type, job_id_out_of_range, stale_job, nonce_not_string,
  job_id_parse, nonce_hex_parse, Session, Run, record_metric, worker_id, error_bad_data_from_miner,
  error_missing_job,
}

pub record PreparedSubmit (x : External) : Type 0 where
  pub job_id : ℕ
  pub job : Job (Block x)
  pub nonce_val : ℕ
  pub final_nonce_str : Text
  pub submit_key : Text

abbrev parsed_or : (IntErrorKind → SubmitError) → Parsed → Result SubmitError ℕ
parsed_or to_error (value n) = ok n
parsed_or to_error (invalid kind) = err (to_error kind)

abbrev ok_or : Option ℕ → SubmitError → Result SubmitError ℕ
ok_or none e = err e
ok_or (some n) e = ok n

-- The job id: a decimal text or a number.
unfoldable pub parse_job_id : (x : External) → Value x.Number → Result SubmitError ℕ
parse_job_id x (string s) = parsed_or job_id_parse (from_str_radix 10 s)
parse_job_id x (number n) = ok_or (x.as_u64 n) job_id_out_of_range
parse_job_id x _ = err job_id_wrong_type

-- `Value::as_str`
unfoldable pub as_str : {N : Type 0} → Value N → Result SubmitError Text
as_str (string s) = ok s
as_str _ = err nonce_not_string

-- `{:0>width$}`
abbrev pub pad_zeros : ℕ → Text → Text
pad_zeros width s = replicate (width - length s) b'0' ++ s

-- 16 - len, as a `usize` that wraps
abbrev pub extranonce2_len : Text → ℕ
extranonce2_len extranonce = (16 + 2 ^ 64 - length extranonce) % 2 ^ 64

-- The nonce after the extranonce of the connection is put in front of it, where it fits.
unfoldable pub merge_extranonce : Text → Text → Text
merge_extranonce extranonce nonce_str =
    if is_empty extranonce
    then nonce_str
    else if leb (length nonce_str) (extranonce2_len extranonce)
    then extranonce ++ pad_zeros (extranonce2_len extranonce) nonce_str
    else nonce_str

unfoldable pub parse_nonce : Text → Result SubmitError ℕ
parse_nonce s = parsed_or nonce_hex_parse (from_str_radix 16 s)

-- format!("{}|{}|{}", worker_id, job_id, final_nonce_str)
unfoldable pub submit_key_of : Text → ℕ → Text → Text
submit_key_of worker job_id nonce = worker ++ b'|' ∷ (to_string job_id ++ b'|' ∷ nonce)

abbrev pub nonce_param : {N : Type 0} → List (Value N) → Value N
nonce_param params = unwrap_or (get_elem? params (if leb 5 (length params) then 4 else 2)) null

module _ {x : External} where
  abbrev pub found_job : Option (Job (Block x)) → Run x SubmitError (Job (Block x))
  found_job none = do record_metric error_missing_job; fail stale_job
  found_job (some job) = pure job

  unfoldable pub find_job : ℕ → Run x SubmitError (Job (Block x))
  find_job job_id s = found_job (get_job s.ctx.state job_id) s

  unfoldable pub prepare : JsonRpcEvent x.Number → Run x SubmitError (PreparedSubmit x)
  prepare event =
      if ltb (length event.params) 3
      then (do record_metric error_bad_data_from_miner; fail too_few_params)
      else do
        job_id ← lift (parse_job_id x (unwrap_or (get_elem? event.params 1) null))
        job ← find_job job_id
        nonce_str ← lift (as_str (nonce_param event.params))
        extranonce ← gets (λ s. s.ctx.extranonce)
        let final_nonce_str = merge_extranonce extranonce (remove_0x nonce_str)
        nonce_val ← lift (parse_nonce final_nonce_str)
        worker ← worker_id
        pure (record {
          job_id = job_id;
          job = job;
          nonce_val = nonce_val;
          final_nonce_str = final_nonce_str;
          submit_key = submit_key_of worker job_id final_nonce_str;
        })
