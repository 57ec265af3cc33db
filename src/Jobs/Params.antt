-- ===== src/Jobs/Params.antt =====
-- bridge/src/stratum/client_handler/job_dispatch: the parameters of `mining.notify`, and the message
-- that carries them, in the formats of the miners.
use rusty_kaspa_stratum.Shared.{
  ℕ, Bool, not, ◌&&◌, ◌||◌, some, List, [], ◌∷◌, Text, codes, if◌then◌else◌, contains_text,
}
use rusty_kaspa_stratum.External.{External}
use rusty_kaspa_stratum.Numerals.Print.{to_string}
use rusty_kaspa_stratum.Rpc.{Value, Values, string, number, array, item, end}
use rusty_kaspa_stratum.Mining.JobParams.{
  generate_job_header, generate_iceriver_job_params, generate_large_job_params,
}
use rusty_kaspa_stratum.Stratum.Context.{Reply, send, send_notification}

unfoldable pub is_iceriver : Text → Bool
is_iceriver remote_app_lower =
    contains_text remote_app_lower (codes "iceriver")
    || contains_text remote_app_lower (codes "icemining")
    || contains_text remote_app_lower (codes "icm")

module _ (x : External) where
  abbrev pub numbers : List ℕ → Values x.Number
  numbers [] = end
  numbers (v ∷ header) = item (number (x.from_u64 v)) (numbers header)

  -- A single text, in the format of IceRiver or in that of BzMiner, or an array and the time stamp.
  abbrev pub iceriver_data : List ℕ → ℕ → List (Value x.Number)
  iceriver_data hash timestamp = string (generate_iceriver_job_params x hash timestamp) ∷ []

  abbrev pub large_data : List ℕ → ℕ → List (Value x.Number)
  large_data hash timestamp = string (generate_large_job_params hash timestamp) ∷ []

  abbrev pub legacy_data : List ℕ → ℕ → List (Value x.Number)
  legacy_data hash timestamp =
      array (numbers (generate_job_header hash)) ∷ number (x.from_u64 timestamp) ∷ []

  -- The parameters, as new_block_job.rs builds them.
  unfoldable pub new_block_params : Bool → Bool → ℕ → List ℕ → ℕ → List (Value x.Number)
  new_block_params iceriver use_big_job job_id hash timestamp =
      string (to_string job_id)
      ∷ (if iceriver
          then iceriver_data hash timestamp
          else if use_big_job && not iceriver
          then large_data hash timestamp
          else legacy_data hash timestamp)

  -- The parameters, as immediate_job.rs builds them.
  unfoldable pub immediate_params : Bool → Bool → ℕ → List ℕ → ℕ → List (Value x.Number)
  immediate_params iceriver use_big_job job_id hash timestamp =
      string (to_string job_id)
      ∷ (if use_big_job && not iceriver
          then large_data hash timestamp
          else if iceriver
          then iceriver_data hash timestamp
          else legacy_data hash timestamp)

  -- The work, with a method and parameters only where `minimal` is set.
  unfoldable pub send_work : Bool → ℕ → List (Value x.Number) → Reply x
  send_work minimal job_id params =
      if minimal
      then send_notification (codes "mining.notify") params
      else send (record {
        id = some (number (x.from_u64 job_id));
        jsonrpc = codes "2.0";
        method = codes "mining.notify";
        params = params;
      })
