-- ===== src/Stratum/Handshake.antt =====
-- bridge/src/stratum/client_handler/handshake.rs: the extranonce of a connection, given out when the
-- miner subscribes. The static counter is passed on as state; `str::to_lowercase` is a parameter.
pub mod Extranonces
use rusty_kaspa_stratum.Shared.{
  ℕ, ◌+◌, Bool, true, false, [], List, ◌∷◌, Text, codes, ◌||◌, if◌then◌else◌, ltb, contains_text,
}
use rusty_kaspa_stratum.External.{External}
use rusty_kaspa_stratum.Numerals.Print.{hex_digits}
use rusty_kaspa_stratum.Stratum.Context.{StratumContext}

-- (2_f64.powi(16) - 1.0) as i32
abbrev pub max_extranonce : ℕ
max_extranonce = 65535

-- The update of `GLOBAL_NEXT_EXTRANONCE`, and the value that is given out.
unfoldable pub next_extranonce : ℕ → ℕ
next_extranonce val = if ltb val max_extranonce then val + 1 else 0

module _ (to_lowercase : Text → Text) where
  unfoldable pub is_bitmain : Text → Bool
  is_bitmain remote_app =
      contains_text (to_lowercase remote_app) (codes "godminer")
      || contains_text (to_lowercase remote_app) (codes "bitmain")
      || contains_text (to_lowercase remote_app) (codes "antminer")

  module _ {x : External} where
    -- The counter and the connection after the call.
    unfoldable pub assign_extranonce_for_miner : ℕ → StratumContext x → Text → ℕ × StratumContext x
    assign_extranonce_for_miner global ctx remote_app =
        if is_bitmain remote_app then (global, record ctx { extranonce = [] }) else (
          next_extranonce global,
          record ctx { extranonce = hex_digits 4 (next_extranonce global) },
        )
