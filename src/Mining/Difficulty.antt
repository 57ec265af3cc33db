-- ===== src/Mining/Difficulty.antt =====
-- bridge/src/mining/hasher.rs: `KaspaDiff`, and the target of a difficulty. A `BigUint` is a natural
-- number, and dividing one by zero panics, which is `none`.
use rusty_kaspa_stratum.Shared.{ℕ, ◌*◌, ◌/◌, Bool, Option, none, some, if◌then◌else◌, ◌==◌}
use rusty_kaspa_stratum.External.{External}
use rusty_kaspa_stratum.Mining.State.{KaspaDiff}
use rusty_kaspa_stratum.Mining.Target.{stratum_difficulty_to_target_kaspa, kaspa_max_target}

-- 56 hexadecimal digits F
abbrev pub max_target : ℕ
max_target = 0xffffffffffffffffffffffffffffffffffffffffffffffffffffffff

abbrev pub div_big : ℕ → ℕ → Option ℕ
div_big n d = if d == 0 then none else some (n / d)

-- The environment variables that choose the calculation: USE_ALTERNATIVE_TARGET_CALC and
-- USE_STRATUM_TARGET_CALC.
pub record TargetCalc : Type 0 where
  pub use_alternative : Bool
  pub use_stratum_alt : Bool

-- The target that was computed first is logged with the standard one, so that both are computed.
abbrev logged : Option ℕ → Option ℕ → Option ℕ
logged none other = none
logged (some target) none = none
logged (some target) (some standard) = some target

module _ (x : External) where
  unfoldable pub diff_to_target_alternative : x.Float → Option ℕ
  diff_to_target_alternative diff =
      if x.le diff x.zero
      then some max_target
      else div_big (kaspa_max_target * 1000000) (x.trunc_u64 (x.mul diff (x.f64 1000000)))

  unfoldable pub diff_to_target_standard : x.Float → Option ℕ
  diff_to_target_standard diff =
      if x.le diff x.zero
      then some max_target
      else div_big (max_target * 1000000000000000000)
          (x.trunc_u128 (x.mul diff (x.f64 1000000000000000000)))

  unfoldable pub diff_to_target : TargetCalc → x.Float → Option ℕ
  diff_to_target calc diff =
      let standard = diff_to_target_standard diff in
      if calc.use_stratum_alt
      then logged (some (stratum_difficulty_to_target_kaspa (x.trunc_u64 diff))) standard
      else if calc.use_alternative
      then logged (diff_to_target_alternative diff) standard
      else standard

  -- `min_hash` is 2_f64.powi(32) and `BIG_GIG` is 1e9.
  unfoldable pub diff_to_hash : x.Float → x.Float
  diff_to_hash diff = x.div (x.mul (x.f64 4294967296) diff) (x.f64 1000000000)

  -- `KaspaDiff::new`
  unfoldable pub new_diff : KaspaDiff x.Float
  new_diff = record { hash_value = x.zero; diff_value = x.zero; target_value = 0 }

  abbrev with_target : x.Float → Option ℕ → KaspaDiff x.Float → Option (KaspaDiff x.Float)
  with_target diff none d = none
  with_target diff (some target) d =
      some (record d { diff_value = diff; target_value = target; hash_value = diff_to_hash diff })

  -- `set_diff_value`, and `set_diff_value_for_miner`, which does not look at the miner's application
  unfoldable pub set_diff_value :
      TargetCalc → KaspaDiff x.Float → x.Float → Option (KaspaDiff x.Float)
  set_diff_value calc d diff = with_target diff (diff_to_target calc diff) d
