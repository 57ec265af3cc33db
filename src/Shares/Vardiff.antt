-- ===== src/Shares/Vardiff.antt =====
-- bridge/src/share_handler/vardiff.rs: the next difficulty of a worker. `f64` is a parameter: its
-- operations, and the constants that the file has.
pub mod Bounds
use rusty_kaspa_stratum.Shared.{
  Bool, true, false, not, ◌&&◌, ◌||◌, Option, none, some, if◌then◌else◌,
}

pub record F64 (F : Type 0) : Type 0 where
  -- `is_finite`, `<`, `<=` and `==`
  pub is_finite : F → Bool
  pub lt : F → F → Bool
  pub le : F → F → Bool
  pub eq : F → F → Bool
  pub mul : F → F → F
  pub div : F → F → F
  pub sub : F → F → F
  pub abs : F → F
  pub max : F → F → F
  pub sqrt : F → F
  pub log2 : F → F
  pub ceil : F → F
  pub floor : F → F
  -- 2_f64.powi(exp as i32)
  pub pow2 : F → F
  -- 0.0, 1.0, 60.0, 0.10 and f64::EPSILON
  pub zero : F
  pub one : F
  pub sixty : F
  pub tenth : F
  pub epsilon : F
  pub vardiff_min_elapsed_secs : F
  pub vardiff_max_elapsed_secs_no_shares : F
  pub vardiff_min_shares : F
  pub vardiff_lower_ratio : F
  pub vardiff_upper_ratio : F
  pub vardiff_max_step_up : F
  pub vardiff_max_step_down : F

module _ {F : Type 0} (f : F64 F) where
  open f use {
    is_finite, lt, le, eq, mul, div, sub, abs, max, sqrt, log2, ceil, floor, pow2, zero, one, sixty,
    tenth, epsilon, vardiff_min_elapsed_secs, vardiff_max_elapsed_secs_no_shares,
    vardiff_min_shares, vardiff_lower_ratio, vardiff_upper_ratio, vardiff_max_step_up,
    vardiff_max_step_down,
  }

  -- if next < 1.0 { next = 1.0 }
  abbrev pub at_least_one : F → F
  at_least_one next = if lt next one then one else next

  -- `f64::clamp`
  abbrev pub clamp : F → F → F → F
  clamp low high v = if lt v low then low else if lt high v then high else v

  unfoldable pub vardiff_pow2_clamp_towards : F → F → F
  vardiff_pow2_clamp_towards current next =
      if not (is_finite next) || le next zero
      then one
      else (let exp = if le current next then ceil (log2 next) else floor (log2 next) in
          at_least_one (pow2 exp))

  abbrev pub clamped : Bool → F → F → F
  clamped clamp_pow2 current next =
      if clamp_pow2 then vardiff_pow2_clamp_towards current next else next

  -- if (next - current).abs() > f64::EPSILON { Some(next) } else { None }
  abbrev pub when_changed : F → F → Option F
  when_changed current next = if lt epsilon (abs (sub next current)) then some next else none

  -- No shares for a long time: the difficulty is lowered.
  unfoldable pub without_shares : Bool → F → Option F
  without_shares clamp_pow2 current =
      when_changed current
        (clamped clamp_pow2 current (at_least_one (mul current vardiff_max_step_down)))

  -- The step towards the expected rate, from the ratio of the rates.
  unfoldable pub by_ratio : Bool → F → F → Option F
  by_ratio clamp_pow2 current ratio =
      if not (is_finite ratio) || le ratio zero
      then none
      else if lt vardiff_lower_ratio ratio && lt ratio vardiff_upper_ratio
      then none
      else (let step = clamp vardiff_max_step_down vardiff_max_step_up (sqrt ratio) in
          let next = clamped clamp_pow2 current (at_least_one (mul current step)) in
          if lt (div (abs (sub next current)) (max current one)) tenth
          then none
          else when_changed current next)

  unfoldable pub vardiff_compute_next_diff : F → F → F → F → Bool → Option F
  vardiff_compute_next_diff current shares elapsed_secs expected_spm clamp_pow2 =
      if not (is_finite current) || le current zero
      then none
      else if not (is_finite elapsed_secs) || le elapsed_secs zero
      then none
      else if eq shares zero && le vardiff_max_elapsed_secs_no_shares elapsed_secs
      then without_shares clamp_pow2 current
      else if lt elapsed_secs vardiff_min_elapsed_secs || lt shares vardiff_min_shares
      then none
      else by_ratio clamp_pow2 current
          (div (mul (div shares elapsed_secs) sixty) (max expected_spm one))
