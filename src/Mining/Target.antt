-- ===== src/Mining/Target.antt =====
-- bridge/src/mining/hasher.rs: the targets. A `BigUint` is a natural number.
use rusty_kaspa_stratum.Shared.{ℕ, ◌-◌, ◌*◌, ◌/◌, ◌%◌, ◌^◌, leb, ◌==◌, if◌then◌else◌}

-- Of `bits`, the first byte is the exponent and the other three are the mantissa.
abbrev pub exponent_of : ℕ → ℕ
exponent_of bits = bits / 2 ^ 24

abbrev pub mantissa_of : ℕ → ℕ
mantissa_of bits = bits % 2 ^ 24

unfoldable pub calculate_target : ℕ → ℕ
calculate_target bits =
    let exponent = exponent_of bits in
    let mantissa = mantissa_of bits in
    if leb exponent 3
    then mantissa / 2 ^ (8 * (3 - exponent))
    else mantissa * 2 ^ (8 * (exponent - 3) % 2 ^ 32)

abbrev pub kaspa_max_target : ℕ
kaspa_max_target = 0xffff_ffff_ffff_ffff

unfoldable pub stratum_difficulty_to_target_kaspa : ℕ → ℕ
stratum_difficulty_to_target_kaspa stratum_diff =
    if stratum_diff == 0
    then kaspa_max_target * 1000
    else kaspa_max_target * 1000 / (stratum_diff * 1000)
