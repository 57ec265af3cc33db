-- ===== src/Numerals/RoundTrip.antt =====
-- What is printed in base 10 is read back.
use rusty_kaspa_stratum.Shared.{
  ℕ, zero, suc, ◌+◌, ◌*◌, ◌/◌, ◌%◌, ◌^◌, ◌≤◌, ◌<◌, ◌≡◌, refl, [], ◌∷◌, ◌++◌, arith, Text, some, ltb,
  Bool-cases, inl, inr, Option-cases, ltb→lt, ap, ◌∙◌,
}
use rusty_kaspa_stratum.Numerals.{value, digits, to_digit, from_str_radix}
use rusty_kaspa_stratum.Numerals.Print.{digit_char, print_fuel, to_string}

to_digit-digit_char : (d : ℕ) → d < 10 → to_digit 10 (digit_char d) ≡ some d
unfolding to_digit digit_char
to_digit-digit_char d h = ground arith

-- Reading what was read with one more digit.
digits-append :
    (radix acc n d c : ℕ) (s : Text)
    → digits radix acc s ≡ value n
    → to_digit radix c ≡ some d
    → n * radix + d < 2 ^ 64
    → digits radix acc (s ++ c ∷ []) ≡ value (n * radix + d)
unfolding digits
digits-append radix acc n d c [] h e b = ground arith
digits-append radix acc n d c (x ∷ s) h e b = elim (Option-cases (to_digit radix x)) [
  | inl bad ↦ absurd (ground (arith, bad))
  | inr (v, good) ↦ ground (arith, good, digits-append radix (acc * radix + v) n d c s)
]

digits-print_fuel :
    (fuel n : ℕ) → n < fuel → n < 2 ^ 64 → digits 10 0 (print_fuel 10 fuel n) ≡ value n
unfolding print_fuel digits
digits-print_fuel zero n h b = absurd (omega arith)
digits-print_fuel (suc fuel) n h b = elim (Bool-cases (ltb n 10)) [
  | inl small ↦
      let tiny : n < 10 = ltb→lt n 10 small in
      rw small (
        digits-append 10 0 0 n (digit_char n) [] refl (to_digit-digit_char n tiny) (omega arith)
        ∙ ap value (omega arith))
  | inr large ↦
      let head : n / 10 < fuel = ground arith in
      let low : n / 10 * 10 + n % 10 < 2 ^ 64 = omega arith in
      let whole : n / 10 * 10 + n % 10 ≡ n = omega arith in
      rw large (
        digits-append 10 0 (n / 10) (n % 10) (digit_char (n % 10)) (print_fuel 10 fuel (n / 10))
          (digits-print_fuel fuel (n / 10) head (omega arith))
          (to_digit-digit_char (n % 10) (omega arith)) low
        ∙ ap value whole)
]

-- The first character that is printed is a digit.
print_fuel-head :
    (fuel n : ℕ)
    → n < fuel
    → (c : ℕ) × (rest : Text) × (print_fuel 10 fuel n ≡ c ∷ rest) × (b'0' ≤ c) × (c ≤ b'9')
unfolding print_fuel digit_char
print_fuel-head zero n h = absurd (omega arith)
print_fuel-head (suc fuel) n h = elim (Bool-cases (ltb n 10)) [
  | inl small ↦ (digit_char n, [], rw small, ground arith, ground arith)
  | inr large ↦
      let (c, rest, e, lo, hi) = print_fuel-head fuel (n / 10) (ground arith) in
      (c, rest ++ digit_char (n % 10) ∷ [], rw (large, e), lo, hi)
]

from_str_radix-digits :
    (radix c : ℕ) (rest : Text)
    → b'0' ≤ c
    → from_str_radix radix (c ∷ rest) ≡ digits radix 0 (c ∷ rest)
unfolding from_str_radix
from_str_radix-digits radix c [] h = ground arith
from_str_radix-digits radix c (d ∷ rest) h = ground arith

-- A `u64` that is printed in base 10 is parsed to itself.
pub from_str_radix-to_string : (n : ℕ) → n < 2 ^ 64 → from_str_radix 10 (to_string n) ≡ value n
unfolding to_string
from_str_radix-to_string n b =
    let (c, rest, e, lo, hi) = print_fuel-head (suc n) n (omega arith) in
    cc (e, from_str_radix-digits 10 c rest lo, digits-print_fuel (suc n) n (omega arith) b)
