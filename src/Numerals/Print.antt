-- ===== src/Numerals/Print.antt =====
-- Printing of numbers: `{}`, `{:x}` and `{:0width$x}`.
use rusty_kaspa_stratum.Shared.{
  ℕ, zero, suc, ◌+◌, ◌-◌, ◌/◌, ◌%◌, [], ◌∷◌, ◌++◌, ltb, Text, if◌then◌else◌,
}

-- The character of a digit below 16, in lower case.
unfoldable pub digit_char : ℕ → ℕ
digit_char d = if ltb d 10 then b'0' + d else b'a' + (d - 10)

-- Enough fuel is any number above the value.
unfoldable pub print_fuel : ℕ → ℕ → ℕ → Text
print_fuel radix zero n = []
print_fuel radix (suc fuel) n =
    let rest = print_fuel radix fuel (n / radix) in
    if ltb n radix then digit_char n ∷ [] else rest ++ digit_char (n % radix) ∷ []

unfoldable pub to_string : ℕ → Text
unfolding print_fuel digit_char
to_string n = print_fuel 10 (suc n) n

-- Exactly `width` hexadecimal digits, the low ones of the value.
unfoldable pub hex_digits : ℕ → ℕ → Text
hex_digits zero n = []
hex_digits (suc width) n = hex_digits width (n / 16) ++ digit_char (n % 16) ∷ []
