-- ===== src/Numerals/Hex.antt =====
-- Numbers of a fixed width in base 16 are told apart by their digits.
use rusty_kaspa_stratum.Shared.{
  ℕ, zero, suc, ◌/◌, ◌%◌, ◌^◌, ◌<◌, ◌≡◌, refl, [], ◌∷◌, ◌++◌, Text, arith,
}
use rusty_kaspa_stratum.Numerals.Print.{digit_char, hex_digits}

digit_char_injective : (a b : ℕ) → a < 16 → b < 16 → digit_char a ≡ digit_char b → a ≡ b
unfolding digit_char
digit_char_injective a b p q h = ground arith

-- The last characters of equal texts are equal, and so is what stands before them.
snoc_injective : (s t : Text) (a b : ℕ) → s ++ a ∷ [] ≡ t ++ b ∷ [] → (s ≡ t) × (a ≡ b)
snoc_injective [] [] a b h = (refl, cc)
snoc_injective [] (d ∷ []) a b h = absurd (cc)
snoc_injective [] (d ∷ e ∷ t) a b h = absurd (cc)
snoc_injective (c ∷ []) [] a b h = absurd (cc)
snoc_injective (c ∷ e ∷ s) [] a b h = absurd (cc)
snoc_injective (c ∷ s) (d ∷ t) a b h = let rest = snoc_injective s t a b (cc) in (cc, rest.1)

pub hex_digits_injective :
    (width n m : ℕ)
    → n < 16 ^ width
    → m < 16 ^ width
    → hex_digits width n ≡ hex_digits width m
    → n ≡ m
unfolding hex_digits
hex_digits_injective zero n m p q h = omega arith
hex_digits_injective (suc width) n m p q h =
    let both =
      snoc_injective (hex_digits width (n / 16)) (hex_digits width (m / 16)) (digit_char (n % 16))
        (digit_char (m % 16)) h in
    let high = hex_digits_injective width (n / 16) (m / 16) (omega arith) (omega arith) both.0 in
    let low = digit_char_injective (n % 16) (m % 16) (omega arith) (omega arith) both.1 in
    omega (arith, high, low)
