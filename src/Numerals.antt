-- ===== src/Numerals.antt =====
-- The standard library's number texts that the program uses: `u64::from_str_radix`, `to_string` and
-- `{:x}`. No file of the repository defines them; the code calls them.
pub mod Print
pub mod RoundTrip
pub mod Hex
use rusty_kaspa_stratum.Shared.{
  ℕ, zero, suc, ◌+◌, ◌-◌, ◌*◌, ◌^◌, ◌<◌, Option, none, some, List, [], ◌∷◌, leb, ltb, ◌==◌, ◌&&◌,
  Text, if◌then◌else◌, Bool,
}

-- `std::num::IntErrorKind`
pub data IntErrorKind : Type 0 where
  empty invalid_digit pos_overflow : IntErrorKind

pub data Parsed : Type 0 where
  value : ℕ → Parsed
  invalid : IntErrorKind → Parsed

-- `char::to_digit`
unfoldable pub to_digit : ℕ → ℕ → Option ℕ
to_digit radix c =
    let d =
      if leb b'0' c && leb c b'9'
      then c - b'0'
      else if leb b'a' c && leb c b'z'
      then c - b'a' + 10
      else if leb b'A' c && leb c b'Z'
      then c - b'A' + 10
      else radix in
    if ltb d radix then some d else none

-- The loop of `from_str_radix` on `u64`: the digit is tested first, then each operation.
unfoldable pub digits : ℕ → ℕ → Text → Parsed
digits radix acc [] = value acc
digits radix acc (c ∷ rest) = elim (to_digit radix c) [
  | none ↦ invalid invalid_digit
  | some d ↦
      if ltb (acc * radix + d) (2 ^ 64)
      then digits radix (acc * radix + d) rest
      else invalid pos_overflow
]

-- One leading `+` is allowed, but not alone.
unfoldable pub from_str_radix : ℕ → Text → Parsed
from_str_radix radix [] = invalid empty
from_str_radix radix (c ∷ []) = if c == b'+' then invalid invalid_digit else digits radix 0 (c ∷ [])
from_str_radix radix (c ∷ d ∷ rest) =
    if c == b'+' then digits radix 0 (d ∷ rest) else digits radix 0 (c ∷ d ∷ rest)
