-- ===== src/Node/CoinbaseTag.antt =====
-- bridge/src/kaspa/kaspaapi/coinbase_tag.rs: the tag that is put into the coinbase of a block. Only
-- ASCII is pushed to the suffix, so its length in bytes is its length.
pub mod Bounds
use rusty_kaspa_stratum.Shared.{
  ℕ, zero, suc, Bool, true, false, ◌&&◌, ◌||◌, Option, none, some, [], ◌∷◌, ◌++◌, Text, codes,
  if◌then◌else◌, leb, ◌==◌, is_empty, trim, trim_matches, trim_start_matches,
}

abbrev pub stratum_coinbase_tag_bytes : Text
stratum_coinbase_tag_bytes = codes "RK-Stratum"

abbrev pub max_coinbase_tag_suffix_len : ℕ
max_coinbase_tag_suffix_len = 64

abbrev pub is_ascii_alphanumeric : ℕ → Bool
is_ascii_alphanumeric c =
    leb b'0' c && leb c b'9' || leb b'A' c && leb c b'Z' || leb b'a' c && leb c b'z'

abbrev pub is_ascii_whitespace : ℕ → Bool
is_ascii_whitespace c = c == 32 || c == 9 || c == 10 || c == 12 || c == 13

unfoldable pub is_allowed : ℕ → Bool
is_allowed c = is_ascii_alphanumeric c || c == b'.' || c == b'_' || c == b'-'

-- What is pushed for a character.
unfoldable pub pushed : ℕ → Option ℕ
unfolding is_allowed
pushed ch = if is_allowed ch then some ch else if is_ascii_whitespace ch then some b'_' else none

-- The loop over the characters, with room for so many.
unfoldable pub collect : ℕ → Text → Text
collect zero suffix = []
collect (suc room) [] = []
collect (suc room) (ch ∷ suffix) = elim (pushed ch) [
  | none ↦ collect (suc room) suffix
  | some c ↦ c ∷ collect room suffix
]

abbrev pub when_some : Text → Option Text
when_some out = if is_empty out then none else some out

unfoldable pub sanitize_coinbase_tag_suffix : Text → Option Text
unfolding collect
sanitize_coinbase_tag_suffix input =
    let suffix = trim_start_matches (λ c. c == b'/') (trim input) in
    if is_empty suffix
    then none
    else when_some (trim_matches (λ c. c == b'_') (collect max_coinbase_tag_suffix_len suffix))

abbrev pub with_suffix : Option Text → Text
with_suffix none = stratum_coinbase_tag_bytes
with_suffix (some suffix) = stratum_coinbase_tag_bytes ++ b'/' ∷ suffix

unfoldable pub build_coinbase_tag_bytes : Option Text → Text
unfolding sanitize_coinbase_tag_suffix
build_coinbase_tag_bytes none = stratum_coinbase_tag_bytes
build_coinbase_tag_bytes (some suffix) = with_suffix (sanitize_coinbase_tag_suffix suffix)
