-- ===== src/Mining/JobParams.antt =====
-- bridge/src/mining/hasher.rs: what a miner is told of a job, made from the hash of the header (a
-- list of bytes) and its time stamp. The logs, and the checks that only log, are left out.
pub mod Formats
use rusty_kaspa_stratum.Shared.{ℕ, zero, suc, ◌+◌, ◌*◌, ◌/◌, ◌%◌, ◌^◌, List, [], ◌∷◌, ◌++◌, Text}
use rusty_kaspa_stratum.Numerals.Print.{hex_digits}
use rusty_kaspa_stratum.External.{External}

-- `u64::from_be_bytes` and `u64::from_le_bytes`, `to_be_bytes` and `to_le_bytes`
abbrev pub from_be : ℕ → List ℕ → ℕ
from_be acc [] = acc
from_be acc (b ∷ bytes) = from_be (acc * 256 + b) bytes

abbrev pub from_be_bytes : List ℕ → ℕ
from_be_bytes bytes = from_be 0 bytes

abbrev pub from_le_bytes : List ℕ → ℕ
from_le_bytes [] = 0
from_le_bytes (b ∷ bytes) = b + 256 * from_le_bytes bytes

abbrev pub to_le_bytes : ℕ → ℕ → List ℕ
to_le_bytes zero n = []
to_le_bytes (suc width) n = n % 256 ∷ to_le_bytes width (n / 256)

abbrev pub to_be_bytes : ℕ → ℕ → List ℕ
to_be_bytes zero n = []
to_be_bytes (suc width) n = to_be_bytes width (n / 256) ++ n % 256 ∷ []

-- Two hexadecimal digits for each byte, in lower case.
abbrev pub hex_of : List ℕ → Text
hex_of [] = []
hex_of (b ∷ bytes) = hex_digits 2 b ++ hex_of bytes

-- The words of eight bytes that `read` makes of the first 32 bytes; where fewer are left than eight,
-- none is made of them.
unfoldable pub words : (List ℕ → ℕ) → ℕ → List ℕ → List ℕ
words read (suc n) (a ∷ b ∷ c ∷ d ∷ e ∷ f ∷ g ∷ h ∷ rest) =
    read (a ∷ b ∷ c ∷ d ∷ e ∷ f ∷ g ∷ h ∷ []) ∷ words read n rest
words read n bytes = []

unfoldable pub generate_job_header : List ℕ → List ℕ
unfolding words
generate_job_header header_data = words from_le_bytes 4 header_data

unfoldable pub generate_iceriver_job_params : External → List ℕ → ℕ → Text
generate_iceriver_job_params x pre_pow_hash timestamp =
    x.hash_to_string pre_pow_hash ++ x.hex_encode (to_le_bytes 8 timestamp)

-- The `format!` of the five words, each in 16 digits
abbrev pub format_words : List ℕ → Text
format_words [] = []
format_words (w ∷ ids) = hex_digits 16 w ++ format_words ids

-- On a hash of 32 bytes; a shorter one makes the source panic at `ids[4]`.
unfoldable pub generate_large_job_params : List ℕ → ℕ → Text
unfolding words
generate_large_job_params header_data timestamp =
    format_words (words from_be_bytes 4 header_data ++ from_le_bytes (to_be_bytes 8 timestamp) ∷ [])
