-- ===== src/Mining/JobParams/Formats.antt =====
-- The texts of a job for IceRiver and for BzMiner.
use rusty_kaspa_stratum.Shared.{
  append_assoc, append_nil, ℕ, zero, suc, ◌+◌, ◌*◌, ◌/◌, ◌%◌, ◌<◌, ◌≡◌, refl, sym, ap, ◌∙◌, List,
  [], ◌∷◌, ◌++◌, arith, all, ltb, length, true, length-append,
}
use rusty_kaspa_stratum.Numerals.Print.{hex_digits, digit_char}
use rusty_kaspa_stratum.External.{External}
use rusty_kaspa_stratum.Mining.JobParams.{
  words, from_be, from_be_bytes, from_le_bytes, to_le_bytes, to_be_bytes, hex_of, format_words,
  generate_iceriver_job_params, generate_large_job_params,
}

format_words-append : (v w : List ℕ) → format_words (v ++ w) ≡ format_words v ++ format_words w
format_words-append [] w = refl
format_words-append (n ∷ v) w =
    ap (λ u. hex_digits 16 n ++ u) (format_words-append v w)
    ∙ sym (append_assoc (hex_digits 16 n) (format_words v) (format_words w))

-- A byte in front of the last place of a number is two digits at its end.
hex_digits_byte :
    (width acc b : ℕ)
    → b < 256
    → hex_digits (suc (suc width)) (acc * 256 + b) ≡ hex_digits width acc ++ hex_digits 2 b
unfolding hex_digits
hex_digits_byte width acc b h =
    let high : (acc * 256 + b) / 16 / 16 ≡ acc = omega arith in
    let mid : (acc * 256 + b) / 16 % 16 ≡ b / 16 % 16 = omega arith in
    let low : (acc * 256 + b) % 16 ≡ b % 16 = omega arith in
    rw (high, mid, low)
      (append_assoc (hex_digits width acc) (digit_char (b / 16 % 16) ∷ [])
        (digit_char (b % 16) ∷ []))

hex_digits-from_be :
    (width total acc : ℕ) (bytes : List ℕ)
    → total ≡ width + 2 * length bytes
    → all (λ b. ltb b 256) bytes ≡ true
    → hex_digits total (from_be acc bytes) ≡ hex_digits width acc ++ hex_of bytes
hex_digits-from_be width total acc [] h small =
    let same : total ≡ width = omega arith in rw same (sym (append_nil (hex_digits width acc)))
hex_digits-from_be width total acc (b ∷ bytes) h small =
    hex_digits-from_be (suc (suc width)) total (acc * 256 + b) bytes (omega arith) (ground arith)
    ∙ ap (λ t. t ++ hex_of bytes) (hex_digits_byte width acc b (ground arith))
    ∙ append_assoc (hex_digits width acc) (hex_digits 2 b) (hex_of bytes)

hex_of-append : (v w : List ℕ) → hex_of (v ++ w) ≡ hex_of v ++ hex_of w
hex_of-append [] w = refl
hex_of-append (b ∷ v) w =
    ap (λ t. hex_digits 2 b ++ t) (hex_of-append v w)
    ∙ sym (append_assoc (hex_digits 2 b) (hex_of v) (hex_of w))

length-hex_of : (bytes : List ℕ) → length (hex_of bytes) ≡ 2 * length bytes
unfolding hex_digits
length-hex_of [] = refl
length-hex_of (b ∷ bytes) =
    omega (arith, length-append (hex_digits 2 b) (hex_of bytes), length-hex_of bytes)

-- The time stamp's bytes, swapped once as the one and read backwards as the other.
from_le_bytes-to_be_bytes :
    (n : ℕ) → from_le_bytes (to_be_bytes 8 n) ≡ from_be_bytes (to_le_bytes 8 n)
from_le_bytes-to_be_bytes n = omega arith

to_le_bytes_small : (width n : ℕ) → all (λ b. ltb b 256) (to_le_bytes width n) ≡ true
to_le_bytes_small zero n = refl
to_le_bytes_small (suc width) n = ground (arith, to_le_bytes_small width (n / 256))

timestamp_hex :
    (n : ℕ) → format_words (from_le_bytes (to_be_bytes 8 n) ∷ []) ≡ hex_of (to_le_bytes 8 n)
unfolding hex_digits
timestamp_hex n =
    append_nil (hex_digits 16 (from_le_bytes (to_be_bytes 8 n)))
    ∙ ap (hex_digits 16) (from_le_bytes-to_be_bytes n)
    ∙ hex_digits-from_be 0 16 0 (to_le_bytes 8 n) refl (to_le_bytes_small 8 n)

format_words-words :
    (n : ℕ) (bytes : List ℕ)
    → length bytes ≡ 8 * n
    → all (λ b. ltb b 256) bytes ≡ true
    → format_words (words from_be_bytes n bytes) ≡ hex_of bytes
unfolding words hex_digits
format_words-words zero [] len small = refl
format_words-words zero (a ∷ bytes) len small = absurd (omega arith)
format_words-words (suc n) [] len small = absurd (omega arith)
format_words-words (suc n) (a ∷ []) len small = absurd (omega arith)
format_words-words (suc n) (a ∷ b ∷ []) len small = absurd (omega arith)
format_words-words (suc n) (a ∷ b ∷ c ∷ []) len small = absurd (omega arith)
format_words-words (suc n) (a ∷ b ∷ c ∷ d ∷ []) len small = absurd (omega arith)
format_words-words (suc n) (a ∷ b ∷ c ∷ d ∷ e ∷ []) len small = absurd (omega arith)
format_words-words (suc n) (a ∷ b ∷ c ∷ d ∷ e ∷ f ∷ []) len small = absurd (omega arith)
format_words-words (suc n) (a ∷ b ∷ c ∷ d ∷ e ∷ f ∷ g ∷ []) len small = absurd (omega arith)
format_words-words (suc n) (a ∷ b ∷ c ∷ d ∷ e ∷ f ∷ g ∷ h ∷ rest) len small =
    let word = a ∷ b ∷ c ∷ d ∷ e ∷ f ∷ g ∷ h ∷ [] in
    ap (λ t. t ++ format_words (words from_be_bytes n rest))
      (hex_digits-from_be 0 16 0 word refl (ground (arith, small)))
    ∙ ap (λ t. hex_of word ++ t) (format_words-words n rest (omega arith) (ground (arith, small)))
    ∙ sym (hex_of-append word rest)

-- A miner that is told a job in the format of IceRiver reads what it would in that of BzMiner, for a
-- hash of 32 bytes, as `hash_to_string` and `hex_encode` write two digits in lower case for each byte.
generate_large_job_params-generate_iceriver_job_params :
    (x : External) (pre_pow_hash : List ℕ) (timestamp : ℕ)
    → ((bytes : List ℕ) → all (λ b. ltb b 256) bytes ≡ true → x.hash_to_string bytes ≡ hex_of bytes)
    → ((bytes : List ℕ) → all (λ b. ltb b 256) bytes ≡ true → x.hex_encode bytes ≡ hex_of bytes)
    → length pre_pow_hash ≡ 32
    → all (λ b. ltb b 256) pre_pow_hash ≡ true
    → generate_large_job_params pre_pow_hash timestamp
      ≡ generate_iceriver_job_params x pre_pow_hash timestamp
unfolding generate_large_job_params generate_iceriver_job_params
generate_large_job_params-generate_iceriver_job_params x pre_pow_hash timestamp to_hex encode len
      small =
    let swapped = from_le_bytes (to_be_bytes 8 timestamp) in
    format_words-append (words from_be_bytes 4 pre_pow_hash) (swapped ∷ [])
    ∙ ap (λ t. t ++ format_words (swapped ∷ []))
        (format_words-words 4 pre_pow_hash len small ∙ sym (to_hex pre_pow_hash small))
    ∙ ap (λ t. x.hash_to_string pre_pow_hash ++ t)
        (timestamp_hex timestamp
          ∙ sym (encode (to_le_bytes 8 timestamp) (to_le_bytes_small 8 timestamp)))

-- The text of a job has 80 characters.
length-generate_iceriver_job_params :
    (x : External) (pre_pow_hash : List ℕ) (timestamp : ℕ)
    → ((bytes : List ℕ) → all (λ b. ltb b 256) bytes ≡ true → x.hash_to_string bytes ≡ hex_of bytes)
    → ((bytes : List ℕ) → all (λ b. ltb b 256) bytes ≡ true → x.hex_encode bytes ≡ hex_of bytes)
    → length pre_pow_hash ≡ 32
    → all (λ b. ltb b 256) pre_pow_hash ≡ true
    → length (generate_iceriver_job_params x pre_pow_hash timestamp) ≡ 80
unfolding generate_iceriver_job_params
length-generate_iceriver_job_params x pre_pow_hash timestamp to_hex encode len small =
    let stamp = to_le_bytes 8 timestamp in
    omega (
      arith,
      length-append (x.hash_to_string pre_pow_hash) (x.hex_encode stamp),
      ap length (to_hex pre_pow_hash small),
      ap length (encode stamp (to_le_bytes_small 8 timestamp)),
      length-hex_of pre_pow_hash,
      length-hex_of stamp,
    )
