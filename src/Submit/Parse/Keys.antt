-- ===== src/Submit/Parse/Keys.antt =====
-- Nonces as texts and as numbers, and the keys of the duplicate guard.
use rusty_kaspa_stratum.Shared.{
  ℕ, ◌+◌, ◌≡◌, ◌≢◌, refl, [], ◌∷◌, ◌++◌, Text, map, arith, if◌then◌else◌, leb, ◌&&◌, ◌==◌,
  Option-cases, inl, inr, ◌*◌, ◌^◌, ◌<◌, ok,
}
use rusty_kaspa_stratum.Numerals.{to_digit, digits, from_str_radix}
use rusty_kaspa_stratum.Numerals.Print.{to_string}
use rusty_kaspa_stratum.Numerals.RoundTrip.{from_str_radix-to_string}
use rusty_kaspa_stratum.External.{External}
use rusty_kaspa_stratum.Rpc.{string}
use rusty_kaspa_stratum.Submit.Parse.{parse_nonce, submit_key_of, parse_job_id}

-- `char::to_ascii_lowercase`
abbrev pub to_lower : ℕ → ℕ
to_lower c = if leb b'A' c && leb c b'Z' then c + 32 else c

to_digit-to_lower : (c : ℕ) → to_digit 16 (to_lower c) ≡ to_digit 16 c
unfolding to_digit
to_digit-to_lower c = ground arith

-- Texts of the same digits are read alike.
digits-cons :
    (acc c d : ℕ) (s t : Text)
    → to_digit 16 c ≡ to_digit 16 d
    → ((acc : ℕ) → digits 16 acc s ≡ digits 16 acc t)
    → digits 16 acc (c ∷ s) ≡ digits 16 acc (d ∷ t)
unfolding digits
digits-cons acc c d s t h k = elim (Option-cases (to_digit 16 d)) [
  | inl bad ↦ ground (arith, h, bad)
  | inr (v, good) ↦ ground (arith, h, good, k (acc * 16 + v))
]

digits-to_lower : (s : Text) (acc : ℕ) → digits 16 acc (map to_lower s) ≡ digits 16 acc s
digits-to_lower [] acc = refl
digits-to_lower (c ∷ s) acc =
    digits-cons acc (to_lower c) c (map to_lower s) s (to_digit-to_lower c) (digits-to_lower s)

plus-to_lower : (c : ℕ) → (to_lower c == b'+') ≡ (c == b'+')
plus-to_lower c = ground arith

from_str_radix-to_lower : (s : Text) → from_str_radix 16 (map to_lower s) ≡ from_str_radix 16 s
unfolding from_str_radix
from_str_radix-to_lower [] = refl
from_str_radix-to_lower (c ∷ []) = rw (plus-to_lower c, digits-to_lower (c ∷ []) 0)
from_str_radix-to_lower (c ∷ d ∷ s) =
    rw (plus-to_lower c, digits-to_lower (c ∷ d ∷ s) 0, digits-to_lower (d ∷ s) 0)

cancel : (p : Text) {a b : Text} → p ++ a ≡ p ++ b → a ≡ b
cancel [] h = h
cancel (c ∷ p) h = cancel p (cc)

-- The case of the digits makes no difference to the nonce, but it does to the key: a text of a
-- nonce that is not in lower case and its lower case are read alike, errors included, and have
-- different keys for one worker and one job.
pub same_nonce_other_key :
    (worker : Text) (job_id : ℕ) (nonce : Text)
    → map to_lower nonce ≢ nonce
    → (parse_nonce (map to_lower nonce) ≡ parse_nonce nonce)
      × (submit_key_of worker job_id (map to_lower nonce) ≢ submit_key_of worker job_id nonce)
unfolding parse_nonce submit_key_of
same_nonce_other_key worker job_id nonce d = (
  rw (from_str_radix-to_lower nonce),
  λ h. d (cancel (b'|' ∷ []) (cancel (to_string job_id) (cancel (b'|' ∷ []) (cancel worker h)))),
)

-- The text of a job id below 2^64 is read back as the id.
pub parse_job_id-to_string :
    (x : External) (job_id : ℕ)
    → job_id < 2 ^ 64
    → parse_job_id x (string (to_string job_id)) ≡ ok job_id
unfolding parse_job_id
parse_job_id-to_string x job_id h = rw (from_str_radix-to_string job_id h)
