-- ===== src/Http/Access/Headers.antt =====
-- Requests that the search for a header does not survive.
use rusty_kaspa_stratum.Shared.{
  ℕ, ◌+◌, ◌-◌, ◌≤◌, ◌<◌, ◌≡◌, refl, Bool, true, false, none, some, List, [], ◌∷◌, ◌++◌, Text, codes,
  leb, ◌==◌, arith, trim_end_matches, le→leb, Bool-cases, inl, inr, Option, text_eq, ◌∙◌,
}
use rusty_kaspa_stratum.Stratum.LineCodec.{char_len, byte_len}
use rusty_kaspa_stratum.Config.Spec.{to_ascii_lowercase}
use rusty_kaspa_stratum.Http.Access.{
  HeaderValue, absent, matched, panicked, and_then, check_localhost, OpsConfig, crashed, Hits,
  split_at, find_header, header_value, check_config_route_access,
}

split_at_inside :
    (s rest : Text) (c n : ℕ)
    → byte_len s < n
    → n < byte_len s + char_len c
    → split_at n (s ++ c ∷ rest) ≡ none
unfolding split_at byte_len
split_at_inside [] rest c n low high = ground (arith, low, high)
split_at_inside (d ∷ s) rest c n low high =
    ground (arith, low, high, split_at_inside s rest c (n - char_len d))

byte_len-append : (s t : Text) → byte_len (s ++ t) ≡ byte_len s + byte_len t
unfolding byte_len
byte_len-append [] t = omega arith
byte_len-append (c ∷ s) t = omega (arith, byte_len-append s t)

tail_long : (c : ℕ) (rest : Text) → char_len c ≤ byte_len (c ∷ rest)
unfolding byte_len
tail_long c rest = omega arith

find_header_panicked :
    (prefix line s rest : Text) (c : ℕ) (lines : List Text)
    → trim_end_matches (λ c. c == 13) line ≡ s ++ c ∷ rest
    → byte_len s < byte_len prefix
    → byte_len prefix < byte_len s + char_len c
    → find_header prefix (line ∷ lines) ≡ panicked
unfolding find_header
find_header_panicked prefix line s rest c lines e low high =
    let long : leb (byte_len prefix) (byte_len (s ++ c ∷ rest)) ≡ true =
      le→leb (byte_len prefix) (byte_len (s ++ c ∷ rest))
        (omega (arith, byte_len-append s (c ∷ rest), tail_long c rest)) in
    rw (e, long, split_at_inside s rest c (byte_len prefix) low high) refl

matched_absent :
    (prefix : Text) (rest : HeaderValue) (o : Option (Text × Text))
    → matched prefix rest o ≡ absent
    → (rest ≡ absent) × ((other : HeaderValue) → matched prefix other o ≡ other)
matched_absent prefix rest none h = absurd (cc)
matched_absent prefix rest (some (a, b)) h =
    elim (Bool-cases (text_eq (to_ascii_lowercase a) (to_ascii_lowercase prefix))) [
      | inl e ↦ absurd (ground (arith, h, e))
      | inr e ↦ (ground (arith, h, e), λ other. rw e refl)
    ]

-- Lines without the header are passed over.
find_header-append :
    (prefix : Text) (before lines : List Text)
    → find_header prefix before ≡ absent
    → find_header prefix (before ++ lines) ≡ find_header prefix lines
unfolding find_header
find_header-append prefix [] lines h = refl
find_header-append prefix (line ∷ before) lines h =
    let l = trim_end_matches (λ c. c == 13) line in
    elim (Bool-cases (leb (byte_len prefix) (byte_len l))) [
      | inr short ↦ rw short (find_header-append prefix before lines (rw short at h))
      | inl long ↦
          let passed =
            matched_absent prefix (find_header prefix before) (split_at (byte_len prefix) l)
              (rw long at h) in
          rw long (
            passed.1 (find_header prefix (before ++ lines))
            ∙ find_header-append prefix before lines passed.0)
    ]

authorization_panicked :
    (before : List Text) (line s rest : Text) (c : ℕ) (lines : List Text)
    → header_value before (codes "Authorization") ≡ absent
    → trim_end_matches (λ c. c == 13) line ≡ s ++ c ∷ rest
    → byte_len s < 14
    → 14 < byte_len s + char_len c
    → header_value (before ++ line ∷ lines) (codes "Authorization") ≡ panicked
unfolding header_value byte_len char_len
authorization_panicked before line s rest c lines none_before e low high =
    find_header-append (codes "Authorization:") before (line ∷ lines) none_before
    ∙ find_header_panicked (codes "Authorization:") line s rest c lines e low high

reader_crashed :
    (localhost_only : Bool) → and_then (check_localhost localhost_only true) crashed ≡ crashed
reader_crashed true = refl
reader_crashed false = refl

-- Where a token is required, a line with a character that lies across its 14th byte makes the check
-- panic, if no line before it is the header of the token: the name of the header is cut out of the
-- line there.
pub check_config_route_access_crashed :
    (o : OpsConfig) (token : Text) (before : List Text) (line s rest : Text) (c now : ℕ)
    (lines : List Text) (peer_ip : Text) (is_post : Bool) (hits : Hits)
    → o.ops_bearer ≡ some token
    → header_value before (codes "Authorization") ≡ absent
    → trim_end_matches (λ c. c == 13) line ≡ s ++ c ∷ rest
    → byte_len s < 14
    → 14 < byte_len s + char_len c
    → check_config_route_access o (before ++ line ∷ lines) peer_ip true is_post now hits
      ≡ (crashed, hits)
unfolding check_config_route_access
check_config_route_access_crashed o token before line s rest c now lines peer_ip is_post hits bearer
      none_before e low high =
    let panics = authorization_panicked before line s rest c lines none_before e low high in
    elim (Bool-cases is_post) [
      | inl post ↦ rw (post, bearer, panics, reader_crashed o.localhost_only) refl
      | inr get ↦ rw (get, bearer, panics, reader_crashed o.localhost_only) refl
    ]
