-- ===== src/Http/Access.antt =====
-- bridge/src/prom/http/ops_access.rs: who may read and write `/api/config`. The environment variables
-- are a record. A text is the list of its characters, and a slice of it panics where its end does not
-- lie between two of them. Times are in nanoseconds.
pub mod Rate
pub mod Headers
use rusty_kaspa_stratum.Shared.{
  ℕ, zero, suc, ◌+◌, ◌-◌, ◌*◌, Bool, true, false, not, ◌&&◌, Option, none, some, List, [], ◌∷◌,
  ◌++◌, Text, codes, if◌then◌else◌, ltb, leb, ◌==◌, HashMap, get, insert, text_key, text_eq,
  unwrap_or, length, trim_end_matches, trim_start_matches, is_whitespace, map,
}
use rusty_kaspa_stratum.Stratum.LineCodec.{char_len, byte_len}
use rusty_kaspa_stratum.Config.Spec.{to_ascii_lowercase}

pub data ConfigRouteDeny : Type 0 where
  unauthorized forbidden_localhost forbidden_csrf rate_limited : ConfigRouteDeny

unfoldable pub status_code : ConfigRouteDeny → ℕ
status_code rate_limited = 429
status_code unauthorized = 401
status_code forbidden_localhost = 403
status_code forbidden_csrf = 403

pub record OpsConfig : Type 0 where
  pub localhost_only : Bool
  pub ops_bearer : Option Text
  pub ops_csrf : Option Text
  pub rate_per_min : Option ℕ

-- What looking for a header comes to.
pub data HeaderValue : Type 0 where
  absent panicked : HeaderValue
  found : Text → HeaderValue

abbrev pub push_first : ℕ → Option (Text × Text) → Option (Text × Text)
push_first c none = none
push_first c (some (a, b)) = some (c ∷ a, b)

-- `(&s[..n], &s[n..])`, with `n` in bytes
unfoldable pub split_at : ℕ → Text → Option (Text × Text)
split_at n [] = if n == 0 then some ([], []) else none
split_at n (c ∷ s) =
    let rest = split_at (n - char_len c) s in
    if n == 0 then some ([], c ∷ s) else if leb (char_len c) n then push_first c rest else none

abbrev pub matched : Text → HeaderValue → Option (Text × Text) → HeaderValue
matched prefix rest none = panicked
matched prefix rest (some (a, b)) =
    if text_eq (to_ascii_lowercase a) (to_ascii_lowercase prefix)
    then found (trim_start_matches is_whitespace b)
    else rest

-- The lines of the request, as `lines` cuts them, from the first on.
unfoldable pub find_header : Text → List Text → HeaderValue
unfolding split_at
find_header prefix [] = absent
find_header prefix (line ∷ lines) =
    let l = trim_end_matches (λ c. c == 13) line in
    let rest = find_header prefix lines in
    if leb (byte_len prefix) (byte_len l)
    then matched prefix rest (split_at (byte_len prefix) l)
    else rest

unfoldable pub header_value : List Text → Text → HeaderValue
unfolding find_header
header_value lines name = find_header (name ++ codes ":") lines

pub data Access : Type 0 where
  allowed crashed : Access
  denied : ConfigRouteDeny → Access

abbrev pub is_value : ConfigRouteDeny → Text → HeaderValue → Access
is_value deny expected absent = denied deny
is_value deny expected panicked = crashed
is_value deny expected (found v) = if text_eq v expected then allowed else denied deny

abbrev pub and_then : Access → Access → Access
and_then allowed next = next
and_then crashed next = crashed
and_then (denied d) next = denied d

abbrev pub check_localhost : Bool → Bool → Access
check_localhost localhost_only is_loopback =
    if localhost_only && not is_loopback then denied forbidden_localhost else allowed

abbrev pub check_bearer : Option Text → List Text → Access
check_bearer none request = allowed
check_bearer (some token) request =
    is_value unauthorized (codes "Bearer " ++ token) (header_value request (codes "Authorization"))

abbrev pub check_csrf : Option Text → List Text → Access
check_csrf none request = allowed
check_csrf (some secret) request =
    is_value forbidden_csrf secret (header_value request (codes "X-Rkstratum-Csrf"))

abbrev pub window : ℕ
window = 60 * 1000000000

abbrev pub Hits : Type 0
Hits = HashMap Text (List ℕ)

-- `v.retain(…)`
unfoldable pub retain : ℕ → List ℕ → List ℕ
retain now [] = []
retain now (t ∷ ts) = let rest = retain now ts in if ltb (now - t) window then t ∷ rest else rest

-- The test of the rate, and the table of hits after it.
unfoldable pub check_rate : ℕ → ℕ → Text → Hits → Access × Hits
unfolding retain
check_rate limit now key hits =
    let v = retain now (unwrap_or (get key hits) []) in
    if leb limit (length v)
    then (denied rate_limited, insert key v hits)
    else (allowed, insert key (v ++ now ∷ []) hits)

abbrev pub limited : Option ℕ → ℕ → Text → Hits → Access × Hits
limited none now key hits = (allowed, hits)
limited (some limit) now key hits = check_rate limit now key hits

abbrev pub if_allowed : Access → Access × Hits → Hits → Access × Hits
if_allowed allowed next hits = next
if_allowed crashed next hits = (crashed, hits)
if_allowed (denied d) next hits = (denied d, hits)

-- `peer_ip` is given by its text and by whether it is a loopback address.
unfoldable pub check_config_route_access :
    OpsConfig → List Text → Text → Bool → Bool → ℕ → Hits → Access × Hits
unfolding header_value check_rate
check_config_route_access c request peer_ip is_loopback is_post now hits =
    let reader =
      and_then (check_localhost c.localhost_only is_loopback) (check_bearer c.ops_bearer request) in
    if is_post
    then if_allowed (and_then reader (check_csrf c.ops_csrf request))
        (limited c.rate_per_min now peer_ip hits) hits
    else (reader, hits)
