-- ===== src/Config/Spec.antt =====
-- bridge/src/cli.rs, `parse_instance_spec`: an instance from the text of an `--instance` flag. An error
-- is a constructor and not a text.
use rusty_kaspa_stratum.Shared.{
  ℕ, ◌+◌, ◌^◌, Bool, true, false, not, ◌&&◌, Option, none, some, List, [], ◌∷◌, Text, codes,
  if◌then◌else◌, is_empty, trim, Result, ok, err, contains, text_key, leb, ltb, map, ◌==◌,
}
use rusty_kaspa_stratum.Numerals.{Parsed, value, invalid, from_str_radix}
use rusty_kaspa_stratum.Config.{InstanceConfig, default_instance, non_empty}
use rusty_kaspa_stratum.Config.Ports.{normalize_port}

pub data SpecError : Type 0 where
  empty_port missing_port missing_diff : SpecError
  invalid_boolean invalid_number unknown_key : Text → SpecError

-- `str::to_ascii_lowercase`
abbrev pub lower : ℕ → ℕ
lower c = if leb b'A' c && leb c b'Z' then c + 32 else c

abbrev pub to_ascii_lowercase : Text → Text
to_ascii_lowercase s = map lower s

abbrev pub true_words : List Text
true_words =
    codes "true"
    ∷ codes "1"
    ∷ codes "yes"
    ∷ codes "y"
    ∷ codes "on"
    ∷ codes "enable"
    ∷ codes "enabled"
    ∷ []

abbrev pub false_words : List Text
false_words =
    codes "false"
    ∷ codes "0"
    ∷ codes "no"
    ∷ codes "n"
    ∷ codes "off"
    ∷ codes "disable"
    ∷ codes "disabled"
    ∷ []

unfoldable pub parse_bool : Text → Result SpecError Bool
parse_bool s =
    let word = to_ascii_lowercase (trim s) in
    if contains true_words word
    then ok true
    else if contains false_words word
    then ok false
    else err (invalid_boolean s)

-- `v.parse()` into an unsigned number below `bound`
abbrev pub bounded : ℕ → Text → Parsed → Result SpecError ℕ
bounded bound v (value n) = if ltb n bound then ok n else err (invalid_number v)
bounded bound v (invalid kind) = err (invalid_number v)

unfoldable pub parse_number : ℕ → Text → Result SpecError ℕ
parse_number bound v = bounded bound v (from_str_radix 10 v)

-- `s.split(',')`: the parts, the first of them with what is left of it.
abbrev pub push_char : ℕ → List Text → List Text
push_char c [] = (c ∷ []) ∷ []
push_char c (part ∷ parts) = (c ∷ part) ∷ parts

unfoldable pub split_commas : Text → List Text
split_commas [] = [] ∷ []
split_commas (c ∷ s) =
    let parts = split_commas s in if c == b',' then [] ∷ parts else push_char c parts

abbrev pub cons_key : ℕ → Option (Text × Text) → Option (Text × Text)
cons_key c none = none
cons_key c (some (k, v)) = some (c ∷ k, v)

-- `part.split_once('=')`
unfoldable pub split_once : Text → Option (Text × Text)
split_once [] = none
split_once (c ∷ s) = let rest = split_once s in if c == b'=' then some ([], s) else cons_key c rest

abbrev pub key_and_value : Text → Option (Text × Text) → Text × Text
key_and_value part none = (codes "port", part)
key_and_value part (some (k, v)) = (trim k, trim v)

-- The loop's variables.
pub record Building : Type 0 where
  pub instance_config : InstanceConfig
  pub has_port : Bool
  pub has_diff : Bool

pub data Key : Type 0 where
  port prom diff wait extranonce log var_diff_key shares var_diff_stats_key pow2_clamp_key : Key
  unknown : Key

unfoldable pub key_of : Text → Key
key_of k =
    let is = λ (words : List Text). contains words (to_ascii_lowercase k) in
    if is (codes "port" ∷ codes "stratum" ∷ codes "stratum_port" ∷ [])
    then port
    else if is (codes "prom" ∷ codes "prom_port" ∷ [])
    then prom
    else if is (codes "diff" ∷ codes "min_share_diff" ∷ [])
    then diff
    else if is (codes "wait" ∷ codes "block_wait_time" ∷ [])
    then wait
    else if is (codes "extranonce" ∷ codes "extranonce_size" ∷ [])
    then extranonce
    else if is (codes "log" ∷ codes "log_to_file" ∷ [])
    then log
    else if is (codes "var_diff" ∷ [])
    then var_diff_key
    else if is (codes "shares_per_min" ∷ [])
    then shares
    else if is (codes "var_diff_stats" ∷ [])
    then var_diff_stats_key
    else if is (codes "pow2_clamp" ∷ [])
    then pow2_clamp_key
    else unknown

abbrev pub and_set : {A : Type 0} → Result SpecError A → (A → Building) → Result SpecError Building
and_set (ok a) set = ok (set a)
and_set (err e) set = err e

abbrev pub with_instance : Building → InstanceConfig → Building
with_instance b i = record b { instance_config = i }

abbrev pub set_port : Building → Text → Result SpecError Building
set_port b normalized =
    if is_empty normalized
    then err empty_port
    else ok (record b {
      instance_config = record b.instance_config { stratum_port = normalized };
      has_port = true;
    })

abbrev pub set_key : Key → Text → Text → Building → Result SpecError Building
set_key port k v b = set_port b (normalize_port v)
set_key prom k v b =
    ok (with_instance b (record b.instance_config { prom_port = non_empty (normalize_port v) }))
set_key diff k v b = and_set (parse_number (2 ^ 32) v) (λ n. record b {
  instance_config = record b.instance_config { min_share_diff = n };
  has_diff = true;
})
set_key wait k v b =
    and_set (parse_number (2 ^ 64) v)
      (λ n. with_instance b (record b.instance_config { block_wait_time = some n }))
set_key extranonce k v b =
    and_set (parse_number (2 ^ 8) v)
      (λ n. with_instance b (record b.instance_config { extranonce_size = some n }))
set_key log k v b =
    and_set (parse_bool v)
      (λ n. with_instance b (record b.instance_config { log_to_file = some n }))
set_key var_diff_key k v b =
    and_set (parse_bool v) (λ n. with_instance b (record b.instance_config { var_diff = some n }))
set_key shares k v b =
    and_set (parse_number (2 ^ 32) v)
      (λ n. with_instance b (record b.instance_config { shares_per_min = some n }))
set_key var_diff_stats_key k v b =
    and_set (parse_bool v)
      (λ n. with_instance b (record b.instance_config { var_diff_stats = some n }))
set_key pow2_clamp_key k v b =
    and_set (parse_bool v) (λ n. with_instance b (record b.instance_config { pow2_clamp = some n }))
set_key unknown k v b = err (unknown_key k)

unfoldable pub set_part : Text → Building → Result SpecError Building
unfolding key_of parse_number parse_bool
set_part raw_part b =
    let part = trim raw_part in
    let (k, v) = key_and_value part (split_once part) in
    if is_empty part then ok b else set_key (key_of k) k v b

unfoldable pub set_parts : List Text → Building → Result SpecError Building
unfolding set_part
set_parts [] b = ok b
set_parts (part ∷ parts) b = elim (set_part part b) [ err e ↦ err e | ok b' ↦ set_parts parts b' ]

abbrev pub with_diff : Bool → Option ℕ → InstanceConfig → Result SpecError InstanceConfig
with_diff true default_min_share_diff i = ok i
with_diff false none i = err missing_diff
with_diff false (some d) i = ok (record i { min_share_diff = d })

abbrev pub built : Option ℕ → Result SpecError Building → Result SpecError InstanceConfig
built default_min_share_diff (err e) = err e
built default_min_share_diff (ok b) =
    if not b.has_port
    then err missing_port
    else with_diff b.has_diff default_min_share_diff b.instance_config

abbrev pub new_building : Building
new_building = record {
  instance_config = record default_instance { stratum_port = []; min_share_diff = 0 };
  has_port = false;
  has_diff = false;
}

unfoldable pub parse_instance_spec : Text → Option ℕ → Result SpecError InstanceConfig
unfolding set_parts split_commas
parse_instance_spec spec default_min_share_diff =
    built default_min_share_diff (set_parts (split_commas spec) new_building)
