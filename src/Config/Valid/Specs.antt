-- ===== src/Config/Valid/Specs.antt =====
-- What the texts of `--instance` are read as.
use rusty_kaspa_stratum.Shared.{
  ℕ, ◌^◌, ◌≡◌, refl, Bool, true, false, not, ◌||◌, Option, none, some, List, [], ◌∷◌, Text,
  is_empty, Result, ok, err, arith, all, inl, inr, Bool-cases, ◌⊎◌, subst, trim,
}
use rusty_kaspa_stratum.Config.{InstanceConfig}
use rusty_kaspa_stratum.Config.Ports.{normalize_port}
use rusty_kaspa_stratum.Config.Spec.{
  SpecError, Building, Key, port, prom, diff, wait, extranonce, log, var_diff_key, shares,
  var_diff_stats_key, pow2_clamp_key, unknown, key_of, key_and_value, split_once, and_set, set_key,
  set_port, set_part, set_parts, built, with_diff, new_building, parse_instance_spec, parse_number,
  parse_bool, split_commas,
}
use rusty_kaspa_stratum.Config.Cli.{CliError, parse_specs, cons_instance}
use rusty_kaspa_stratum.Config.Valid.{has_port, some_instance}

-- An instance that is counted as having a port has one.
abbrev keeps : Building → Bool
keeps b = not b.has_port || has_port b.instance_config

and_set_keeps :
    {A : Type 0} (r : Result SpecError A) (set : A → Building) (b b' : Building)
    → ((a : A) → keeps (set a) ≡ keeps b)
    → keeps b ≡ true
    → and_set r set ≡ ok b'
    → keeps b' ≡ true
and_set_keeps (ok a) set b b' same k h = ground (arith, h, k, same a)
and_set_keeps (err e) set b b' same k h = absurd (ground (arith, h))

set_port_keeps : (b b' : Building) (s : Text) → set_port b s ≡ ok b' → keeps b' ≡ true
set_port_keeps b b' [] h = absurd (ground (arith, h))
set_port_keeps b b' (c ∷ s) h = ground (arith, h)

set_key_keeps :
    (key : Key) (k v : Text) (b b' : Building)
    → keeps b ≡ true
    → set_key key k v b ≡ ok b'
    → keeps b' ≡ true
set_key_keeps port k v b b' old h = set_port_keeps b b' (normalize_port v) h
set_key_keeps prom k v b b' old h = ground (arith, h, old)
set_key_keeps diff k v b b' old h = and_set_keeps (parse_number (2 ^ 32) v) _ b b' (λ n. refl) old h
set_key_keeps wait k v b b' old h = and_set_keeps (parse_number (2 ^ 64) v) _ b b' (λ n. refl) old h
set_key_keeps extranonce k v b b' old h =
    and_set_keeps (parse_number (2 ^ 8) v) _ b b' (λ n. refl) old h
set_key_keeps log k v b b' old h = and_set_keeps (parse_bool v) _ b b' (λ n. refl) old h
set_key_keeps var_diff_key k v b b' old h = and_set_keeps (parse_bool v) _ b b' (λ n. refl) old h
set_key_keeps shares k v b b' old h =
    and_set_keeps (parse_number (2 ^ 32) v) _ b b' (λ n. refl) old h
set_key_keeps var_diff_stats_key k v b b' old h =
    and_set_keeps (parse_bool v) _ b b' (λ n. refl) old h
set_key_keeps pow2_clamp_key k v b b' old h = and_set_keeps (parse_bool v) _ b b' (λ n. refl) old h
set_key_keeps unknown k v b b' old h = absurd (ground (arith, h))

set_part_keeps :
    (part : Text) (b b' : Building) → keeps b ≡ true → set_part part b ≡ ok b' → keeps b' ≡ true
unfolding set_part
set_part_keeps part b b' old h = elim (Bool-cases (is_empty (trim part))) [
  | inl blank ↦ ground (arith, h, blank, old)
  | inr full ↦
      let kv = key_and_value (trim part) (split_once (trim part)) in
      set_key_keeps (key_of kv.0) kv.0 kv.1 b b' old (ground (arith, h, full))
]

pub result_cases :
    {E A : Type 0} (r : Result E A) → ((a : A) × (r ≡ ok a)) ⊎ ((e : E) × (r ≡ err e))
result_cases (ok a) = inl (a, refl)
result_cases (err e) = inr (e, refl)

set_parts_keeps :
    (parts : List Text) (b b' : Building)
    → keeps b ≡ true
    → set_parts parts b ≡ ok b'
    → keeps b' ≡ true
unfolding set_parts
set_parts_keeps [] b b' old h = ground (arith, h, old)
set_parts_keeps (part ∷ parts) b b' old h = elim (result_cases (set_part part b)) [
  | inl (m, e) ↦ set_parts_keeps parts m b' (set_part_keeps part b m old e) (rw (e, set_parts) at h)
  | inr (e, f) ↦ absurd (ground (arith, h, f))
]

with_diff-has_port :
    (has_diff : Bool) (d : Option ℕ) (j i : InstanceConfig)
    → with_diff has_diff d j ≡ ok i
    → has_port i ≡ has_port j
with_diff-has_port true d j i h = ground (arith, h)
with_diff-has_port false none j i h = absurd (ground (arith, h))
with_diff-has_port false (some n) j i h = ground (arith, h)

built-has_port :
    (d : Option ℕ) (b : Building) (i : InstanceConfig)
    → keeps b ≡ true
    → built d (ok b) ≡ ok i
    → has_port i ≡ true
built-has_port d b i k h = elim (Bool-cases b.has_port) [
  | inl counted ↦ ground (
    arith,
    k,
    counted,
    with_diff-has_port b.has_diff d b.instance_config i (ground (arith, h, counted)),
  )
  | inr missing ↦ absurd (ground (arith, h, missing))
]

parse_instance_spec-has_port :
    (spec : Text) (d : Option ℕ) (i : InstanceConfig)
    → parse_instance_spec spec d ≡ ok i
    → has_port i ≡ true
unfolding parse_instance_spec
parse_instance_spec-has_port spec d i h =
    elim (result_cases (set_parts (split_commas spec) new_building)) [
      | inl (b, e) ↦
          built-has_port d b i (set_parts_keeps (split_commas spec) new_building b refl e)
            (rw e at h)
      | inr (e, f) ↦ absurd (ground (arith, h, f))
    ]

cons_instance-has_port :
    (r : Result SpecError InstanceConfig) (rest : Result CliError (List InstanceConfig))
    (is : List InstanceConfig)
    → ((i : InstanceConfig) → r ≡ ok i → has_port i ≡ true)
    → ((js : List InstanceConfig) → rest ≡ ok js → all has_port js ≡ true)
    → cons_instance r rest ≡ ok is
    → (all has_port is ≡ true) × (some_instance is ≡ true)
cons_instance-has_port (err e) rest is first others h = absurd (ground (arith, h))
cons_instance-has_port (ok i) (err e) is first others h = absurd (ground (arith, h))
cons_instance-has_port (ok i) (ok js) is first others h =
    let e : i ∷ js ≡ is = ground (arith, h) in
    subst (λ l. (all has_port l ≡ true) × (some_instance l ≡ true)) e
      (ground (arith, first i refl, others js refl), refl)

pub parse_specs-has_port :
    (d : Option ℕ) (specs : List Text) (is : List InstanceConfig)
    → parse_specs d specs ≡ ok is
    → all has_port is ≡ true
unfolding parse_specs
parse_specs-has_port d [] is h =
    let e : [] ≡ is = ground (arith, h) in subst (λ l. all has_port l ≡ true) e refl
parse_specs-has_port d (spec ∷ specs) is h =
    (cons_instance-has_port (parse_instance_spec spec d) (parse_specs d specs) is
      (λ i. parse_instance_spec-has_port spec d i) (λ js. parse_specs-has_port d specs js) h).0

pub parse_specs-some_instance :
    (d : Option ℕ) (spec : Text) (specs : List Text) (is : List InstanceConfig)
    → parse_specs d (spec ∷ specs) ≡ ok is
    → some_instance is ≡ true
unfolding parse_specs
parse_specs-some_instance d spec specs is h =
    (cons_instance-has_port (parse_instance_spec spec d) (parse_specs d specs) is
      (λ i. parse_instance_spec-has_port spec d i) (λ js. parse_specs-has_port d specs js) h).1
