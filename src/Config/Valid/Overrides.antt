-- ===== src/Config/Valid/Overrides.antt =====
-- What the flags of the command line make of a configuration that was valid.
use rusty_kaspa_stratum.Shared.{
  ℕ, ◌≡◌, refl, true, false, Option, some, List, [], ◌∷◌, Text, is_empty, ok, arith, all, inl, inr,
  Option-cases, subst, codes,
}
use rusty_kaspa_stratum.Config.{
  InstanceConfig, GlobalConfig, BridgeConfig, BridgeConfigRaw, duplicate_port, from_yaml,
}
use rusty_kaspa_stratum.Config.Ports.{normalize_port}
use rusty_kaspa_stratum.Config.Cli.{
  Cli, apply_cli_overrides, parse_specs, with_specs, checked_ports, override_instance,
  override_instances, with_instances, by_instances, override_global, normalized_or,
}
use rusty_kaspa_stratum.Config.Valid.{
  IsValid, has_port, some_instance, distinct, duplicate_port-distinct, from_yaml-IsValid,
}
use rusty_kaspa_stratum.Config.Valid.Specs.{
  result_cases, parse_specs-has_port, parse_specs-some_instance,
}

checked_ports-IsValid :
    (g : GlobalConfig) (is : List InstanceConfig) (config : BridgeConfig)
    → some_instance is ≡ true
    → all has_port is ≡ true
    → checked_ports g is (duplicate_port [] is) ≡ ok config
    → IsValid config.instances
checked_ports-IsValid g is config some_is ports h = elim (Option-cases (duplicate_port [] is)) [
  | inr (p, e) ↦ absurd (ground (arith, h, e))
  | inl e ↦
      let same : is ≡ config.instances = ground (arith, h, e) in
      subst IsValid same
        (record { nonempty = some_is; with_port = ports; apart = duplicate_port-distinct [] is e })
]

with_specs-IsValid :
    (g : GlobalConfig) (d : Option ℕ) (spec : Text) (specs : List Text) (config : BridgeConfig)
    → with_specs g (parse_specs d (spec ∷ specs)) ≡ ok config
    → IsValid config.instances
with_specs-IsValid g d spec specs config h = elim (result_cases (parse_specs d (spec ∷ specs))) [
  | inl (is, e) ↦
      checked_ports-IsValid g is config (parse_specs-some_instance d spec specs is e)
        (parse_specs-has_port d (spec ∷ specs) is e) (rw e at h)
  | inr (e, f) ↦ absurd (ground (arith, h, f))
]

override_instance-has_port :
    (cli : Cli) (i : InstanceConfig)
    → is_empty (normalized_or cli.stratum_port (codes ":5555")) ≡ false
    → has_port i ≡ true
    → has_port (override_instance cli i) ≡ true
unfolding override_instance
override_instance-has_port cli i named old = ground (arith, named, old)

-- There is an instance, and no two have the same port; each has one, if the flag for the port is not
-- blank.
pub record IsStartable (cli : Cli) (instances : List InstanceConfig) : Type 0 where
  pub nonempty : some_instance instances ≡ true
  pub apart : distinct instances ≡ true
  pub with_port :
      is_empty (normalized_or cli.stratum_port (codes ":5555")) ≡ false
      → all has_port instances ≡ true

IsValid-IsStartable : (cli : Cli) (is : List InstanceConfig) → IsValid is → IsStartable cli is
IsValid-IsStartable cli is v = record {
  nonempty = v.nonempty;
  apart = v.apart;
  with_port = λ h. v.with_port;
}

override_instances-IsStartable :
    (cli : Cli) (is : List InstanceConfig) (g : GlobalConfig) (config : BridgeConfig)
    → IsValid is
    → with_instances g (override_instances cli is) ≡ ok config
    → IsStartable cli config.instances
override_instances-IsStartable cli [] g config v h = absurd (ground (arith, v.nonempty))
override_instances-IsStartable cli (i ∷ []) g config v h =
    let same : override_instance cli i ∷ [] ≡ config.instances = ground (arith, h) in
    subst (IsStartable cli) same (record {
      nonempty = refl;
      apart =
          duplicate_port-distinct [] (override_instance cli i ∷ []) (unfold duplicate_port in refl);
      with_port =
          λ named. rw (override_instance-has_port cli i named (ground (arith, v.with_port))) refl;
    })
override_instances-IsStartable cli (i ∷ j ∷ is) g config v h =
    let same : i ∷ j ∷ is ≡ config.instances = ground (arith, h) in
    subst (IsStartable cli) same (IsValid-IsStartable cli (i ∷ j ∷ is) v)

by_instances-IsStartable :
    (cli : Cli) (old : BridgeConfig) (g : GlobalConfig) (specs : List Text) (config : BridgeConfig)
    → IsValid old.instances
    → by_instances cli old g specs ≡ ok config
    → IsStartable cli config.instances
by_instances-IsStartable cli old g [] config v h =
    override_instances-IsStartable cli old.instances g config v h
by_instances-IsStartable cli old g (spec ∷ specs) config v h =
    IsValid-IsStartable cli config.instances
      (with_specs-IsValid g cli.min_share_diff spec specs config (ground (arith, h)))

-- What was read from the file and what the flags make of it: a configuration that is accepted has an
-- instance, no two instances have the same port, and each has a port, if the flag for the port is not
-- blank.
pub apply_cli_overrides-from_yaml :
    (raw : BridgeConfigRaw) (cli : Cli) (read config : BridgeConfig)
    → from_yaml raw ≡ ok read
    → apply_cli_overrides read cli ≡ ok config
    → IsStartable cli config.instances
unfolding apply_cli_overrides
apply_cli_overrides-from_yaml raw cli read config hr h =
    by_instances-IsStartable cli read (override_global cli read.global) cli.instances config
      (from_yaml-IsValid raw read hr) h

-- A blank port flag is accepted, for a configuration with one instance, and leaves it without a port.
apply_cli_overrides_blank :
    (old : BridgeConfig) (i : InstanceConfig) (cli : Cli) (blank : Text)
    → old.instances ≡ i ∷ []
    → cli.instances ≡ []
    → cli.stratum_port ≡ some blank
    → normalize_port blank ≡ []
    → (config : BridgeConfig) × (apply_cli_overrides old cli ≡ ok config)
      × (all has_port config.instances ≡ false)
unfolding apply_cli_overrides override_instance
apply_cli_overrides_blank old i cli blank one no_specs named empty = (
  record { global = override_global cli old.global; instances = override_instance cli i ∷ [] },
  rw (no_specs, one) refl,
  rw (named, empty) refl,
)
