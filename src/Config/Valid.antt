-- ===== src/Config/Valid.antt =====
-- What the instances of a configuration are, that the bridge can start with.
pub mod Specs
pub mod Overrides
use rusty_kaspa_stratum.Shared.{
  ℕ, zero, suc, ◌+◌, ◌≡◌, refl, Bool, true, false, not, ◌&&◌, ◌||◌, Option, none, some, List, [],
  ◌∷◌, Text, if◌then◌else◌, is_empty, Result, ok, err, contains, text_key, unwrap_or, all, map,
  arith, text_eq, text_eq_iff, inl, inr, Bool-cases, Option-cases, ap, codes, ◌⊎◌, subst,
}
use rusty_kaspa_stratum.Config.{
  InstanceConfig, GlobalConfig, BridgeConfig, BridgeConfigRaw, check_ports, missing_port, not_empty,
  single_instance, instances_of, duplicate_port, finish, from_yaml, without_duplicates,
  deserialize_optional_port, non_empty, default_instance,
}
use rusty_kaspa_stratum.Config.Ports.{normalize_port}

abbrev pub has_port : InstanceConfig → Bool
has_port i = not (is_empty i.stratum_port)

abbrev pub port_of : InstanceConfig → Text
port_of i = i.stratum_port

-- No port stands twice.
unfoldable pub distinct : List InstanceConfig → Bool
distinct [] = true
distinct (i ∷ is) = not (contains (map port_of is) i.stratum_port) && distinct is

abbrev pub some_instance : List InstanceConfig → Bool
some_instance [] = false
some_instance (i ∷ is) = true

-- There is an instance, each has a port, and no two have the same.
pub record IsValid (instances : List InstanceConfig) : Type 0 where
  pub nonempty : some_instance instances ≡ true
  pub with_port : all has_port instances ≡ true
  pub apart : distinct instances ≡ true

contains_cons_true :
    (ports : List Text) (p q : Text) → contains ports p ≡ true → contains (q ∷ ports) p ≡ true
contains_cons_true ports p q h = ground (arith, h)

head_fresh :
    (ports : List Text) (i : InstanceConfig) (is : List InstanceConfig)
    → duplicate_port ports (i ∷ is) ≡ none
    → (contains ports i.stratum_port ≡ false) × (duplicate_port (i.stratum_port ∷ ports) is ≡ none)
unfolding duplicate_port
head_fresh ports i is h = ground (arith, h)

fresh :
    (ports : List Text) (is : List InstanceConfig) (p : Text)
    → duplicate_port ports is ≡ none
    → contains ports p ≡ true
    → contains (map port_of is) p ≡ false
fresh ports [] p h c = refl
fresh ports (i ∷ is) p h c =
    let (new, rest) = head_fresh ports i is h in
    elim (Bool-cases (text_eq i.stratum_port p)) [
      | inl same ↦
          let e : i.stratum_port ≡ p = (text_eq_iff i.stratum_port p).0 same in
          absurd (ground (arith, c, new, ap (contains ports) e))
      | inr other ↦
          rw other
            (fresh (i.stratum_port ∷ ports) is p rest (contains_cons_true ports p i.stratum_port c))
    ]

pub duplicate_port-distinct :
    (ports : List Text) (is : List InstanceConfig)
    → duplicate_port ports is ≡ none
    → distinct is ≡ true
unfolding distinct
duplicate_port-distinct ports [] h = refl
duplicate_port-distinct ports (i ∷ is) h =
    let (new, rest) = head_fresh ports i is h in
    ground (
      arith,
      duplicate_port-distinct (i.stratum_port ∷ ports) is rest,
      fresh (i.stratum_port ∷ ports) is i.stratum_port rest
          (ground (arith, text_eq_iff i.stratum_port i.stratum_port)),
    )

check_ports-has_port :
    (idx : ℕ) (is : List InstanceConfig)
    → ((check_ports idx is ≡ ok is) × (all has_port is ≡ true))
      ⊎ ((e : Text) × (check_ports idx is ≡ err e))
unfolding check_ports
check_ports-has_port idx [] = inl (refl, refl)
check_ports-has_port idx (i ∷ is) = elim (Bool-cases (is_empty i.stratum_port)) [
  | inl missing ↦ inr (missing_port idx, rw missing refl)
  | inr present ↦ elim (check_ports-has_port (idx + 1) is) [
    | inl (e, ports) ↦ inl (rw (present, e) refl, rw (present, ports) refl)
    | inr (message, e) ↦ inr (message, rw (present, e) refl)
  ]
]

non_empty_or : (s d : Text) → is_empty d ≡ false → is_empty (unwrap_or (non_empty s) d) ≡ false
non_empty_or [] d h = h
non_empty_or (c ∷ s) d h = refl

or_default-has_port :
    (port : Option Text)
    → not (is_empty (unwrap_or (deserialize_optional_port port) default_instance.stratum_port))
      ≡ true
unfolding deserialize_optional_port
or_default-has_port none = refl
or_default-has_port (some s) =
    rw (non_empty_or (normalize_port s) default_instance.stratum_port refl) refl

single_instance-has_port : (raw : BridgeConfigRaw) → has_port (single_instance raw) ≡ true
unfolding single_instance deserialize_optional_port
single_instance-has_port raw = or_default-has_port raw.stratum_port

-- What is left after the ports were tested.
finish-IsValid :
    (message : Text) (global : GlobalConfig) (is : List InstanceConfig) (config : BridgeConfig)
    → some_instance is ≡ true
    → all has_port is ≡ true
    → without_duplicates message global is (duplicate_port [] is) ≡ ok config
    → IsValid config.instances
finish-IsValid message global is config some_is ports h =
    elim (Option-cases (duplicate_port [] is)) [
      | inr (port, e) ↦ absurd (ground (arith, h, e))
      | inl e ↦
          let same : is ≡ config.instances = ground (arith, h, e) in
          subst IsValid same (record {
            nonempty = some_is;
            with_port = ports;
            apart = duplicate_port-distinct [] is e;
          })
    ]

from-IsValid :
    (raw : BridgeConfigRaw) (instances : Option (List InstanceConfig)) (config : BridgeConfig)
    → finish raw.global (instances_of raw instances) ≡ ok config
    → IsValid config.instances
from-IsValid raw none config h =
    finish-IsValid (codes "Duplicate stratum_port: ") raw.global (single_instance raw ∷ []) config
      refl (rw (single_instance-has_port raw) refl) h
from-IsValid raw (some []) config h = absurd (ground (arith, h))
from-IsValid raw (some (i ∷ is)) config h = elim (check_ports-has_port 0 (i ∷ is)) [
  | inl (e, ports) ↦
      finish-IsValid (codes "Duplicate stratum_port: ") raw.global (i ∷ is) config refl ports
        (rw e at h)
  | inr (message, e) ↦ absurd (ground (arith, h, e))
]

-- A configuration that was read has an instance, each of its instances has a port, and no two of them
-- have the same, in the single-instance mode too.
pub from_yaml-IsValid :
    (raw : BridgeConfigRaw) (config : BridgeConfig)
    → from_yaml raw ≡ ok config
    → IsValid config.instances
unfolding from_yaml
from_yaml-IsValid raw config h = from-IsValid raw raw.instances config h
