-- ===== src/Http/StatsJson/Shown/Keys.antt =====
-- The key of a worker and its parts.
use rusty_kaspa_stratum.Shared.{
  ◌≡◌, refl, ap, true, Bool, not, some, [], ◌∷◌, ◌++◌, Text, arith, all, ◌==◌, Bool-cases, inl, inr,
}
use rusty_kaspa_stratum.Http.StatsJson.{worker_map_key}
use rusty_kaspa_stratum.Http.StatsJson.Shown.{split_colon, key_parts, cons_before}

abbrev pub no_colon : Text → Bool
no_colon = all (λ c. not (c == b':'))

split_colon-append : (s t : Text) → no_colon s ≡ true → split_colon (s ++ b':' ∷ t) ≡ (s, some t)
unfolding split_colon
split_colon-append [] t h = refl
split_colon-append (c ∷ s) t h = elim (Bool-cases (c == b':')) [
  | inl e ↦ absurd (ground (arith, h, e))
  | inr e ↦ simp e (ap (cons_before c) (split_colon-append s t (ground (arith, h, e))))
]

-- The key of a worker is split into its instance and its wallet, whatever the wallet is, where the
-- names of the instance and of the worker have no colon.
pub key_parts-worker_map_key :
    (id worker wallet : Text)
    → no_colon id ≡ true
    → no_colon worker ≡ true
    → key_parts (worker_map_key id worker wallet) ≡ (id, wallet)
unfolding key_parts worker_map_key
key_parts-worker_map_key id worker wallet h e =
    simp (split_colon-append id (worker ++ b':' ∷ wallet) h, split_colon-append worker wallet e)
      refl
