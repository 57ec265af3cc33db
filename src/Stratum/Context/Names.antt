-- ===== src/Stratum/Context/Names.antt =====
-- The name of a worker that has given none.
use rusty_kaspa_stratum.Shared.{
  ℕ, ◌≡◌, refl, Bool, false, Option, none, some, ◌∷◌, ◌++◌, Text, trim, trim_start_matches,
  trim_end_matches, trim_matches, is_whitespace, is_empty, Bool-cases, inl, inr, codes, arith,
}
use rusty_kaspa_stratum.External.{External}
use rusty_kaspa_stratum.Numerals.Print.{to_string}
use rusty_kaspa_stratum.Stratum.Context.{
  StratumContext, connection_id, ensure_default_worker_name, effective_worker_name, default_name,
}

trim_end_kept :
    (p : ℕ → Bool) (c : ℕ) (s : Text) → p c ≡ false → is_empty (trim_end_matches p (c ∷ s)) ≡ false
unfolding trim_end_matches
trim_end_kept p c s h = ground (arith, h)

pub default_name-trim : (id : Option ℕ) (port : ℕ) → is_empty (trim (default_name id port)) ≡ false
unfolding trim trim_matches trim_start_matches is_whitespace
default_name-trim none port = trim_end_kept is_whitespace b'a' (codes "sic-" ++ to_string port) refl
default_name-trim (some id) port =
    trim_end_kept is_whitespace b'a' (codes "sic-" ++ to_string id) refl

module _ {x : External} where
  -- Asking for the worker name a second time changes nothing and gives the same name.
  pub effective_worker_name_twice :
      (ctx : StratumContext x)
      → effective_worker_name (effective_worker_name ctx).0 ≡ effective_worker_name ctx
  unfolding effective_worker_name ensure_default_worker_name
  effective_worker_name_twice ctx = elim (Bool-cases (is_empty (trim ctx.worker_name))) [
    | inl blank ↦ rw (blank, default_name-trim (connection_id ctx) ctx.remote_port)
    | inr named ↦ rw (named, named)
  ]
