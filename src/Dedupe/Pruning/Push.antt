-- ===== src/Dedupe/Pruning/Push.antt =====
-- A new key at the back of the queue, with its entry.
use rusty_kaspa_stratum.Shared.{
  ℕ, ◌≤◌, ◌≡◌, refl, false, List, [], ◌∷◌, ◌++◌, some, arith, HashMap, get, insert, get-insert,
  contains, Text, text_key, text_eq_iff, ◌||◌, text_eq,
}
use rusty_kaspa_stratum.Dedupe.Pruning.Bounds.{Covered, Exact, Distinct}
use rusty_kaspa_stratum.Dedupe.Pruning.Expiry.{Ordered}

pub contains-push :
    (order : List Text) (key k : Text)
    → contains (order ++ key ∷ []) k ≡ (contains order k || text_eq key k)
contains-push [] key k = ground arith
contains-push (x ∷ order) key k = ground (arith, contains-push order key k)

pub Distinct-push :
    (order : List Text) (key : Text)
    → contains order key ≡ false
    → Distinct order
    → Distinct (order ++ key ∷ [])
Distinct-push [] key h d = (refl, tt)
Distinct-push (x ∷ order) key h d = ground (
  arith,
  contains-push order key x,
  text_eq_iff key x,
  text_eq_iff x key,
  Distinct-push order key,
)

module _ {V : Type 0} (order : List Text) (m : HashMap Text V) (key : Text) (e : V) where
  pub Exact-push : Exact order m → Exact (order ++ key ∷ []) (insert key e m)
  Exact-push c k =
      ground (arith, c k, contains-push order key k, get-insert key k e m, text_eq_iff key k)

  pub Covered-push : Covered order m → Covered (order ++ key ∷ []) (insert key e m)
  Covered-push c k h =
      ground (arith, c k, contains-push order key k, get-insert key k e m, text_eq_iff key k)

module _ {V : Type 0} (ts : V → ℕ) where
  pub Ordered-push :
      (order : List Text) (m : HashMap Text V) (key : Text) (e : V)
      → contains order key ≡ false
      → ((k : Text) (d : V) → get k m ≡ some d → ts d ≤ ts e)
      → Ordered ts order m
      → Ordered ts (order ++ key ∷ []) (insert key e m)
  Ordered-push [] m key e new last o = (λ a b j ha c hb. ground arith, tt)
  Ordered-push (x ∷ order) m key e new last o = (
    λ a b j ha c hb. ground (
      arith,
      last x a,
      o.0 a b j,
      get-insert key x e m,
      get-insert key j e m,
      contains-push order key j,
      text_eq_iff key x,
      text_eq_iff x key,
      text_eq_iff key j,
    ),
    Ordered-push order m key e (ground arith) last o.1,
  )
