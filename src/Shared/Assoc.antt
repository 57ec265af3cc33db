-- ===== src/Shared/Assoc.antt =====
-- `std::collections::HashMap`: an association list, at most one pair for a key. The program never
-- reads the order of the pairs, and no statement depends on it.
use Prim.Native.Nat.{◌+◌, ◌≤◌, ◌<◌}
use mathlib.Core.Path.{◌≡◌, refl}
use mathlib.Core.Bool.{Bool, true, false}
use mathlib.Core.List.{List, [], ◌∷◌}
use mathlib.Core.Option.{Option, none, some}
use native.Mathlib.Omega.{arith}
use rusty_kaspa_stratum.Shared.Tests.{Eq, if◌then◌else◌}
use rusty_kaspa_stratum.Shared.Lists.{length}

abbrev pub HashMap {ℓ} : Type ℓ → Type ℓ → Type ℓ
HashMap K V = List (K × V)

abbrev pub is_some {ℓ} : {A : Type ℓ} → Option A → Bool
is_some none = false
is_some (some v) = true

abbrev pub unwrap_or {ℓ} : {A : Type ℓ} → Option A → A → A
unwrap_or none d = d
unwrap_or (some a) d = a

module _ {ℓ} {K V : Type ℓ} ⦃e : Eq K⦄ where
  unfoldable pub get : K → HashMap K V → Option V
  get k [] = none
  get k ((j, v) ∷ m) = if e.beq j k then some v else get k m

  unfoldable pub insert : K → V → HashMap K V → HashMap K V
  insert k v [] = (k, v) ∷ []
  insert k v ((j, w) ∷ m) = if e.beq j k then (k, v) ∷ m else (j, w) ∷ insert k v m

  unfoldable pub remove : K → HashMap K V → HashMap K V
  remove k [] = []
  remove k ((j, w) ∷ m) = let rest = remove k m in if e.beq j k then rest else (j, w) ∷ rest

  abbrev pub contains_key : K → HashMap K V → Bool
  contains_key k m = is_some (get k m)

  pub get-empty : (k : K) → get k [] ≡ none
  unfolding get
  get-empty k = refl

  pub get-insert :
      (k j : K) (v : V) (m : HashMap K V)
      → get j (insert k v m) ≡ (if e.beq k j then some v else get j m)
  unfolding get insert
  get-insert k j v [] = refl
  get-insert k j v ((i, w) ∷ m) =
      ground (arith, e.beq_iff k j, e.beq_iff i k, e.beq_iff i j, get-insert k j v m)

  pub get-insert_self : (k : K) (v : V) (m : HashMap K V) → get k (insert k v m) ≡ some v
  get-insert_self k v m = ground (arith, get-insert k k v m, e.beq_iff k k)

  pub get-remove :
      (k j : K) (m : HashMap K V) → get j (remove k m) ≡ (if e.beq k j then none else get j m)
  unfolding get remove
  get-remove k j [] = ground arith
  get-remove k j ((i, w) ∷ m) =
      ground (arith, e.beq_iff k j, e.beq_iff i k, e.beq_iff i j, get-remove k j m)

  pub length-insert_le : (k : K) (v : V) (m : HashMap K V) → length (insert k v m) ≤ length m + 1
  unfolding insert
  length-insert_le k v [] = omega arith
  length-insert_le k v ((i, w) ∷ m) = ground (arith, length-insert_le k v m)

  pub length-insert_present :
      (k : K) (v w : V) (m : HashMap K V) → get k m ≡ some w → length (insert k v m) ≡ length m
  unfolding insert get
  length-insert_present k v w [] h = ground arith
  length-insert_present k v w ((i, u) ∷ m) h = ground (arith, length-insert_present k v w m)

  pub length-remove_le : (k : K) (m : HashMap K V) → length (remove k m) ≤ length m
  unfolding remove
  length-remove_le k [] = omega arith
  length-remove_le k ((i, w) ∷ m) = ground (arith, length-remove_le k m)

  pub length-remove_lt :
      (k : K) (v : V) (m : HashMap K V) → get k m ≡ some v → length (remove k m) < length m
  unfolding remove get
  length-remove_lt k v [] h = ground arith
  length-remove_lt k v ((i, w) ∷ m) h = ground (arith, length-remove_le k m, length-remove_lt k v m)

  -- A map in which no key is found is empty.
  pub empty_of_none : (m : HashMap K V) → ((k : K) → get k m ≡ none) → m ≡ []
  unfolding get
  empty_of_none [] h = refl
  empty_of_none ((i, w) ∷ m) h = ground (arith, h i, e.beq_iff i i)

  pub ruleset map_laws = (get-insert, get-remove)

module _ {ℓ} {K V : Type ℓ} ⦃e : Eq K⦄ where
  -- What makes an association list a map: no key stands twice.
  abbrev pub IsMap : HashMap K V → Type ℓ
  IsMap [] = Unit
  IsMap ((k, v) ∷ m) = (get k m ≡ none) × IsMap m

  pub insert-IsMap : (k : K) (v : V) (m : HashMap K V) → IsMap m → IsMap (insert k v m)
  unfolding insert
  insert-IsMap k v [] h = (get-empty k, tt)
  insert-IsMap k v ((j, w) ∷ m) h =
      ground (arith, h, insert-IsMap k v m h.1, get-insert k j v m, e.beq_iff j k, e.beq_iff k j)

  pub remove-IsMap : (k : K) (m : HashMap K V) → IsMap m → IsMap (remove k m)
  unfolding remove
  remove-IsMap k [] h = tt
  remove-IsMap k ((j, w) ∷ m) h = ground (arith, h, remove-IsMap k m h.1, get-remove k j m)

  pub remove_absent : (k : K) (m : HashMap K V) → get k m ≡ none → remove k m ≡ m
  unfolding get remove
  remove_absent k [] h = refl
  remove_absent k ((j, w) ∷ m) h = ground (arith, remove_absent k m, e.beq_iff j k)

  -- A map with a key has one entry more than without it.
  pub length-remove :
      (k : K) (v : V) (m : HashMap K V)
      → IsMap m
      → get k m ≡ some v
      → length (remove k m) + 1 ≡ length m
  unfolding get remove
  length-remove k v [] h f = ground arith
  length-remove k v ((j, w) ∷ m) h f =
      ground (arith, h, length-remove k v m h.1, remove_absent k m, e.beq_iff j k)
