-- ===== src/Handlers/Wallet.antt =====
-- bridge/src/stratum/default_client.rs: the addresses of `mining.authorize`.
use rusty_kaspa_stratum.Shared.{
  ℕ, zero, suc, ◌≡◌, refl, Bool, true, not, ◌||◌, Option, none, some, List, [], ◌∷◌, ◌++◌, Text,
  codes, if◌then◌else◌, Result, ok, err, starts_with, strip_prefix, Bool-cases, inl, inr, ◌⊎◌, ◌==◌,
}

abbrev pub take : ℕ → Text → Text
take zero s = []
take (suc n) [] = []
take (suc n) (c ∷ s) = c ∷ take n s

abbrev pub drop : ℕ → Text → Text
drop zero s = s
drop (suc n) [] = []
drop (suc n) (c ∷ s) = drop n s

-- The texts between the occurrences of a character.
abbrev pub cons_first : ℕ → List Text → List Text
cons_first c [] = (c ∷ []) ∷ []
cons_first c (p ∷ parts) = (c ∷ p) ∷ parts

abbrev pub split : ℕ → Text → List Text
split sep [] = [] ∷ []
split sep (c ∷ s) = let parts = split sep s in if c == sep then [] ∷ parts else cons_first c parts

abbrev pub canxiuminer : Text
canxiuminer = codes "canxiuminer:"

module _ (to_lowercase : Text → Text) where
  abbrev without_0x : Text → Text
  without_0x addr =
      if starts_with addr (codes "0x")
      then drop 2 addr
      else if starts_with (to_lowercase addr) (codes "canxiuminer:0x")
      then take 12 addr ++ drop 14 addr
      else addr

  unfoldable pub process_canxium_address : Text → Text
  process_canxium_address address =
      let addr = without_0x address in
      if starts_with (to_lowercase addr) canxiuminer then addr else canxiuminer ++ addr

abbrev pub wallet_error : Text
wallet_error = codes "unable to coerce wallet to valid kaspa address"

module _ (is_address : Text → Bool) (find_wallet : Text → Option Text) where
  abbrev has_prefix : Text → Bool
  has_prefix input =
      starts_with input (codes "kaspa:")
      || starts_with input (codes "kaspatest:")
      || starts_with input (codes "kaspadev:")

  abbrev coerced : Option Text → Result Text Text
  coerced none = err wallet_error
  coerced (some wallet) = ok wallet

  -- The recursion of `clean_wallet`, on fuel.
  unfoldable pub clean_fuel : ℕ → Text → Option (Result Text Text)
  clean_fuel zero input = none
  clean_fuel (suc n) input =
      let again = clean_fuel n (codes "kaspa:" ++ input) in
      if is_address input
      then some (ok input)
      else if not (has_prefix input)
      then again
      else some (coerced (find_wallet input))

  -- A text without a prefix is given one, and then the recursion ends.
  unfoldable pub clean_wallet : Text → Option (Result Text Text)
  unfolding clean_fuel
  clean_wallet input = clean_fuel 2 input

  -- What a wallet is cleaned to: itself, itself with `kaspa:` in front, or what the regex finds in
  -- one of these.
  Cleans : Text → Text → Type 0
  Cleans input wallet =
      ((is_address wallet ≡ true) × ((wallet ≡ input) ⊎ (wallet ≡ codes "kaspa:" ++ input)))
      ⊎ ((find_wallet input ≡ some wallet) ⊎ (find_wallet (codes "kaspa:" ++ input) ≡ some wallet))

  coerced-cases :
      (o : Option Text)
      → (coerced o ≡ err wallet_error) ⊎ ((w : Text) × (coerced o ≡ ok w) × (o ≡ some w))
  coerced-cases none = inl refl
  coerced-cases (some w) = inr (w, refl, refl)

  -- Cleaning a wallet comes to an end, with the error or with a text that is an address, or that the
  -- regex finds: of the input, or of the input with `kaspa:` in front.
  clean_wallet-Cleans :
      (input : Text)
      → (clean_wallet input ≡ some (err wallet_error))
        ⊎ ((wallet : Text) × (clean_wallet input ≡ some (ok wallet)) × Cleans input wallet)
  unfolding clean_wallet clean_fuel Cleans starts_with strip_prefix
  clean_wallet-Cleans input = elim (Bool-cases (is_address input)) [
    | inl h ↦ inr (input, simp h refl, inl (h, inl refl))
    | inr h ↦ elim (Bool-cases (has_prefix input)) [
      | inl p ↦ elim (coerced-cases (find_wallet input)) [
        | inl e ↦ inl (simp (h, p, e) refl)
        | inr (w, e, f) ↦ inr (w, simp (h, p, e) refl, inr (inl f))
      ]
      | inr p ↦ elim (Bool-cases (is_address (codes "kaspa:" ++ input))) [
        | inl k ↦ inr (codes "kaspa:" ++ input, simp (h, p, k) refl, inl (k, inr refl))
        | inr k ↦ elim (coerced-cases (find_wallet (codes "kaspa:" ++ input))) [
          | inl e ↦ inl (simp (h, p, k, e) refl)
          | inr (w, e, f) ↦ inr (w, simp (h, p, k, e) refl, inr (inr f))
        ]
      ]
    ]
  ]
