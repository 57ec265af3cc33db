-- ===== src/Stratum/Handshake/Extranonces.antt =====
-- Which extranonces miners get.
use rusty_kaspa_stratum.Shared.{
  ℕ, suc, ◌+◌, ◌%◌, ◌≤◌, ◌<◌, ◌≡◌, ◌≢◌, sym, ap, ◌∙◌, true, false, List, [], ◌∷◌, Text, arith,
  length, Bool-cases, inl, inr,
}
use rusty_kaspa_stratum.External.{External}
use rusty_kaspa_stratum.Numerals.Print.{hex_digits}
use rusty_kaspa_stratum.Numerals.Hex.{hex_digits_injective}
use rusty_kaspa_stratum.Stratum.Context.{StratumContext}
use rusty_kaspa_stratum.Stratum.Handshake.{next_extranonce, is_bitmain, assign_extranonce_for_miner}

next_extranonce_lem : (g : ℕ) → g < 65536 → next_extranonce g ≡ (g + 1) % 65536
unfolding next_extranonce
next_extranonce_lem g h = ground arith

module _ (to_lowercase : Text → Text) {x : External} where
  -- The counter after the miners of a list have subscribed, each on its connection.
  pub after_miners : ℕ → List (StratumContext x × Text) → ℕ
  after_miners g [] = g
  after_miners g ((ctx, app) ∷ rest) =
      after_miners (assign_extranonce_for_miner to_lowercase g ctx app).0 rest

  assign_miner :
      (g : ℕ) (ctx : StratumContext x) (app : Text)
      → is_bitmain to_lowercase app ≡ false
      → ((assign_extranonce_for_miner to_lowercase g ctx app).0 ≡ next_extranonce g)
        × ((assign_extranonce_for_miner to_lowercase g ctx app).1.extranonce
            ≡ hex_digits 4 (next_extranonce g))
  unfolding assign_extranonce_for_miner
  assign_miner g ctx app h = (rw h, rw h)

  assign_bitmain :
      (g : ℕ) (ctx : StratumContext x) (app : Text)
      → is_bitmain to_lowercase app ≡ true
      → (assign_extranonce_for_miner to_lowercase g ctx app).0 ≡ g
  unfolding assign_extranonce_for_miner
  assign_bitmain g ctx app h = rw h

  -- The counter moves on by at most one for each miner.
  counter-after_miners :
      (g : ℕ) (l : List (StratumContext x × Text))
      → g < 65536
      → (n : ℕ) × (n ≤ length l) × (after_miners g l ≡ (g + n) % 65536)
  unfolding after_miners
  counter-after_miners g [] h = (0, omega arith, omega arith)
  counter-after_miners g ((ctx, app) ∷ rest) h = elim (Bool-cases (is_bitmain to_lowercase app)) [
    | inl b ↦
        let (n, le, e) = counter-after_miners g rest h in
        (n, omega (arith, le), ap (λ c. after_miners c rest) (assign_bitmain g ctx app b) ∙ e)
    | inr other ↦
        let step = (assign_miner g ctx app other).0 ∙ next_extranonce_lem g h in
        let (n, le, e) = counter-after_miners ((g + 1) % 65536) rest (omega arith) in
        (suc n, omega (arith, le), ap (λ c. after_miners c rest) step ∙ e ∙ omega arith)
  ]

  -- Two miners that are not Bitmain's get different extranonces, if fewer than 65535 miners
  -- subscribe between them and the counter starts in its range.
  pub assign_extranonce_distinct :
      (g : ℕ) (ctx ctx' : StratumContext x) (app app' : Text)
      (between : List (StratumContext x × Text))
      → g < 65536
      → is_bitmain to_lowercase app ≡ false
      → is_bitmain to_lowercase app' ≡ false
      → length between < 65535
      → (assign_extranonce_for_miner to_lowercase g ctx app).1.extranonce
        ≢ (assign_extranonce_for_miner to_lowercase
            (after_miners (assign_extranonce_for_miner to_lowercase g ctx app).0 between)
            ctx'
            app').1.extranonce
  assign_extranonce_distinct g ctx ctx' app app' between h p q few e =
      let first = assign_miner g ctx app p in
      let v = next_extranonce_lem g h in
      let low : (g + 1) % 65536 < 65536 = omega arith in
      let (n, le, moved) = counter-after_miners ((g + 1) % 65536) between low in
      let here = ap (λ c. after_miners c between) (first.0 ∙ v) ∙ moved in
      let c = after_miners (assign_extranonce_for_miner to_lowercase g ctx app).0 between in
      let second = assign_miner c ctx' app' q in
      let c_low : c < 65536 = omega (arith, here) in
      let w = next_extranonce_lem c c_low in
      let same =
        hex_digits_injective 4 (next_extranonce g) (next_extranonce c) (omega (arith, v))
          (omega (arith, w)) (sym first.1 ∙ e ∙ second.1) in
      absurd (omega (arith, same, v, w, here, le, few))
