-- ===== src/Shares/Vardiff/Bounds.antt =====
-- How far the difficulty of a worker goes down, and when it stays.
use rusty_kaspa_stratum.Shared.{
  Bool, true, false, not, ◌||◌, some, ◌≡◌, arith, Bool-cases, inl, inr,
}
use rusty_kaspa_stratum.Shares.Vardiff.{
  F64, at_least_one, clamped, when_changed, vardiff_pow2_clamp_towards, without_shares, by_ratio,
  vardiff_compute_next_diff, clamp,
}

module _ {F : Type 0} (f : F64 F) (one_lt : f.lt f.one f.one ≡ false) where
  at_least_one_bounded : (next : F) → f.lt (at_least_one f next) f.one ≡ false
  at_least_one_bounded next = elim (Bool-cases (f.lt next f.one)) [
    | inl h ↦ rw h one_lt
    | inr h ↦ rw h h
  ]

  vardiff_pow2_clamp_towards_bounded :
      (current next : F) → f.lt (vardiff_pow2_clamp_towards f current next) f.one ≡ false
  unfolding vardiff_pow2_clamp_towards
  vardiff_pow2_clamp_towards_bounded current next =
      elim (Bool-cases (not (f.is_finite next) || f.le next f.zero)) [
        | inl h ↦ rw h one_lt
        | inr h ↦ rw h (at_least_one_bounded _)
      ]

  clamped_bounded :
      (clamp_pow2 : Bool) (current next : F)
      → f.lt next f.one ≡ false
      → f.lt (clamped f clamp_pow2 current next) f.one ≡ false
  clamped_bounded true current next h = vardiff_pow2_clamp_towards_bounded current next
  clamped_bounded false current next h = h

  when_changed_bounded :
      (current next result : F)
      → f.lt next f.one ≡ false
      → when_changed f current next ≡ some result
      → f.lt result f.one ≡ false
  when_changed_bounded current next result h e =
      elim (Bool-cases (f.lt f.epsilon (f.abs (f.sub next current)))) [
        | inl c ↦ ground (arith, h, e, c)
        | inr c ↦ ground (arith, e, c)
      ]

  without_shares_bounded :
      (clamp_pow2 : Bool) (current result : F)
      → without_shares f clamp_pow2 current ≡ some result
      → f.lt result f.one ≡ false
  unfolding without_shares
  without_shares_bounded clamp_pow2 current result e =
      when_changed_bounded current _ result
        (clamped_bounded clamp_pow2 current _ (at_least_one_bounded _)) e

  by_ratio_bounded :
      (clamp_pow2 : Bool) (current ratio result : F)
      → by_ratio f clamp_pow2 current ratio ≡ some result
      → f.lt result f.one ≡ false
  unfolding by_ratio
  by_ratio_bounded clamp_pow2 current ratio result e =
      let step = clamp f f.vardiff_max_step_down f.vardiff_max_step_up (f.sqrt ratio) in
      let next = clamped f clamp_pow2 current (at_least_one f (f.mul current step)) in
      when_changed_bounded current next result
        (clamped_bounded clamp_pow2 current _ (at_least_one_bounded _)) (ground (arith, e))

  -- Whatever was measured, the difficulty that is proposed is not below one; all that is used of `f64`
  -- is that one is not less than itself.
  pub vardiff_compute_next_diff_bounded :
      (current shares elapsed_secs expected_spm : F) (clamp_pow2 : Bool) (next : F)
      → vardiff_compute_next_diff f current shares elapsed_secs expected_spm clamp_pow2 ≡ some next
      → f.lt next f.one ≡ false
  unfolding vardiff_compute_next_diff
  vardiff_compute_next_diff_bounded current shares elapsed_secs expected_spm clamp_pow2 next e =
      let ratio = f.div (f.mul (f.div shares elapsed_secs) f.sixty) (f.max expected_spm f.one) in
      ground (
        arith,
        e,
        without_shares_bounded clamp_pow2 current next,
        by_ratio_bounded clamp_pow2 current ratio next,
      )
