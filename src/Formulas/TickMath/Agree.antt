-- ===== src/Formulas/TickMath/Agree.antt =====
-- getSqrtRatioAtTickU256Compute beside getSqrtRatioAtTick.
use native.Mathlib.Nat.{mod-eq_of_lt, mul-le-mul, div-le_self}
use defi_toolbox_avalanche.Common.{
  ℕ, ◌+◌, ◌-◌, ◌*◌, ◌/◌, ◌^◌, ◌≤◌, ◌<◌, ◌≡◌, refl, ap, ◌∙◌, some, List, [], ◌∷◌, arith, Bool-cases,
  inl, inr, if◌then◌else◌,
}
use defi_toolbox_avalanche.Common.Int.{ℤ, nat_abs}
use defi_toolbox_avalanche.Uint256.{Uint256, IsUint256, word}
use defi_toolbox_avalanche.Formulas.MulDiv.{◌>>=◌, big_div}
use defi_toolbox_avalanche.Formulas.MulDiv.Ceiling.{big_div-some}
use defi_toolbox_avalanche.Formulas.TickMath.{
  bit_set, is_positive, magics, max_uint256, scale, round_ratio, start_ratio,
  get_sqrt_ratio_at_tick, tick_magics_u256, tick_bits, rest, first, scale_u256, round_ratio_u256,
  get_sqrt_ratio_at_tick_u256_compute,
}
use defi_toolbox_avalanche.Formulas.TickMath.Bounds.{
  AreFactors, magics-AreFactors, scaled, scaled-le, start_ratio_bounds, ratio_bounds,
}

-- Two arrays read side by side.
abbrev side_by_side : List ℕ → List ℕ → List (ℕ × ℕ)
side_by_side [] ms = []
side_by_side (bit ∷ bits) [] = []
side_by_side (bit ∷ bits) (m ∷ ms) = (bit, m) ∷ side_by_side bits ms

-- The two arrays hold the table of the other version.
same_table : side_by_side (rest tick_bits) (rest tick_magics_u256) ≡ magics
same_table = refl

product_fits : (r m : ℕ) → r ≤ 2 ^ 128 → m < 2 ^ 128 → r * m < word
product_fits r m hr hm =
    let top : r * m ≤ 2 ^ 128 * (2 ^ 128 - 1) = mul-le-mul {m₂ = 2 ^ 128 - 1} hr (omega arith) in
    omega arith

module _ (u : Uint256) (h : IsUint256 u) where
  step_agrees :
      (a bit m r : ℕ)
      → m < 2 ^ 128
      → r ≤ 2 ^ 128
      → (if bit_set a bit then u.rsh (u.mul r m) 128 else r) ≡ scaled a bit m r
  step_agrees a bit m r hm hr =
      rw (h.mul_lem r m, mod-eq_of_lt (product_fits r m hr hm), h.rsh_lem (r * m) 128)

  scale_u256_agrees :
      (bits ms : List ℕ) (a r : ℕ)
      → AreFactors (side_by_side bits ms)
      → r ≤ 2 ^ 128
      → scale_u256 u bits ms a r ≡ scale (side_by_side bits ms) a r
  unfolding scale_u256 scale
  scale_u256_agrees [] ms a r f hr = refl
  scale_u256_agrees (bit ∷ bits) [] a r f hr = refl
  scale_u256_agrees (bit ∷ bits) (m ∷ ms) a r f hr =
      ap (scale_u256 u bits ms a) (step_agrees a bit m r f.0 hr)
      ∙ scale_u256_agrees bits ms a (scaled a bit m r) f.1 (omega (arith, scaled-le a bit m r f.0))

  round_ratio_u256_agrees : (r : ℕ) → r < word → round_ratio_u256 u r ≡ round_ratio r
  unfolding round_ratio_u256 round_ratio
  round_ratio_u256_agrees r hr =
      rw (h.and_of-mask r 32, h.rsh_lem r 32, h.add_lem (r / 2 ^ 32) 1)
        (ground (arith, mod-eq_of_lt {n = r / 2 ^ 32 + 1} {m = word}))

  start_agrees :
      (a : ℕ) → (if bit_set a 0x1 then first tick_magics_u256 else u.lsh 1 128) ≡ start_ratio a
  unfolding start_ratio
  start_agrees a = rw (h.lsh_lem 1 128)

  ratio_agrees :
      (a : ℕ)
      → scale_u256 u (rest tick_bits) (rest tick_magics_u256) a (start_ratio a)
        ≡ scale magics a (start_ratio a)
  ratio_agrees a =
      scale_u256_agrees (rest tick_bits) (rest tick_magics_u256) a (start_ratio a) magics-AreFactors
        (start_ratio_bounds a).1

  last_step :
      (tick : ℤ) (ratio : ℕ)
      → 0 < ratio
      → ratio < word
      → ((if is_positive tick then big_div max_uint256 ratio else some ratio)
          >>= (λ r. some (round_ratio r)))
        ≡ some (round_ratio_u256 u (if is_positive tick then u.div max_uint256 ratio else ratio))
  last_step tick ratio low high = elim (Bool-cases (is_positive tick)) [
    | inl up ↦ rw (
      up,
      big_div-some max_uint256 ratio low,
      h.div_lem max_uint256 ratio,
      round_ratio_u256_agrees (max_uint256 / ratio) (omega (arith, div-le_self max_uint256 ratio)),
    )
    | inr down ↦ rw (down, round_ratio_u256_agrees ratio high)
  ]

  -- For every tick getSqrtRatioAtTick does not panic, and getSqrtRatioAtTickU256Compute gives the
  -- same square-root price, although its 256-bit arithmetic wraps.
  pub get_sqrt_ratio_at_tick_u256_agrees :
      (tick : ℤ) → get_sqrt_ratio_at_tick tick ≡ some (get_sqrt_ratio_at_tick_u256_compute u tick)
  unfolding get_sqrt_ratio_at_tick get_sqrt_ratio_at_tick_u256_compute
  get_sqrt_ratio_at_tick_u256_agrees tick =
      let (low, high) = ratio_bounds (nat_abs tick) in
      rw (start_agrees (nat_abs tick), ratio_agrees (nat_abs tick))
        (last_step tick (scale magics (nat_abs tick) (start_ratio (nat_abs tick))) (omega arith)
          (omega arith))
