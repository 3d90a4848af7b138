-- ===== src/Formulas/MulDiv/Agree.antt =====
-- The division helpers of formulas/shared_u256.go beside those of formulas/shared.go.
use native.Mathlib.Nat.{mod-eq_of_lt}
use defi_toolbox_avalanche.Common.{
  ℕ, ◌+◌, ◌*◌, ◌/◌, ◌%◌, ◌^◌, ◌≤◌, ◌<◌, ◌≡◌, ◌≢◌, ◌∙◌, some, arith, ◌==◌, if◌then◌else◌,
}
use defi_toolbox_avalanche.Uint256.{Uint256, IsUint256, word}
use defi_toolbox_avalanche.Formulas.MulDiv.{
  mul_div, mul_div_rounding_up, unsafe_div_rounding_up, mul_div_u256, mul_div_rounding_up_u256,
  unsafe_div_rounding_up_u256,
}

module _ (u : Uint256) (h : IsUint256 u) where
  -- For a positive denominator, where the quotient fits in 256 bits, mulDivU256 gives what mulDiv
  -- gives, however large the product.
  pub mul_div_u256_agrees :
      (a b d : ℕ) → 0 < d → a * b / d < word → mul_div a b d ≡ some (mul_div_u256 u a b d)
  unfolding mul_div mul_div_u256
  mul_div_u256_agrees a b d pos fits = ground (arith, h.mul_div_lem a b d, mod-eq_of_lt fits)

  -- The rounding step in words: the remainder of the wrapped product decides it.
  pub mul_div_rounding_up_u256_lem :
      (a b d : ℕ)
      → 0 < d
      → a * b / d + 1 < word
      → mul_div_rounding_up_u256 u a b d
        ≡ (if (a * b % word % d) == 0 then a * b / d else a * b / d + 1)
  unfolding mul_div_rounding_up_u256
  mul_div_rounding_up_u256_lem a b d pos fits =
      let quotient : u.mul_div a b d ≡ a * b / d =
        h.mul_div_lem a b d ∙ mod-eq_of_lt (omega arith) in
      rw (quotient, h.mul_lem a b, h.mod_of_lem (a * b % word) d pos, h.add_lem, mod-eq_of_lt fits)

  -- Rounding up agrees where the remainder of the wrapped product vanishes exactly when the true
  -- remainder does.
  mul_div_rounding_up_agree :
      (a b d : ℕ)
      → 0 < d
      → a * b / d + 1 < word
      → ((a * b % word % d) == 0) ≡ ((a * b % d) == 0)
      → mul_div_rounding_up a b d ≡ some (mul_div_rounding_up_u256 u a b d)
  unfolding mul_div_rounding_up
  mul_div_rounding_up_agree a b d pos fits same =
      ground (arith, mul_div_rounding_up_u256_lem a b d pos fits)

  -- For a positive denominator, where the product and one more than the quotient fit in 256 bits,
  -- mulDivRoundingUpU256 gives what mulDivRoundingUp gives.
  pub mul_div_rounding_up_u256_agrees :
      (a b d : ℕ)
      → 0 < d
      → a * b / d + 1 < word
      → a * b < word
      → mul_div_rounding_up a b d ≡ some (mul_div_rounding_up_u256 u a b d)
  mul_div_rounding_up_u256_agrees a b d pos fits small =
      mul_div_rounding_up_agree a b d pos fits (rw (mod-eq_of_lt small))

  -- For the denominator 2^96, where one more than the quotient fits in 256 bits,
  -- mulDivRoundingUpU256 gives what mulDivRoundingUp gives, however large the product.
  pub mul_div_rounding_up_u256_agrees_q96 :
      (a b : ℕ)
      → a * b / 2 ^ 96 + 1 < word
      → mul_div_rounding_up a b (2 ^ 96) ≡ some (mul_div_rounding_up_u256 u a b (2 ^ 96))
  mul_div_rounding_up_u256_agrees_q96 a b fits =
      mul_div_rounding_up_agree a b (2 ^ 96) (omega arith) fits
        (let nested : a * b % word % 2 ^ 96 ≡ a * b % 2 ^ 96 = omega arith in rw nested)

  -- Where the product divides exactly but the product modulo 2^256 does not, for a positive
  -- denominator and a quotient of which one more fits in 256 bits, mulDivRoundingUp gives the
  -- quotient and mulDivRoundingUpU256 one more.
  pub mul_div_rounding_up_u256_overshoots :
      (a b d : ℕ)
      → 0 < d
      → a * b / d + 1 < word
      → a * b % d ≡ 0
      → a * b % word % d ≢ 0
      → (mul_div_rounding_up a b d ≡ some (a * b / d))
        × (mul_div_rounding_up_u256 u a b d ≡ a * b / d + 1)
  unfolding mul_div_rounding_up
  mul_div_rounding_up_u256_overshoots a b d pos fits exact wrapped =
      ground (arith, mul_div_rounding_up_u256_lem a b d pos fits)

  -- For all words the two differ by at most one.
  pub mul_div_rounding_up_u256_bounds :
      (a b d : ℕ)
      → 0 < d
      → a * b / d + 1 < word
      → (a * b / d ≤ mul_div_rounding_up_u256 u a b d)
        × (mul_div_rounding_up_u256 u a b d ≤ a * b / d + 1)
  mul_div_rounding_up_u256_bounds a b d pos fits =
      ground (arith, mul_div_rounding_up_u256_lem a b d pos fits)

  pub unsafe_div_rounding_up_u256_agrees :
      (a d : ℕ)
      → 0 < d
      → a / d + 1 < word
      → unsafe_div_rounding_up a d ≡ some (unsafe_div_rounding_up_u256 u a d)
  unfolding unsafe_div_rounding_up unsafe_div_rounding_up_u256
  unsafe_div_rounding_up_u256_agrees a d pos fits =
      ground (arith, h.div_lem a d, h.mod_of_lem a d pos, h.add_lem (a / d) 1, mod-eq_of_lt fits)
