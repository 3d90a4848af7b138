-- ===== src/Formulas/MulDiv/Ceiling.antt =====
-- Rounding up in formulas/shared.go as a ceiling.
use native.Mathlib.Nat.{div-add-mod', mod-lt, mul-le-mul_right, lt_of_mul-lt-mul_right}
use defi_toolbox_avalanche.Common.{
  ℕ, suc, ◌+◌, ◌*◌, ◌/◌, ◌%◌, ◌≤◌, ◌<◌, ◌≡◌, some, arith, ltb, if◌then◌else◌,
}
use defi_toolbox_avalanche.Formulas.MulDiv.{mul_div_rounding_up, unsafe_div_rounding_up, big_div}

-- `r` is the quotient of `x` by `d`, rounded up.
abbrev pub IsCeiling : ℕ → ℕ → ℕ → Type 0
IsCeiling x d r = (x ≤ r * d) × (r * d < x + d)

div-IsCeiling : (x d : ℕ) → 0 < d → IsCeiling x d (if ltb 0 (x % d) then x / d + 1 else x / d)
div-IsCeiling x d h = grind (arith, div-add-mod' x d, mod-lt x h)

-- For every denominator but zero mulDivRoundingUp does not panic and gives the least number whose
-- multiple of the denominator covers the product.
pub mul_div_rounding_up-IsCeiling :
    (a b d : ℕ) → 0 < d → (r : ℕ) × (mul_div_rounding_up a b d ≡ some r) × IsCeiling (a * b) d r
unfolding mul_div_rounding_up
mul_div_rounding_up-IsCeiling a b d h = (
  (if ltb 0 (a * b % d) then a * b / d + 1 else a * b / d),
  ground arith,
  div-IsCeiling (a * b) d h,
)

pub unsafe_div_rounding_up-IsCeiling :
    (a d : ℕ) → 0 < d → (r : ℕ) × (unsafe_div_rounding_up a d ≡ some r) × IsCeiling a d r
unfolding unsafe_div_rounding_up
unsafe_div_rounding_up-IsCeiling a d h =
    ((if ltb 0 (a % d) then a / d + 1 else a / d), ground arith, div-IsCeiling a d h)

-- A ceiling is at most what covers, and what lies below a ceiling does not cover.
pub ceiling-le : (x d r k : ℕ) → IsCeiling x d r → x ≤ k * d → r ≤ k
ceiling-le x d r k h cover =
    let scaled : r * d < suc k * d = omega arith in
    let small : r < suc k = lt_of_mul-lt-mul_right d scaled in omega arith

pub ceiling_not_covered : (x d r k : ℕ) → IsCeiling x d r → k < r → k * d < x
ceiling_not_covered x d r k h below =
    let scaled : suc k * d ≤ r * d = mul-le-mul_right d below in omega arith

pub big_div-some : (x d : ℕ) → 0 < d → big_div x d ≡ some (x / d)
unfolding big_div
big_div-some x d h = ground arith
