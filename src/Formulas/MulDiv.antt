-- ===== src/Formulas/MulDiv.antt =====
-- formulas/shared.go and formulas/shared_u256.go: products divided by a third number, rounded down or
-- up. Amounts, prices and liquidity are not negative, so a big.Int is a number; Div and Mod of
-- math/big panic at zero, which is `none`.
pub mod Ceiling
pub mod Agree
use defi_toolbox_avalanche.Common.{
  ℕ, ◌+◌, ◌*◌, ◌/◌, ◌%◌, Option, none, some, ltb, ◌==◌, if◌then◌else◌,
}
use defi_toolbox_avalanche.Uint256.{Uint256, word}

infixl 5 ◌>>=◌
abbrev pub ◌>>=◌ : {A B : Type 0} → Option A → (A → Option B) → Option B
none >>= f = none
some a >>= f = f a

-- `new(big.Int).Div(a, b)`
unfoldable pub big_div : ℕ → ℕ → Option ℕ
big_div a b = if b == 0 then none else some (a / b)

unfoldable pub mul_div : ℕ → ℕ → ℕ → Option ℕ
unfolding big_div
mul_div a b denominator = big_div (a * b) denominator

unfoldable pub mul_div_rounding_up : ℕ → ℕ → ℕ → Option ℕ
unfolding big_div
mul_div_rounding_up a b denominator = do
  let product = a * b
  result ← big_div product denominator
  some (if ltb 0 (product % denominator) then result + 1 else result)

unfoldable pub unsafe_div_rounding_up : ℕ → ℕ → Option ℕ
unfolding big_div
unsafe_div_rounding_up a b = do
  result ← big_div a b
  some (if ltb 0 (a % b) then result + 1 else result)

module _ (u : Uint256) where
  unfoldable pub mul_div_u256 : ℕ → ℕ → ℕ → ℕ
  mul_div_u256 a b denom = u.mul_div a b denom

  -- The remainder is that of the product modulo 2^256.
  unfoldable pub mul_div_rounding_up_u256 : ℕ → ℕ → ℕ → ℕ
  unfolding mul_div_u256
  mul_div_rounding_up_u256 a b denom =
      let result = mul_div_u256 a b denom in
      let product = u.mul a b in
      let rem = u.mod_of product denom in if rem == 0 then result else u.add result 1

  unfoldable pub unsafe_div_rounding_up_u256 : ℕ → ℕ → ℕ
  unsafe_div_rounding_up_u256 a denom =
      let result = u.div a denom in
      let rem = u.mod_of a denom in if rem == 0 then result else u.add result 1
