-- ===== src/Formulas/Price/Agree.antt =====
-- The amounts of formulas/shared_u256.go beside those of formulas/shared.go.
use native.Mathlib.Nat.{mod-eq_of_lt, mul-le-mul, mul-le-mul_right, div-le_of_le-mul}
use defi_toolbox_avalanche.Common.{
  ℕ, ◌+◌, ◌-◌, ◌*◌, ◌/◌, ◌%◌, ◌^◌, ◌≤◌, ◌<◌, ◌≡◌, ◌∙◌, Bool, true, false, some, arith,
}
use defi_toolbox_avalanche.Uint256.{Uint256, IsUint256, word}
use defi_toolbox_avalanche.Formulas.MulDiv.Agree.{
  mul_div_u256_agrees, mul_div_rounding_up_u256_agrees_q96,
}
use defi_toolbox_avalanche.Formulas.MulDiv.Ceiling.{big_div-some}
use defi_toolbox_avalanche.Formulas.Price.{q96, lower, higher, get_amount0_delta, get_amount1_delta}
use defi_toolbox_avalanche.Formulas.Price.Words.{get_amount0_delta_u256, get_amount1_delta_u256}

lower-le-higher : (a b : ℕ) → lower a b ≤ higher a b
lower-le-higher a b = ground arith

sub_word : (x y : ℕ) → y ≤ x → x < word → (x + word - y) % word ≡ x - y
sub_word x y h k = omega arith

pub difference_small : (a b : ℕ) → a < 2 ^ 160 → b < 2 ^ 160 → higher a b - lower a b ≤ 2 ^ 160
difference_small a b ha hb = ground arith

higher_pos : (a b : ℕ) → 0 < a → 0 < b → (0 < higher a b) × (0 < lower a b)
higher_pos a b ha hb = ground arith

-- Dividing by 2^96 leaves an amount of token1 far below 2^256.
pub amount1_fits : (l d : ℕ) → l < 2 ^ 128 → d ≤ 2 ^ 160 → l * d / q96 + 1 < word
amount1_fits l d hl hd =
    let product : l * d ≤ 2 ^ 128 * 2 ^ 160 = mul-le-mul {n₂ = 2 ^ 128} (omega arith) hd in
    omega arith

-- The share of `n` in the ratio of a difference to the higher price is at most `n`.
pub share-le : (n d b : ℕ) → d ≤ b → n * d / b ≤ n
share-le n d b h =
    let product : n * d ≤ b * n = omega (arith, mul-le-mul_right n h) in div-le_of_le-mul b product

module _ (u : Uint256) (h : IsUint256 u) where
  -- The difference of the two prices.
  pub sub_prices :
      (a b : ℕ)
      → a < 2 ^ 160
      → b < 2 ^ 160
      → u.sub (higher a b) (lower a b) ≡ higher a b - lower a b
  sub_prices a b ha hb =
      h.sub_lem (higher a b) (lower a b) (ground arith) (ground arith)
      ∙ sub_word (higher a b) (lower a b) (lower-le-higher a b) (ground arith)

  -- For square-root prices below 2^160 and a liquidity below 2^128, the amount of token1 in
  -- 256-bit words is the exact one, rounded up or down.
  pub get_amount1_delta_u256_agrees :
      (a b liquidity : ℕ) (round_up : Bool)
      → a < 2 ^ 160
      → b < 2 ^ 160
      → liquidity < 2 ^ 128
      → get_amount1_delta a b liquidity round_up
        ≡ some (get_amount1_delta_u256 u a b liquidity round_up)
  unfolding get_amount1_delta get_amount1_delta_u256
  get_amount1_delta_u256_agrees a b liquidity true ha hb hl = rw (sub_prices a b ha hb) (
      mul_div_rounding_up_u256_agrees_q96 u h liquidity (higher a b - lower a b)
        (amount1_fits liquidity _ hl (difference_small a b ha hb)))
  get_amount1_delta_u256_agrees a b liquidity false ha hb hl = rw (sub_prices a b ha hb) (
      mul_div_u256_agrees u h liquidity (higher a b - lower a b) q96 (omega arith)
        (let fits = amount1_fits liquidity _ hl (difference_small a b ha hb) in omega arith))

  -- For positive square-root prices below 2^160 and a liquidity below 2^128, the amount of token0
  -- in 256-bit words, rounded down, is the exact one.
  pub get_amount0_delta_u256_agrees :
      (a b liquidity : ℕ)
      → 0 < a
      → 0 < b
      → a < 2 ^ 160
      → b < 2 ^ 160
      → liquidity < 2 ^ 128
      → get_amount0_delta a b liquidity false ≡ some (get_amount0_delta_u256 u a b liquidity false)
  unfolding get_amount0_delta get_amount0_delta_u256
  get_amount0_delta_u256_agrees a b liquidity pa pb ha hb hl =
      let pos = higher_pos a b pa pb in
      let shift : u.lsh liquidity 96 ≡ liquidity * q96 =
        h.lsh_lem liquidity 96 ∙ mod-eq_of_lt (omega arith) in
      let share = share-le (liquidity * q96) (higher a b - lower a b) (higher a b) (omega arith) in
      rw
        (
          sub_prices a b ha hb,
          shift,
          mul_div_u256_agrees u h (liquidity * q96) (higher a b - lower a b) (higher a b) pos.0
              (omega arith),
          h.div_lem _ (lower a b),
        )
        (big_div-some _ (lower a b) pos.1)
