-- ===== src/Formulas/Price.antt =====
-- formulas/shared.go, formulas/v3.go and formulas/shared_u256.go: amounts between two square-root
-- prices, the next price, and one step of a swap. The results of a step are one record.
pub mod Words
pub mod Agree
pub mod Bounds
pub mod Runs
pub mod Step
use defi_toolbox_avalanche.Common.{
  ℕ, ◌+◌, ◌-◌, ◌*◌, ◌/◌, ◌%◌, ◌^◌, Bool, true, false, not, Option, none, some, ltb, leb, ◌==◌,
  if◌then◌else◌,
}
use defi_toolbox_avalanche.Uint256.{Uint256, word}
use defi_toolbox_avalanche.Formulas.MulDiv.{
  ◌>>=◌, big_div, mul_div, mul_div_rounding_up, unsafe_div_rounding_up, mul_div_u256,
  mul_div_rounding_up_u256, unsafe_div_rounding_up_u256,
}

abbrev pub q96 : ℕ
q96 = 2 ^ 96

-- The lower of the two prices, and the higher, as `a.Cmp(b) > 0` swaps them.
abbrev pub lower : ℕ → ℕ → ℕ
lower a b = if ltb b a then b else a

abbrev pub higher : ℕ → ℕ → ℕ
higher a b = if ltb b a then a else b

unfoldable pub get_amount0_delta : ℕ → ℕ → ℕ → Bool → Option ℕ
get_amount0_delta sqrt_a sqrt_b liquidity round_up =
    let a = lower sqrt_a sqrt_b in
    let b = higher sqrt_a sqrt_b in
    let n1 = liquidity * q96 in
    let n2 = b - a in
    if round_up
    then mul_div_rounding_up n1 n2 b >>= (λ inner. unsafe_div_rounding_up inner a)
    else mul_div n1 n2 b >>= (λ inner. big_div inner a)

unfoldable pub get_amount1_delta : ℕ → ℕ → ℕ → Bool → Option ℕ
get_amount1_delta sqrt_a sqrt_b liquidity round_up =
    let diff = higher sqrt_a sqrt_b - lower sqrt_a sqrt_b in
    if round_up then mul_div_rounding_up liquidity diff q96 else mul_div liquidity diff q96

unfoldable pub get_next_sqrt_price_from_input : ℕ → ℕ → ℕ → Bool → Option ℕ
get_next_sqrt_price_from_input sqrt_p liquidity amount_in zero_for_one =
    if zero_for_one
    then (if amount_in == 0
        then some sqrt_p
        else (let n1 = liquidity * q96 in mul_div_rounding_up n1 sqrt_p (n1 + amount_in * sqrt_p)))
    else mul_div amount_in q96 liquidity >>= (λ quotient. some (sqrt_p + quotient))

unfoldable pub v3_get_next_price_from_input_overflow : ℕ → ℕ → ℕ → Bool → Option ℕ
unfolding get_next_sqrt_price_from_input
v3_get_next_price_from_input_overflow sqrt_p liquidity amount_in zero_for_one =
    if not zero_for_one
    then get_next_sqrt_price_from_input sqrt_p liquidity amount_in false
    else if amount_in == 0
    then some sqrt_p
    else (let numerator1 = liquidity * q96 in
        big_div numerator1 sqrt_p
        >>= (λ denom. unsafe_div_rounding_up numerator1 (denom + amount_in)))

-- `product.BitLen() > 256`
unfoldable pub v3_get_next_price_from_input : ℕ → ℕ → ℕ → Bool → Option ℕ
unfolding get_next_sqrt_price_from_input v3_get_next_price_from_input_overflow
v3_get_next_price_from_input sqrt_p liquidity amount_in zero_for_one =
    if zero_for_one
    then (if leb word (amount_in * sqrt_p)
        then v3_get_next_price_from_input_overflow sqrt_p liquidity amount_in true
        else get_next_sqrt_price_from_input sqrt_p liquidity amount_in zero_for_one)
    else get_next_sqrt_price_from_input sqrt_p liquidity amount_in zero_for_one

pub record SwapStep : Type 0 where
  pub sqrt_ratio_next : ℕ
  pub amount_in : ℕ
  pub amount_out : ℕ
  pub fee_amount : ℕ

abbrev pub mil : ℕ
mil = 1000000

-- `a.Sub(b)`: a difference of big.Int below zero is outside the numbers here, and is `none`.
abbrev pub big_sub : ℕ → ℕ → Option ℕ
big_sub a b = if ltb a b then none else some (a - b)

-- `computeSwapStep`. The fee of a step that stops early is the rest of the input.
unfoldable pub compute_swap_step : ℕ → ℕ → ℕ → ℕ → ℕ → Option SwapStep
unfolding get_amount0_delta get_amount1_delta v3_get_next_price_from_input
compute_swap_step current target liquidity remaining fee_pips = do
  let zero_for_one = leb target current
  fee_complement ← big_sub mil fee_pips
  less_fee ← mul_div remaining fee_complement mil
  to_target ←
      if zero_for_one
      then get_amount0_delta target current liquidity true
      else get_amount1_delta current target liquidity true
  next ←
      if leb to_target less_fee
      then some target
      else v3_get_next_price_from_input current liquidity less_fee zero_for_one
  let is_max = target == next
  amount_in ←
      if is_max
      then some to_target
      else if zero_for_one
      then get_amount0_delta next current liquidity true
      else get_amount1_delta current next liquidity true
  amount_out ←
      if zero_for_one
      then get_amount1_delta next current liquidity false
      else get_amount0_delta current next liquidity false
  fee_amount ←
      if is_max
      then mul_div_rounding_up amount_in fee_pips fee_complement
      else big_sub remaining amount_in
  some (record {
    sqrt_ratio_next = next;
    amount_in = amount_in;
    amount_out = amount_out;
    fee_amount = fee_amount;
  })
