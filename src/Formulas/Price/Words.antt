-- ===== src/Formulas/Price/Words.antt =====
-- formulas/shared_u256.go: the same amounts, prices and swap step over uint256.
use defi_toolbox_avalanche.Common.{
  ℕ, ◌+◌, ◌-◌, ◌%◌, ◌^◌, Bool, true, false, not, ltb, ◌==◌, if◌then◌else◌,
}
use defi_toolbox_avalanche.Uint256.{Uint256}
use defi_toolbox_avalanche.Formulas.MulDiv.{
  mul_div_u256, mul_div_rounding_up_u256, unsafe_div_rounding_up_u256,
}
use defi_toolbox_avalanche.Formulas.Price.{q96, lower, higher, mil, SwapStep}

module _ (u : Uint256) where
  unfoldable pub get_amount0_delta_u256 : ℕ → ℕ → ℕ → Bool → ℕ
  get_amount0_delta_u256 sqrt_a sqrt_b liquidity round_up =
      let a = lower sqrt_a sqrt_b in
      let b = higher sqrt_a sqrt_b in
      let n1 = u.lsh liquidity 96 in
      let n2 = u.sub b a in
      if round_up
      then unsafe_div_rounding_up_u256 u (mul_div_rounding_up_u256 u n1 n2 b) a
      else u.div (mul_div_u256 u n1 n2 b) a

  unfoldable pub get_amount1_delta_u256 : ℕ → ℕ → ℕ → Bool → ℕ
  get_amount1_delta_u256 sqrt_a sqrt_b liquidity round_up =
      let diff = u.sub (higher sqrt_a sqrt_b) (lower sqrt_a sqrt_b) in
      if round_up
      then mul_div_rounding_up_u256 u liquidity diff q96
      else mul_div_u256 u liquidity diff q96

  unfoldable pub get_next_sqrt_price_from_input_u256 : ℕ → ℕ → ℕ → Bool → ℕ
  get_next_sqrt_price_from_input_u256 sqrt_p liquidity amount_in zero_for_one =
      if zero_for_one
      then (if amount_in == 0
          then sqrt_p
          else (let n1 = u.lsh liquidity 96 in
              mul_div_rounding_up_u256 u n1 sqrt_p (u.add n1 (u.mul amount_in sqrt_p))))
      else u.add sqrt_p (mul_div_u256 u amount_in q96 liquidity)

  unfoldable pub v3_get_next_price_from_input_overflow_u256 : ℕ → ℕ → ℕ → ℕ
  v3_get_next_price_from_input_overflow_u256 sqrt_p liquidity amount_in =
      if amount_in == 0
      then sqrt_p
      else (let n1 = u.lsh liquidity 96 in
          unsafe_div_rounding_up_u256 u n1 (u.add (u.div n1 sqrt_p) amount_in))

  unfoldable pub v3_get_next_price_from_input_u256 : ℕ → ℕ → ℕ → Bool → ℕ
  unfolding get_next_sqrt_price_from_input_u256 v3_get_next_price_from_input_overflow_u256
  v3_get_next_price_from_input_u256 sqrt_p liquidity amount_in zero_for_one =
      if zero_for_one
      then (if u.mul_overflow amount_in sqrt_p
          then v3_get_next_price_from_input_overflow_u256 sqrt_p liquidity amount_in
          else get_next_sqrt_price_from_input_u256 sqrt_p liquidity amount_in zero_for_one)
      else get_next_sqrt_price_from_input_u256 sqrt_p liquidity amount_in zero_for_one

  -- `computeSwapStepU256`; the complement of the fee is a uint64.
  unfoldable pub compute_swap_step_u256 : ℕ → ℕ → ℕ → ℕ → ℕ → SwapStep
  unfolding get_amount0_delta_u256 get_amount1_delta_u256 v3_get_next_price_from_input_u256
  compute_swap_step_u256 current target liquidity remaining fee_pips =
      let zero_for_one = not (ltb current target) in
      let fee_complement = (mil + 2 ^ 64 - fee_pips) % 2 ^ 64 in
      let less_fee = mul_div_u256 u remaining fee_complement mil in
      let to_target =
        if zero_for_one
        then get_amount0_delta_u256 target current liquidity true
        else get_amount1_delta_u256 current target liquidity true in
      let next =
        if not (ltb less_fee to_target)
        then target
        else v3_get_next_price_from_input_u256 current liquidity less_fee zero_for_one in
      let is_max = target == next in
      let amount_in =
        if is_max
        then to_target
        else if zero_for_one
        then get_amount0_delta_u256 next current liquidity true
        else get_amount1_delta_u256 current next liquidity true in
      let amount_out =
        if zero_for_one
        then get_amount1_delta_u256 next current liquidity false
        else get_amount0_delta_u256 current next liquidity false in
      let fee_amount =
        if is_max
        then mul_div_rounding_up_u256 u amount_in fee_pips fee_complement
        else u.sub remaining amount_in in
      record {
        sqrt_ratio_next = next;
        amount_in = amount_in;
        amount_out = amount_out;
        fee_amount = fee_amount;
      }
