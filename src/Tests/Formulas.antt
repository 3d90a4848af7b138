-- ===== src/Tests/Formulas.antt =====
-- Examples for formulas/.
use defi_toolbox_avalanche.Common.{
  ℕ, ◌+◌, ◌*◌, ◌/◌, ◌^◌, ◌≤◌, ◌≡◌, refl, true, false, some, [], ◌∷◌, arith, map, inl,
}
use defi_toolbox_avalanche.Common.Int.{pos, negsuc}
use defi_toolbox_avalanche.Uint256.Concrete.{wrapping, wrapping-IsUint256}
use defi_toolbox_avalanche.Formulas.MulDiv.{mul_div_rounding_up, mul_div_rounding_up_u256}
use defi_toolbox_avalanche.Formulas.MulDiv.Ceiling.{IsCeiling, mul_div_rounding_up-IsCeiling}
use defi_toolbox_avalanche.Formulas.MulDiv.Agree.{
  mul_div_rounding_up_u256_agrees, mul_div_rounding_up_u256_overshoots,
}
use defi_toolbox_avalanche.Formulas.Price.{
  SwapStep, get_amount0_delta, get_amount1_delta, compute_swap_step,
}
use defi_toolbox_avalanche.Formulas.Price.Words.{get_amount0_delta_u256, get_amount1_delta_u256}
use defi_toolbox_avalanche.Formulas.Price.Agree.{
  get_amount0_delta_u256_agrees, get_amount1_delta_u256_agrees,
}
use defi_toolbox_avalanche.Formulas.Price.Step.{IsSoundStep, compute_swap_step-IsSoundStep}
use defi_toolbox_avalanche.Formulas.V2.{
  V2Pool, quote, amount_out, new_v2_pool, new_v2_pool_with_slot, set_dead_dirs,
}
use defi_toolbox_avalanche.Formulas.V2.Quote.{
  KeepsProduct, IsPool, reserve_in, reserve_out, quote-KeepsProduct, new_v2_pool-IsPool,
}
use defi_toolbox_avalanche.Formulas.V2.Monotone.{quote_grows}
use defi_toolbox_avalanche.Formulas.TickMath.{
  get_sqrt_ratio_at_tick, get_sqrt_ratio_at_tick_u256_compute,
}
use defi_toolbox_avalanche.Formulas.TickMath.Agree.{get_sqrt_ratio_at_tick_u256_agrees}
use defi_toolbox_avalanche.Formulas.TickMath.Cache.{load, get_all, IsFaithful, get_all_computed}

seven_thirds : mul_div_rounding_up 7 1 3 ≡ some 3
unfolding mul_div_rounding_up
seven_thirds = refl

mul_div_rounding_up-IsCeiling_example :
    (r : ℕ) × (mul_div_rounding_up 7 5 3 ≡ some r) × IsCeiling (7 * 5) 3 r
mul_div_rounding_up-IsCeiling_example = mul_div_rounding_up-IsCeiling 7 5 3 (omega arith)

mul_div_rounding_up_u256_agrees_example :
    mul_div_rounding_up 7 5 3 ≡ some (mul_div_rounding_up_u256 wrapping 7 5 3)
mul_div_rounding_up_u256_agrees_example =
    mul_div_rounding_up_u256_agrees wrapping wrapping-IsUint256 7 5 3 (omega arith) (omega arith)
      (omega arith)

-- 3 * 2^255 is 2^255 as a word, which 3 does not divide.
mul_div_rounding_up_u256_overshoots_example :
    (mul_div_rounding_up (2 ^ 255) 3 3 ≡ some (2 ^ 255 * 3 / 3))
    × (mul_div_rounding_up_u256 wrapping (2 ^ 255) 3 3 ≡ 2 ^ 255 * 3 / 3 + 1)
mul_div_rounding_up_u256_overshoots_example =
    mul_div_rounding_up_u256_overshoots wrapping wrapping-IsUint256 (2 ^ 255) 3 3 (omega arith)
      (omega arith) (omega arith) (omega arith)

get_amount1_delta_u256_agrees_example :
    get_amount1_delta (2 ^ 96) (2 ^ 97) 1000 true
    ≡ some (get_amount1_delta_u256 wrapping (2 ^ 96) (2 ^ 97) 1000 true)
get_amount1_delta_u256_agrees_example =
    get_amount1_delta_u256_agrees wrapping wrapping-IsUint256 (2 ^ 96) (2 ^ 97) 1000 true
      (omega arith) (omega arith) (omega arith)

get_amount0_delta_u256_agrees_example :
    get_amount0_delta (2 ^ 96) (2 ^ 97) 1000 false
    ≡ some (get_amount0_delta_u256 wrapping (2 ^ 96) (2 ^ 97) 1000 false)
get_amount0_delta_u256_agrees_example =
    get_amount0_delta_u256_agrees wrapping wrapping-IsUint256 (2 ^ 96) (2 ^ 97) 1000 (omega arith)
      (omega arith) (omega arith) (omega arith) (omega arith)

-- Down from price 1, with a fee of 0.3 %.
compute_swap_step-IsSoundStep_example :
    (s : SwapStep) × (compute_swap_step (2 ^ 96) (2 ^ 95) 1000000 5000 3000 ≡ some s)
    × IsSoundStep (2 ^ 96) (2 ^ 95) 5000 s
compute_swap_step-IsSoundStep_example =
    compute_swap_step-IsSoundStep (2 ^ 96) (2 ^ 95) 1000000 5000 3000 (omega arith) (omega arith)
      (omega arith)

get_sqrt_ratio_at_tick_u256_agrees_example :
    get_sqrt_ratio_at_tick (negsuc 6931)
    ≡ some (get_sqrt_ratio_at_tick_u256_compute wrapping (negsuc 6931))
get_sqrt_ratio_at_tick_u256_agrees_example =
    get_sqrt_ratio_at_tick_u256_agrees wrapping wrapping-IsUint256 (negsuc 6931)

empty-IsFaithful : IsFaithful wrapping []
unfolding load
empty-IsFaithful tick ratio loaded = ground arith

get_all_computed_example :
    get_all wrapping (pos 3 ∷ negsuc 4 ∷ pos 3 ∷ []) []
    ≡ map (get_sqrt_ratio_at_tick_u256_compute wrapping) (pos 3 ∷ negsuc 4 ∷ pos 3 ∷ [])
get_all_computed_example =
    get_all_computed wrapping (pos 3 ∷ negsuc 4 ∷ pos 3 ∷ []) [] empty-IsFaithful

-- Reserves of 5000 and 7000.
abbrev packed : ℕ → ℕ → ℕ
packed addr slot = 7000 * 2 ^ 112 + 5000

abbrev small_pool : V2Pool
small_pool = record {
  addr = 1;
  reserve0 = 5000;
  reserve1 = 7000;
  factor = some 9970;
  balance0 = 0;
  balance1 = 0;
  dead_dir0 = false;
  dead_dir1 = false;
}

small_pool_built : new_v2_pool packed 1 ≡ some small_pool
unfolding new_v2_pool new_v2_pool_with_slot
small_pool_built = refl

small_quote : quote wrapping small_pool 100 1 2 ≡ 136
unfolding quote amount_out
small_quote = refl

-- The router cannot pay the input 0xe80772eaf6e2e18b651f160bc9158b2a5cafca65.
dead_quote :
    quote wrapping (set_dead_dirs 0xe80772eaf6e2e18b651f160bc9158b2a5cafca65 2 small_pool) 100 1 2
    ≡ 0
unfolding quote set_dead_dirs
dead_quote = refl

new_v2_pool-IsPool_example : IsPool small_pool
new_v2_pool-IsPool_example = new_v2_pool-IsPool packed 1 small_pool (inl small_pool_built)

small-IsPool : IsPool small_pool
small-IsPool = new_v2_pool-IsPool packed 1 small_pool (inl small_pool_built)

quote-KeepsProduct_example :
    KeepsProduct 100
      (reserve_in small_pool 1 2)
      (reserve_out small_pool 1 2)
      (quote wrapping small_pool 100 1 2)
quote-KeepsProduct_example =
    quote-KeepsProduct wrapping wrapping-IsUint256 small_pool 100 1 2 small-IsPool (omega arith)

quote_grows_example : quote wrapping small_pool 100 2 1 ≤ quote wrapping small_pool 101 2 1
quote_grows_example =
    quote_grows wrapping wrapping-IsUint256 small_pool 100 101 2 1 small-IsPool refl refl
      (omega arith) (omega arith)
