-- ===== src/Tests/V3.antt =====
-- Examples for the pools of concentrated liquidity.
use mathlib.Core.Path.{subst}
use defi_toolbox_avalanche.Common.{
  Map, lookup, Option, ℕ, zero, ◌+◌, ◌-◌, ◌^◌, suc, ◌≤◌, ◌<◌, ◌≡◌, ◌⊎◌, refl, true, false, some, [],
  ◌∷◌, length, arith, ◌==◌, if◌then◌else◌,
}
use defi_toolbox_avalanche.Common.Int.{
  ℤ, pos, negsuc, quot, shift_down, int16, int32, ◌+ℤ◌, ◌-ℤ◌, ◌*ℤ◌,
}
use defi_toolbox_avalanche.Uint256.Concrete.{wrapping, wrapping-IsUint256}
use defi_toolbox_avalanche.Formulas.Price.Words.{compute_swap_step_u256, get_amount0_delta_u256}
use defi_toolbox_avalanche.Formulas.MulDiv.{
  big_div, mul_div_u256, mul_div_rounding_up_u256, unsafe_div_rounding_up_u256,
}
use defi_toolbox_avalanche.Formulas.TickMath.{
  get_sqrt_ratio_at_tick, scale, start_ratio, round_ratio, get_sqrt_ratio_at_tick_u256_compute,
  round_ratio_u256, scale_u256,
}
use defi_toolbox_avalanche.Formulas.V3.{V3Pool, PrecomputedStep, v3_position, v3_floor_div}
use defi_toolbox_avalanche.Formulas.V3.Bitmap.{next_initialized_tick}
use defi_toolbox_avalanche.Formulas.V3.Slots.{
  Storage, Layout, v3_layout_standard, v3_read_slot0, check_slot0, tick_of_raw,
}
use defi_toolbox_avalanche.Formulas.V3.Build.{new_v3_pool}
use defi_toolbox_avalanche.Formulas.V3.Precompute.{full_step}
use defi_toolbox_avalanche.Formulas.V3.Swap.{quote, quote_with}
use defi_toolbox_avalanche.Formulas.V3.Position.{v3_position_joins}
use defi_toolbox_avalanche.Formulas.V3.Lossless.{full_step_lossless}
use defi_toolbox_avalanche.Formulas.V3.TickFree.{quote-tick_free}
use defi_toolbox_avalanche.Formulas.V3.Consistent.{IsInTick, new_v3_pool-IsInTick}
use defi_toolbox_avalanche.Formulas.V3.NextTick.{IsNext, WordsFit, next_initialized_tick-IsNext}

v3_position_joins_example :
    ((v3_position (negsuc 300)).0 *ℤ pos 256 +ℤ pos ((v3_position (negsuc 300)).1) ≡ negsuc 300)
    × ((v3_position (negsuc 300)).1 < 256)
v3_position_joins_example = v3_position_joins (negsuc 300) (omega arith) (omega arith)

-- Ticks every 10, at price 1; the ticks 100 and -100 are initialized.
abbrev small_pool : V3Pool
small_pool = record {
  addr = 1;
  fee = 3000;
  tick_spacing = 10;
  sqrt_price = 2 ^ 96;
  tick = pos 0;
  liquidity = 1000000000;
  bitmap_words = (pos 0, 1024) ∷ (negsuc 0, 2 ^ 246) ∷ [];
  bitmap_min_word = negsuc 2;
  bitmap_max_word = pos 2;
  tick_liquidity_net = (pos 100, 2 ^ 256 - 1000000000) ∷ (negsuc 99, 1000000000) ∷ [];
  pre_steps_down = [];
  pre_steps_up = [];
  heavy_gas = false;
}

next_up : next_initialized_tick wrapping small_pool (pos 0) false ≡ some (pos 100, true)
unfolding next_initialized_tick int16 int32 shift_down quot ◌+ℤ◌ ◌-ℤ◌ ◌*ℤ◌
next_up = refl

-- The word of tick 0 holds no tick at or below it.
next_down : next_initialized_tick wrapping small_pool (pos 0) true ≡ some (pos 0, false)
unfolding next_initialized_tick int16 int32 shift_down quot ◌-ℤ◌ ◌*ℤ◌
next_down = refl

small-WordsFit : WordsFit small_pool
small-WordsFit (pos zero) = omega arith
small-WordsFit (pos (suc n)) = ground arith
small-WordsFit (negsuc zero) = omega arith
small-WordsFit (negsuc (suc n)) = ground arith

next_initialized_tick-IsNext_example : IsNext small_pool (pos 1) false (pos 100) true
unfolding v3_floor_div quot ◌+ℤ◌
next_initialized_tick-IsNext_example =
    next_initialized_tick-IsNext wrapping wrapping-IsUint256 small_pool (pos 0) (pos 100) false true
      (omega arith) (omega arith) small-WordsFit next_up

quote-tick_free_example :
    quote wrapping small_pool 100000 2 1
    ≡ quote_with wrapping (λ price. pos 0) small_pool 100000 2 1
quote-tick_free_example =
    quote-tick_free wrapping wrapping-IsUint256 (λ price. pos 0) small_pool 100000 2 1

small_quote : quote wrapping small_pool 100000 2 1 ≡ 99690
unfolding quote compute_swap_step_u256 next_initialized_tick int16 int32 shift_down quot ◌+ℤ◌ ◌-ℤ◌
    ◌*ℤ◌ get_sqrt_ratio_at_tick_u256_compute round_ratio_u256 scale_u256 mul_div_u256
    mul_div_rounding_up_u256
small_quote = refl

abbrev down_step : PrecomputedStep
down_step = full_step wrapping 3000 true (2 ^ 96) (2 ^ 95) 1000000

down_step_cost : down_step.total_cost ≤ 1100000
unfolding full_step get_amount0_delta_u256 unsafe_div_rounding_up_u256 mul_div_rounding_up_u256
down_step_cost = omega arith

full_step_lossless_example :
    compute_swap_step_u256 wrapping (2 ^ 96) (2 ^ 95) 1000000 1100000 3000 ≡ record {
      sqrt_ratio_next = down_step.sqrt_price_target;
      amount_in = down_step.amount_in;
      amount_out = down_step.amount_out;
      fee_amount = down_step.fee_amount;
    }
full_step_lossless_example =
    full_step_lossless wrapping wrapping-IsUint256 3000 (2 ^ 96) (2 ^ 95) 1000000 1100000
      (omega arith) (omega arith) (omega arith) (omega arith) (omega arith) down_step_cost

-- Slot 0 holds price 1, tick 0 and a number of observations.
abbrev standard_storage : Storage
standard_storage pool slot = if slot == 0 then 2 ^ 96 + 2 ^ 184 else 0

-- The cache holds the layout of the pool, which the storage agrees with.
abbrev seen_before : Map Layout
seen_before = (1, v3_layout_standard) ∷ []

standard_accepted :
    (l : Layout)
    → lookup 1 seen_before ≡ some l
    → (found : ℕ × ℤ) × (v3_read_slot0 standard_storage 1 l.slot0 ≡ some found)
unfolding v3_read_slot0 check_slot0 tick_of_raw get_sqrt_ratio_at_tick scale start_ratio round_ratio
    ◌+ℤ◌ big_div
standard_accepted l held =
    let eq : v3_layout_standard ≡ l = cc in
    subst (λ m. (found : ℕ × ℤ) × (v3_read_slot0 standard_storage 1 m.slot0 ≡ some found)) eq
      ((2 ^ 96, pos 0), refl)

new_v3_pool-IsInTick_example :
    let entry : Option (ℕ × ℕ) = some (3000, 60) in
    let (built, cache') = new_v3_pool wrapping length standard_storage 1 entry false seen_before in
    (p : V3Pool) × (built ≡ some p)
    × ((p.sqrt_price ≡ 0) ⊎ IsInTick p.sqrt_price p.tick)
    × ((new_v3_pool wrapping length standard_storage 1 entry false cache').0 ≡ some p)
new_v3_pool-IsInTick_example =
    new_v3_pool-IsInTick wrapping wrapping-IsUint256 length standard_storage 1 3000 60 false
      seen_before standard_accepted
