-- ===== src/Formulas/V3.antt =====
-- formulas/pool_v3.go and formulas/v3.go: pools of concentrated liquidity. The state of a pool, and
-- where a tick stands in the bitmap. The spacing of ticks comes from the registry, where every entry
-- is positive.
pub mod Bitmap
pub mod Slots
pub mod Precompute
pub mod Swap
pub mod Build
pub mod TickOf
pub mod NextTick
pub mod Next
pub mod Bits
pub mod Consistent
pub mod Lossless
pub mod TickFree
pub mod Position
use defi_toolbox_avalanche.Common.{
  ℕ, ◌+◌, ◌%◌, ◌^◌, Bool, true, false, not, ◌&&◌, Option, none, some, List, [], ◌∷◌, ltb,
  if◌then◌else◌,
}
use defi_toolbox_avalanche.Common.Int.{
  ℤ, pos, negsuc, ◌-ℤ◌, ◌*ℤ◌, ltb_ℤ, same_int, quot, shift_down, low_bits, int16, IntMap,
}

-- `algebraMinTick` and `algebraMaxTick`
abbrev pub min_tick : ℤ
min_tick = negsuc 887271

abbrev pub max_tick : ℤ
max_tick = pos 887272

-- `u256MinSqr` and `u256MaxSqr`
abbrev pub min_sqr : ℕ
min_sqr = 4295128739

abbrev pub max_sqr : ℕ
max_sqr = 1461446703485210103287273052203988822378723970342

-- `v3PrecomputedStep`
pub record PrecomputedStep : Type 0 where
  pub sqrt_price_target : ℕ
  pub amount_in : ℕ
  pub amount_out : ℕ
  pub fee_amount : ℕ
  pub total_cost : ℕ

pub record V3Pool : Type 0 where
  pub addr : ℕ
  pub fee : ℕ
  pub tick_spacing : ℕ
  pub sqrt_price : ℕ
  pub tick : ℤ
  pub liquidity : ℕ
  pub bitmap_words : IntMap ℕ
  pub bitmap_min_word : ℤ
  pub bitmap_max_word : ℤ
  pub tick_liquidity_net : IntMap ℕ
  pub pre_steps_down : IntMap PrecomputedStep
  pub pre_steps_up : IntMap PrecomputedStep
  pub heavy_gas : Bool

-- A missing key of a map reads zero.
abbrev pub or_zero : Option ℕ → ℕ
or_zero none = 0
or_zero (some n) = n

-- `v3Position`: the word of the bitmap and the bit in it.
unfoldable pub v3_position : ℤ → ℤ × ℕ
v3_position compressed =
    let word_pos = int16 (shift_down compressed 256) in
    (word_pos, low_bits (compressed -ℤ word_pos *ℤ pos 256) 256)

-- `v3FloorDiv`, for a positive divisor, where the signs differ when `a` is negative.
unfoldable pub v3_floor_div : ℤ → ℕ → ℤ
v3_floor_div a b =
    let result = quot a b in
    if ltb_ℤ a (pos 0) && not (same_int (result *ℤ pos b) a) then result -ℤ pos 1 else result

-- What Quote and precomputeSteps do with the next tick.
unfoldable pub clamp_tick : ℤ → ℤ
clamp_tick next =
    let low = if ltb_ℤ next min_tick then min_tick else next in
    if ltb_ℤ max_tick low then max_tick else low
