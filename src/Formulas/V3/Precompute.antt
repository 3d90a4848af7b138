-- ===== src/Formulas/V3/Precompute.antt =====
-- formulas/pool_v3.go, precomputeSteps: the swap steps over empty words, computed ahead. The search for
-- the next tick that it writes out is that of nextInitializedTick, and the cache in front of the price
-- of a tick is not repeated here.
use defi_toolbox_avalanche.Common.{
  ℕ, zero, suc, ◌+◌, ◌-◌, ◌%◌, ◌^◌, Bool, true, false, not, ◌&&◌, none, some, ◌==◌, if◌then◌else◌,
}
use defi_toolbox_avalanche.Common.Int.{ℤ, pos, ◌-ℤ◌, IntMap, lookup_int, insert_int}
use defi_toolbox_avalanche.Uint256.{Uint256}
use defi_toolbox_avalanche.Formulas.MulDiv.{mul_div_rounding_up_u256}
use defi_toolbox_avalanche.Formulas.Price.{mil}
use defi_toolbox_avalanche.Formulas.Price.Words.{get_amount0_delta_u256, get_amount1_delta_u256}
use defi_toolbox_avalanche.Formulas.TickMath.{get_sqrt_ratio_at_tick_u256_compute}
use defi_toolbox_avalanche.Formulas.V3.{V3Pool, PrecomputedStep, or_zero, clamp_tick}
use defi_toolbox_avalanche.Formulas.V3.Bitmap.{next_initialized_tick}

-- Where the walk stands, and the steps that it has stored.
pub record Walk : Type 0 where
  pub liquidity : ℕ
  pub tick : ℤ
  pub sqrt_price : ℕ
  pub steps : IntMap PrecomputedStep

module _ (u : Uint256) where
  -- The step from a price to the next at some liquidity.
  unfoldable pub full_step : ℕ → Bool → ℕ → ℕ → ℕ → PrecomputedStep
  full_step fee zero_for_one current next liquidity =
      let fee_complement = (mil + 2 ^ 64 - fee) % 2 ^ 64 in
      let amount_in =
        if zero_for_one
        then get_amount0_delta_u256 u next current liquidity true
        else get_amount1_delta_u256 u current next liquidity true in
      let amount_out =
        if zero_for_one
        then get_amount1_delta_u256 u next current liquidity false
        else get_amount0_delta_u256 u current next liquidity false in
      let fee_amount = mul_div_rounding_up_u256 u amount_in fee fee_complement in
      record {
        sqrt_price_target = next;
        amount_in = amount_in;
        amount_out = amount_out;
        fee_amount = fee_amount;
        total_cost = u.add amount_in fee_amount;
      }

  -- What crossing an initialized tick leaves of the liquidity.
  unfoldable pub cross : V3Pool → Bool → ℤ → ℕ → ℕ
  cross p zero_for_one next liquidity =
      let net = or_zero (lookup_int next p.tick_liquidity_net) in
      if zero_for_one then u.sub liquidity net else u.add liquidity net

  -- One round, past the search.
  unfoldable pub walk_on : V3Pool → Bool → ℤ → Bool → Walk → Walk
  unfolding full_step cross
  walk_on p zero_for_one next initialized w =
      let price = get_sqrt_ratio_at_tick_u256_compute u next in
      let stored = not initialized && not (w.liquidity == 0) in
      record {
        liquidity = if initialized then cross p zero_for_one next w.liquidity else w.liquidity;
        tick = if zero_for_one then next -ℤ pos 1 else next;
        sqrt_price = price;
        steps =
            if stored
            then insert_int next (full_step p.fee zero_for_one w.sqrt_price price w.liquidity)
                w.steps
            else w.steps;
      }

  unfoldable pub walk : ℕ → V3Pool → Bool → Walk → Walk
  unfolding next_initialized_tick walk_on clamp_tick
  walk zero p zero_for_one w = w
  walk (suc fuel) p zero_for_one w = elim (next_initialized_tick u p w.tick zero_for_one) [
    | none ↦ w
    | some (next, initialized) ↦
        walk fuel p zero_for_one (walk_on p zero_for_one (clamp_tick next) initialized w)
  ]

  abbrev pub walk_start : V3Pool → IntMap PrecomputedStep → Walk
  walk_start p steps = record {
    liquidity = p.liquidity;
    tick = p.tick;
    sqrt_price = p.sqrt_price;
    steps = steps;
  }

  -- `precomputeSteps`: down, then up, 500 steps at most.
  unfoldable pub precompute_steps : V3Pool → V3Pool
  unfolding walk
  precompute_steps p = record p {
    pre_steps_down = (walk 500 p true (walk_start p p.pre_steps_down)).steps;
    pre_steps_up = (walk 500 p false (walk_start p p.pre_steps_up)).steps;
  }
