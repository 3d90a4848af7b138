-- ===== src/Formulas/V3/Swap.antt =====
-- formulas/pool_v3.go, Quote and evmWouldComplete: the swap through the ticks. The function from a price
-- to its tick is an argument of the loop, which Quote fills with getTickAtSqrtRatioU256. The amounts of
-- gas stay below 2^63.
use defi_toolbox_avalanche.Common.{
  ℕ, zero, suc, ◌+◌, ◌*◌, Bool, true, false, ◌&&◌, ◌||◌, none, some, ltb, ◌==◌, length,
  if◌then◌else◌,
}
use defi_toolbox_avalanche.Common.Int.{ℤ, pos, ◌+ℤ◌, ◌-ℤ◌, quot, IntMap, lookup_int, pos_part}
use defi_toolbox_avalanche.Uint256.{Uint256}
use defi_toolbox_avalanche.Formulas.Price.{SwapStep}
use defi_toolbox_avalanche.Formulas.Price.Words.{compute_swap_step_u256}
use defi_toolbox_avalanche.Formulas.TickMath.{get_sqrt_ratio_at_tick_u256_compute}
use defi_toolbox_avalanche.Formulas.V3.{
  V3Pool, PrecomputedStep, max_tick, min_sqr, max_sqr, clamp_tick,
}
use defi_toolbox_avalanche.Formulas.V3.Bitmap.{next_initialized_tick}
use defi_toolbox_avalanche.Formulas.V3.Precompute.{cross}
use defi_toolbox_avalanche.Formulas.V3.TickOf.{get_tick_at_sqrt_ratio_u256}

unfoldable pub evm_would_complete : V3Pool → Bool → Bool
evm_would_complete p zero_for_one =
    let gas_per_tick = if p.heavy_gas then 55000 else 15000 in
    let overhead_gas = if p.heavy_gas then 400000 else 200000 in
    let range = if zero_for_one then p.tick +ℤ max_tick else max_tick -ℤ p.tick in
    let range_words = pos_part (quot (quot range p.tick_spacing) 256) in
    ltb (length p.tick_liquidity_net * gas_per_tick + range_words * 7000 + overhead_gas) 5000000

-- The variables of the loop.
pub record Swap : Type 0 where
  pub sqrt_price : ℕ
  pub liquidity : ℕ
  pub remaining : ℕ
  pub amount_out : ℕ
  pub tick : ℤ
  pub gas : ℕ

-- What one round of the loop does: return, or go on.
pub data Outcome : Type 0 where
  returns : ℕ → Outcome
  goes_on : Swap → Outcome

-- The variables before the loop.
abbrev pub start_swap : V3Pool → ℕ → Swap
start_swap p amount_in = record {
  sqrt_price = p.sqrt_price;
  liquidity = p.liquidity;
  remaining = amount_in;
  amount_out = 0;
  tick = p.tick;
  gas = 400000;
}

abbrev pub price_limit : Uint256 → Bool → ℕ
price_limit u zero_for_one = if zero_for_one then u.add min_sqr 1 else u.sub max_sqr 1

abbrev pub pre_steps : V3Pool → Bool → IntMap PrecomputedStep
pre_steps p zero_for_one = if zero_for_one then p.pre_steps_down else p.pre_steps_up

module _ (u : Uint256) where
  -- The round with a step that was computed ahead, where the input covers it.
  unfoldable pub stored_round : Bool → ℤ → PrecomputedStep → Swap → Outcome
  stored_round zero_for_one next ps s = goes_on (record {
    sqrt_price = ps.sqrt_price_target;
    liquidity = s.liquidity;
    remaining = u.sub (u.sub s.remaining ps.amount_in) ps.fee_amount;
    amount_out = u.add s.amount_out ps.amount_out;
    tick = if zero_for_one then next -ℤ pos 1 else next;
    gas = s.gas;
  })

  abbrev pub is_done : Bool → Swap → Bool
  is_done zero_for_one s = (s.remaining == 0) || (s.sqrt_price == price_limit u zero_for_one)

  -- The price that a round aims at: that of the next tick, or the limit before it.
  unfoldable pub target_price : Bool → ℤ → ℕ
  target_price zero_for_one next =
      let limit = price_limit u zero_for_one in
      let price_next = get_sqrt_ratio_at_tick_u256_compute u next in
      let beyond = if zero_for_one then ltb price_next limit else ltb limit price_next in
      if beyond then limit else price_next

module _ (u : Uint256) (tick_of : ℕ → ℤ) where
  -- The variables after a computed step.
  unfoldable pub after_step : V3Pool → Bool → ℤ → Bool → Swap → SwapStep → Swap
  unfolding cross
  after_step p zero_for_one next initialized s step =
      let reached = step.sqrt_ratio_next == get_sqrt_ratio_at_tick_u256_compute u next in
      record {
        sqrt_price = step.sqrt_ratio_next;
        liquidity =
            if reached && initialized then cross u p zero_for_one next s.liquidity else s.liquidity;
        remaining = u.sub (u.sub s.remaining step.amount_in) step.fee_amount;
        amount_out = u.add s.amount_out step.amount_out;
        tick =
            if reached
            then (if zero_for_one then next -ℤ pos 1 else next)
            else tick_of step.sqrt_ratio_next;
        gas = s.gas;
      }

  -- The round with a computed step.
  unfoldable pub compute_round : V3Pool → Bool → ℤ → Bool → Swap → Outcome
  unfolding after_step target_price compute_swap_step_u256
  compute_round p zero_for_one next initialized s = goes_on (
      after_step p zero_for_one next initialized s (
        compute_swap_step_u256 u s.sqrt_price (target_price u zero_for_one next) s.liquidity
          s.remaining p.fee))

  unfoldable pub swap_round : V3Pool → Bool → ℤ → Bool → Swap → Outcome
  unfolding compute_round stored_round
  swap_round p zero_for_one next initialized s =
      let computed = compute_round p zero_for_one next initialized s in
      if initialized then computed else elim (lookup_int next (pre_steps p zero_for_one)) [
        | none ↦ computed
        | some ps ↦
            if ltb s.remaining ps.total_cost
            then computed
            else stored_round u zero_for_one next ps s
      ]

  -- The body of the loop.
  unfoldable pub next_round : V3Pool → Bool → Swap → Outcome
  unfolding swap_round next_initialized_tick evm_would_complete clamp_tick
  next_round p zero_for_one s = elim (next_initialized_tick u p s.tick zero_for_one) [
    | none ↦
        returns
          (if (s.liquidity == 0) && evm_would_complete p zero_for_one then s.amount_out else 0)
    | some (next, initialized) ↦
        let init_gas = if p.heavy_gas then 55000 else 25000 in
        let gas = s.gas + (if initialized then init_gas else 7000) in
        if ltb 4800000 gas
        then returns 0
        else swap_round p zero_for_one (clamp_tick next) initialized (record s { gas = gas })
  ]

  -- The loop, for as many steps as are left of `maxSwapSteps`.
  unfoldable pub swap_loop : ℕ → V3Pool → Bool → Swap → ℕ
  unfolding next_round
  swap_loop zero p zero_for_one s = if is_done u zero_for_one s then s.amount_out else 0
  swap_loop (suc left) p zero_for_one s = elim (is_done u zero_for_one s) [
    | true ↦ s.amount_out
    | false ↦ elim (next_round p zero_for_one s) [
      | returns amount ↦ amount
      | goes_on t ↦ swap_loop left p zero_for_one t
    ]
  ]

  -- `Quote`, given the function from a price to its tick.
  unfoldable pub quote_with : V3Pool → ℕ → ℕ → ℕ → ℕ
  unfolding swap_loop
  quote_with p amount_in token_in token_out =
      if (amount_in == 0) || (p.sqrt_price == 0)
      then 0
      else swap_loop 500 p (ltb token_in token_out) (start_swap p amount_in)

unfoldable pub quote : Uint256 → V3Pool → ℕ → ℕ → ℕ → ℕ
unfolding quote_with get_tick_at_sqrt_ratio_u256
quote u = quote_with u (get_tick_at_sqrt_ratio_u256 u)
