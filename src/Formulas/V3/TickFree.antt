-- ===== src/Formulas/V3/TickFree.antt =====
-- formulas/pool_v3.go, Quote: the tick of a price between two ticks.
use defi_toolbox_avalanche.Common.{
  ℕ, zero, suc, ◌+◌, ◌-◌, ◌%◌, ◌^◌, ◌<◌, ◌≡◌, ◌∙◌, sym, ap, refl, Bool, true, false, ◌||◌, ◌⊎◌, inl,
  inr, arith, ltb, ◌==◌, if◌then◌else◌, ==_iff, Bool-cases, Option-cases,
}
use defi_toolbox_avalanche.Common.Int.{ℤ, lookup_int}
use defi_toolbox_avalanche.Uint256.{Uint256, IsUint256, word}
use defi_toolbox_avalanche.Formulas.MulDiv.{mul_div_rounding_up_u256}
use defi_toolbox_avalanche.Formulas.Price.{SwapStep, mil}
use defi_toolbox_avalanche.Formulas.Price.Words.{compute_swap_step_u256}
use defi_toolbox_avalanche.Formulas.TickMath.{get_sqrt_ratio_at_tick_u256_compute}
use defi_toolbox_avalanche.Formulas.V3.{V3Pool, clamp_tick}
use defi_toolbox_avalanche.Formulas.V3.Bitmap.{next_initialized_tick}
use defi_toolbox_avalanche.Formulas.V3.TickOf.{get_tick_at_sqrt_ratio_u256}
use defi_toolbox_avalanche.Formulas.V3.Swap.{
  Swap, Outcome, start_swap, returns, goes_on, price_limit, pre_steps, target_price, after_step,
  is_done, compute_round, swap_round, next_round, swap_loop, quote_with, quote,
}

is_over :
    (remaining price limit : ℕ)
    → (remaining ≡ 0) ⊎ (price ≡ limit)
    → ((remaining == 0) || (price == limit)) ≡ true
is_over remaining price limit (inl spent) = ground arith
is_over remaining price limit (inr stopped) = ground arith

chosen_limit :
    (beyond : Bool) (limit price_next price : ℕ)
    → (if beyond then limit else price_next) ≡ price
    → (price == price_next) ≡ false
    → price ≡ limit
chosen_limit true limit price_next price chosen other = omega arith
chosen_limit false limit price_next price chosen other = ground arith

module _ (u : Uint256) (h : IsUint256 u) where
  sub_self : (a : ℕ) → a < word → u.sub a a ≡ 0
  sub_self a k = h.sub_lem a a k k ∙ omega arith

  early_fee :
      (current target liquidity remaining fee : ℕ)
      → let step = compute_swap_step_u256 u current target liquidity remaining fee in
        (target == step.sqrt_ratio_next) ≡ false → step.fee_amount ≡ u.sub remaining step.amount_in
  unfolding compute_swap_step_u256
  early_fee current target liquidity remaining fee early =
      let step = compute_swap_step_u256 u current target liquidity remaining fee in
      ap
        (λ max.
          if max
          then mul_div_rounding_up_u256 u step.amount_in fee ((mil + 2 ^ 64 - fee) % 2 ^ 64)
          else u.sub remaining step.amount_in)
        early

  -- A step that does not reach its target uses up the input.
  step_ends :
      (current target liquidity remaining fee : ℕ)
      → let step = compute_swap_step_u256 u current target liquidity remaining fee in
        (target ≡ step.sqrt_ratio_next)
        ⊎ (u.sub (u.sub remaining step.amount_in) step.fee_amount ≡ 0)
  step_ends current target liquidity remaining fee =
      let step = compute_swap_step_u256 u current target liquidity remaining fee in
      elim (Bool-cases (target == step.sqrt_ratio_next)) [
        | inl max ↦ inl ((==_iff target step.sqrt_ratio_next).0 max)
        | inr early ↦ inr (
            ap (u.sub (u.sub remaining step.amount_in))
              (early_fee current target liquidity remaining fee early)
            ∙ sub_self _ (h.sub_fits remaining step.amount_in))
      ]

  -- Two outcomes that differ at most in the tick of a swap that is over.
  SameOutcome : Bool → Outcome → Outcome → Type 0
  SameOutcome zero_for_one a b =
      (a ≡ b)
      ⊎ ((s t : Swap) × (a ≡ goes_on s)
          × (b ≡ goes_on t)
          × (is_done u zero_for_one s ≡ true)
          × (is_done u zero_for_one t ≡ true)
          × (s.amount_out ≡ t.amount_out))

  -- A price that is the target and not that of the next tick is the limit.
  at_limit :
      (zero_for_one : Bool) (next : ℤ) (price : ℕ)
      → target_price u zero_for_one next ≡ price
      → (price == get_sqrt_ratio_at_tick_u256_compute u next) ≡ false
      → price ≡ price_limit u zero_for_one
  unfolding target_price
  at_limit zero_for_one next price aimed other =
      chosen_limit _ (price_limit u zero_for_one) (get_sqrt_ratio_at_tick_u256_compute u next) price
        aimed other

  after_step_done :
      (f : ℕ → ℤ) (p : V3Pool) (zero_for_one : Bool) (next : ℤ) (initialized : Bool) (s : Swap)
      (step : SwapStep)
      → (step.sqrt_ratio_next == get_sqrt_ratio_at_tick_u256_compute u next) ≡ false
      → (target_price u zero_for_one next ≡ step.sqrt_ratio_next)
        ⊎ (u.sub (u.sub s.remaining step.amount_in) step.fee_amount ≡ 0)
      → is_done u zero_for_one (after_step u f p zero_for_one next initialized s step) ≡ true
  unfolding after_step
  after_step_done f p zero_for_one next initialized s step other (inl aimed) =
      is_over _ step.sqrt_ratio_next (price_limit u zero_for_one)
        (inr (at_limit zero_for_one next step.sqrt_ratio_next aimed other))
  after_step_done f p zero_for_one next initialized s step other (inr spent) =
      is_over _ step.sqrt_ratio_next (price_limit u zero_for_one) (inl spent)

  swap_loop_done :
      (f : ℕ → ℤ) (left : ℕ) (p : V3Pool) (zero_for_one : Bool) (s : Swap)
      → is_done u zero_for_one s ≡ true
      → swap_loop u f left p zero_for_one s ≡ s.amount_out
  unfolding swap_loop
  swap_loop_done f zero p zero_for_one s done = rw done refl
  swap_loop_done f (suc left) p zero_for_one s done = rw (swap_loop, done) refl

  module _ (f g : ℕ → ℤ) where
    after_step_reached :
        (p : V3Pool) (zero_for_one : Bool) (next : ℤ) (initialized : Bool) (s : Swap)
        (step : SwapStep)
        → (step.sqrt_ratio_next == get_sqrt_ratio_at_tick_u256_compute u next) ≡ true
        → after_step u f p zero_for_one next initialized s step
          ≡ after_step u g p zero_for_one next initialized s step
    unfolding after_step
    after_step_reached p zero_for_one next initialized s step reached = rw reached refl

    after_step_out :
        (p : V3Pool) (zero_for_one : Bool) (next : ℤ) (initialized : Bool) (s : Swap)
        (step : SwapStep)
        → (after_step u f p zero_for_one next initialized s step).amount_out
          ≡ (after_step u g p zero_for_one next initialized s step).amount_out
    unfolding after_step
    after_step_out p zero_for_one next initialized s step = refl

    compute_round_same :
        (p : V3Pool) (zero_for_one : Bool) (next : ℤ) (initialized : Bool) (s : Swap)
        → SameOutcome zero_for_one
            (compute_round u f p zero_for_one next initialized s)
            (compute_round u g p zero_for_one next initialized s)
    unfolding compute_round SameOutcome
    compute_round_same p zero_for_one next initialized s =
        let target = target_price u zero_for_one next in
        let step = compute_swap_step_u256 u s.sqrt_price target s.liquidity s.remaining p.fee in
        let ends = step_ends s.sqrt_price target s.liquidity s.remaining p.fee in
        elim (Bool-cases (step.sqrt_ratio_next == get_sqrt_ratio_at_tick_u256_compute u next)) [
          | inl reached ↦
              inl (ap goes_on (after_step_reached p zero_for_one next initialized s step reached))
          | inr other ↦ inr (
            after_step u f p zero_for_one next initialized s step,
            after_step u g p zero_for_one next initialized s step,
            refl,
            refl,
            after_step_done f p zero_for_one next initialized s step other ends,
            after_step_done g p zero_for_one next initialized s step other ends,
            after_step_out p zero_for_one next initialized s step,
          )
        ]

    swap_round_same :
        (p : V3Pool) (zero_for_one : Bool) (next : ℤ) (initialized : Bool) (s : Swap)
        → SameOutcome zero_for_one
            (swap_round u f p zero_for_one next initialized s)
            (swap_round u g p zero_for_one next initialized s)
    unfolding swap_round SameOutcome
    swap_round_same p zero_for_one next true s = compute_round_same p zero_for_one next true s
    swap_round_same p zero_for_one next false s =
        elim (Option-cases (lookup_int next (pre_steps p zero_for_one))) [
          | inl missing ↦ rw missing (compute_round_same p zero_for_one next false s)
          | inr (ps, found) ↦ elim (Bool-cases (ltb s.remaining ps.total_cost)) [
            | inl short ↦ rw (found, short) (compute_round_same p zero_for_one next false s)
            | inr covered ↦ rw (found, covered) (inl refl)
          ]
        ]

    next_round_same :
        (p : V3Pool) (zero_for_one : Bool) (s : Swap)
        → SameOutcome zero_for_one
            (next_round u f p zero_for_one s)
            (next_round u g p zero_for_one s)
    unfolding next_round SameOutcome
    next_round_same p zero_for_one s =
        elim (Option-cases (next_initialized_tick u p s.tick zero_for_one)) [
          | inl outside ↦ rw (next_round, outside) (inl refl)
          | inr ((next, initialized), found) ↦
              let init_gas = if p.heavy_gas then 55000 else 25000 in
              let gas = s.gas + (if initialized then init_gas else 7000) in
              elim (Bool-cases (ltb 4800000 gas)) [
                | inl heavy ↦ rw (next_round, found, heavy) (inl refl)
                | inr light ↦
                    rw (next_round, found, light)
                      (swap_round_same p zero_for_one (clamp_tick next) initialized
                        (record s { gas = gas }))
              ]
        ]

    -- What follows an outcome, where the loops agree.
    rest_same :
        (a b : Swap → ℕ) (o : Outcome)
        → ((t : Swap) → a t ≡ b t)
        → elim o [ returns amount ↦ amount | goes_on t ↦ a t ]
          ≡ elim o [ returns amount ↦ amount | goes_on t ↦ b t ]
    rest_same a b (returns amount) agree = refl
    rest_same a b (goes_on t) agree = agree t

    swap_loop_same :
        (left : ℕ) (p : V3Pool) (zero_for_one : Bool) (s : Swap)
        → swap_loop u f left p zero_for_one s ≡ swap_loop u g left p zero_for_one s
    unfolding swap_loop SameOutcome
    swap_loop_same zero p zero_for_one s = refl
    swap_loop_same (suc left) p zero_for_one s = elim (Bool-cases (is_done u zero_for_one s)) [
      | inl over ↦ rw (swap_loop, over) refl
      | inr more ↦
          rw (swap_loop, more)
            (elim (next_round_same p zero_for_one s) [
              | inl same ↦ rw same (
                  rest_same (swap_loop u f left p zero_for_one) (swap_loop u g left p zero_for_one)
                    (next_round u g p zero_for_one s) (λ t. swap_loop_same left p zero_for_one t))
              | inr (t, t', here, there, done, done', out) ↦
                  rw (here, there)
                    (swap_loop_done f left p zero_for_one t done
                      ∙ out
                      ∙ sym (swap_loop_done g left p zero_for_one t' done'))
            ])
    ]

    quote_with_same :
        (p : V3Pool) (amount_in token_in token_out : ℕ)
        → quote_with u f p amount_in token_in token_out
          ≡ quote_with u g p amount_in token_in token_out
    unfolding quote_with
    quote_with_same p amount_in token_in token_out =
        elim (Bool-cases ((amount_in == 0) || (p.sqrt_price == 0))) [
          | inl nothing ↦ rw nothing refl
          | inr more ↦
              rw more (swap_loop_same 500 p (ltb token_in token_out) (start_swap p amount_in))
        ]

  -- Quote of a V3 pool does not depend on getTickAtSqrtRatioU256: with any other function from
  -- prices to ticks in its place the result is the same, because a step that stops between two
  -- ticks ends the swap.
  pub quote-tick_free :
      (f : ℕ → ℤ) (p : V3Pool) (amount_in token_in token_out : ℕ)
      → quote u p amount_in token_in token_out ≡ quote_with u f p amount_in token_in token_out
  unfolding quote
  quote-tick_free f = quote_with_same (get_tick_at_sqrt_ratio_u256 u) f
