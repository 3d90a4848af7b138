-- ===== src/Formulas/Price/Step.antt =====
-- computeSwapStep of formulas/v3.go, in its four cases: up or down, the target reached or not.
use native.Mathlib.Decide.{dec_le}
use native.Mathlib.Nat.{mul-le-mul_left}
use defi_toolbox_avalanche.Common.{
  ℕ, zero, suc, ◌+◌, ◌-◌, ◌*◌, ◌/◌, ◌≤◌, ◌<◌, ◌≡◌, ◌≢◌, refl, true, false, some, arith,
}
use defi_toolbox_avalanche.Formulas.MulDiv.{mul_div, mul_div_rounding_up}
use defi_toolbox_avalanche.Formulas.MulDiv.Ceiling.{
  IsCeiling, ceiling_not_covered, mul_div_rounding_up-IsCeiling, big_div-some,
}
use defi_toolbox_avalanche.Formulas.Price.{
  q96, mil, SwapStep, get_amount0_delta, get_amount1_delta, v3_get_next_price_from_input,
  compute_swap_step,
}
use defi_toolbox_avalanche.Formulas.Price.Bounds.{
  next_down_above, next_down_affordable, next_up_below, next_up_affordable, fee_affordable,
}
use defi_toolbox_avalanche.Formulas.Price.Runs.{
  amount0_up_run, amount1_up_run, amount1_rise_run, amount0_down_run, amount1_down_run, next_up_run,
  IsNextDown-run,
}

-- What a step from `current` towards `target` may do with the input `remaining`.
pub record IsSoundStep (current target remaining : ℕ) (s : SwapStep) : Type 0 where
  pub down : target ≤ current → (target ≤ s.sqrt_ratio_next) × (s.sqrt_ratio_next ≤ current)
  pub up : current ≤ target → (current ≤ s.sqrt_ratio_next) × (s.sqrt_ratio_next ≤ target)
  pub covered : s.amount_in + s.fee_amount ≤ remaining
  pub exhausted : s.sqrt_ratio_next ≢ target → s.amount_in + s.fee_amount ≡ remaining

abbrev less_fee : ℕ → ℕ → ℕ
less_fee remaining fee = remaining * (mil - fee) / mil

pos_of_product : (a b : ℕ) → 0 < a * b → 0 < a
pos_of_product zero b h = absurd (omega arith)
pos_of_product (suc a) b h = omega arith

-- An input can fall short of the target only where there is liquidity.
liquid : (liquidity gap x c : ℕ) → x < c → IsCeiling (liquidity * gap) q96 c → 0 < liquidity
liquid liquidity gap x c h up =
    let short : x * q96 < liquidity * gap = ceiling_not_covered (liquidity * gap) q96 c x up h in
    pos_of_product liquidity gap (omega arith)

module _ (current target liquidity remaining fee : ℕ) (hf : fee < mil) where
  abbrev Steps : Type 0
  Steps =
      (s : SwapStep) × (compute_swap_step current target liquidity remaining fee ≡ some s)
      × IsSoundStep current target remaining s

  mul_div_less_fee : mul_div remaining (mil - fee) mil ≡ some (less_fee remaining fee)
  unfolding mul_div
  mul_div_less_fee = big_div-some (remaining * (mil - fee)) mil (omega arith)

  -- Down, with an input that reaches the target.
  down_reaches :
      (amount out c : ℕ)
      → target ≤ current
      → get_amount0_delta target current liquidity true ≡ some amount
      → get_amount1_delta target current liquidity false ≡ some out
      → mul_div_rounding_up amount fee (mil - fee) ≡ some c
      → IsCeiling (amount * fee) (mil - fee) c
      → amount ≤ less_fee remaining fee
      → Steps
  unfolding compute_swap_step
  down_reaches amount out c way run_in run_out run_fee up reach = (
    record { sqrt_ratio_next = target; amount_in = amount; amount_out = out; fee_amount = c },
    ground (arith, mul_div_less_fee),
    record {
      down = omega arith;
      up = λ h. (omega arith, omega arith);
      covered =
          fee_affordable remaining amount fee (mil - fee) mil c (omega arith) (omega arith) reach
            up;
      exhausted = λ h. absurd (h refl);
    },
  )

  -- Down, with an input that stops above the target.
  down_stops :
      (to_target next amount out : ℕ)
      → target ≤ current
      → get_amount0_delta target current liquidity true ≡ some to_target
      → less_fee remaining fee < to_target
      → v3_get_next_price_from_input current liquidity (less_fee remaining fee) true ≡ some next
      → get_amount0_delta next current liquidity true ≡ some amount
      → get_amount1_delta next current liquidity false ≡ some out
      → target < next
      → next ≤ current
      → amount ≤ remaining
      → Steps
  unfolding compute_swap_step
  down_stops to_target next amount out way run_target short run_next run_in run_out above falls
        within =
      (
        record {
          sqrt_ratio_next = next;
          amount_in = amount;
          amount_out = out;
          fee_amount = remaining - amount;
        },
        ground (arith, mul_div_less_fee),
        record {
          down = λ h. (omega arith, falls);
          up = λ h. (omega arith, omega arith);
          covered = omega arith;
          exhausted = λ h. omega arith;
        },
      )

  -- Up, with an input that reaches the target.
  up_reaches :
      (amount out c : ℕ)
      → current < target
      → get_amount1_delta current target liquidity true ≡ some amount
      → get_amount0_delta current target liquidity false ≡ some out
      → mul_div_rounding_up amount fee (mil - fee) ≡ some c
      → IsCeiling (amount * fee) (mil - fee) c
      → amount ≤ less_fee remaining fee
      → Steps
  unfolding compute_swap_step
  up_reaches amount out c way run_in run_out run_fee up reach = (
    record { sqrt_ratio_next = target; amount_in = amount; amount_out = out; fee_amount = c },
    ground (arith, mul_div_less_fee),
    record {
      down = λ h. (omega arith, omega arith);
      up = omega arith;
      covered =
          fee_affordable remaining amount fee (mil - fee) mil c (omega arith) (omega arith) reach
            up;
      exhausted = λ h. absurd (h refl);
    },
  )

  -- Up, with an input that stops below the target.
  up_stops :
      (to_target next amount out : ℕ)
      → current < target
      → get_amount1_delta current target liquidity true ≡ some to_target
      → less_fee remaining fee < to_target
      → v3_get_next_price_from_input current liquidity (less_fee remaining fee) false ≡ some next
      → get_amount1_delta current next liquidity true ≡ some amount
      → get_amount0_delta current next liquidity false ≡ some out
      → next < target
      → current ≤ next
      → amount ≤ remaining
      → Steps
  unfolding compute_swap_step
  up_stops to_target next amount out way run_target short run_next run_in run_out below rises
        within =
      (
        record {
          sqrt_ratio_next = next;
          amount_in = amount;
          amount_out = out;
          fee_amount = remaining - amount;
        },
        ground (arith, mul_div_less_fee),
        record {
          down = λ h. (omega arith, omega arith);
          up = λ h. (rises, omega arith);
          covered = omega arith;
          exhausted = λ h. omega arith;
        },
      )

  less_fee-le : less_fee remaining fee ≤ remaining
  less_fee-le =
      let part : remaining * (mil - fee) ≤ remaining * mil =
        mul-le-mul_left remaining (omega arith) in
      omega arith

  down_case : 0 < target → target ≤ current → Steps
  down_case ht way =
      let x = less_fee remaining fee in
      let (c₁, to_target, run_target, h₁, h₂) = amount0_up_run target current liquidity ht way in
      let (out, run_out) = amount1_down_run target current liquidity way in
      let (c, run_fee, hc) =
        mul_div_rounding_up-IsCeiling to_target fee (mil - fee) (omega arith) in
      let (next, run_next, hn) = IsNextDown-run current liquidity x (omega arith) in
      elim (dec_le to_target x) [
        | yes reach ↦ down_reaches to_target out c way run_target run_out run_fee hc reach
        | no far ↦
            let short : x < to_target = omega arith in
            let above =
              next_down_above (liquidity * q96) current target x next c₁ to_target way hn h₁ h₂
                short in
            let (d₁, amount, run_in, k₁, k₂) =
              amount0_up_run next current liquidity (omega arith) hn.falls in
            let (out', run_out') = amount1_down_run next current liquidity hn.falls in
            let paid = next_down_affordable (liquidity * q96) current x next d₁ amount hn k₁ k₂ in
            down_stops to_target next amount out' way run_target short run_next run_in run_out'
              above hn.falls (omega (arith, less_fee-le))
      ]

  up_case : 0 < current → current < target → Steps
  up_case hc way =
      let x = less_fee remaining fee in
      let (to_target, run_target, h₁) = amount1_up_run current target liquidity (omega arith) in
      let (out, run_out) = amount0_down_run current target liquidity hc (omega arith) in
      let (c, run_fee, hcc) =
        mul_div_rounding_up-IsCeiling to_target fee (mil - fee) (omega arith) in
      elim (dec_le to_target x) [
        | yes reach ↦ up_reaches to_target out c way run_target run_out run_fee hcc reach
        | no far ↦
            let short : x < to_target = omega arith in
            let some_liquidity : 0 < liquidity =
              liquid liquidity (target - current) x to_target short h₁ in
            let rise = x * q96 / liquidity in
            let below =
              next_up_below liquidity q96 x (target - current) to_target some_liquidity h₁ short in
            let run_next = next_up_run current liquidity x some_liquidity in
            let (amount, run_in, k) = amount1_rise_run current rise liquidity in
            let (out', run_out') =
              amount0_down_run current (current + rise) liquidity hc (omega arith) in
            let paid = next_up_affordable liquidity q96 x amount k in
            up_stops to_target (current + rise) amount out' way run_target short run_next run_in
              run_out' (omega arith) (omega arith) (omega (arith, less_fee-le))
      ]

  -- With positive prices and a fee below 100 %, computeSwapStep never panics. It moves the price
  -- towards the target and not past it, and the input and the fee that it takes are within the
  -- input that was left; where it does not reach the target they use it up.
  pub compute_swap_step-IsSoundStep : 0 < current → 0 < target → Steps
  compute_swap_step-IsSoundStep hc ht = elim (dec_le target current) [
    | yes way ↦ down_case ht way
    | no way ↦ up_case hc (omega arith)
  ]
