-- ===== src/Formulas/V3/Lossless.antt =====
-- formulas/pool_v3.go, precomputeSteps and Quote: the steps computed ahead beside those of
-- computeSwapStepU256.
use native.Mathlib.Nat.{
  mod-eq_of_lt, mod-le, div-add-mod', mod-lt, mul-le-mul, mul-le-mul_right, div-le_self,
  le-div_iff_mul-le, div-le_of_le-mul,
}
use defi_toolbox_avalanche.Common.{
  ℕ, ◌+◌, ◌-◌, ◌*◌, ◌/◌, ◌%◌, ◌^◌, ◌≤◌, ◌<◌, ◌≡◌, ◌∙◌, ap, refl, Bool, true, false, not, arith, ltb,
  ◌==◌, if◌then◌else◌, Bool-cases, inl, inr,
}
use defi_toolbox_avalanche.Uint256.{Uint256, IsUint256, word}
use defi_toolbox_avalanche.Formulas.MulDiv.{
  mul_div_u256, mul_div_rounding_up_u256, unsafe_div_rounding_up_u256,
}
use defi_toolbox_avalanche.Formulas.MulDiv.Agree.{mul_div_rounding_up_u256_lem}
use defi_toolbox_avalanche.Formulas.Price.Agree.{sub_prices, difference_small, share-le}
use defi_toolbox_avalanche.Formulas.Price.{mil, q96, lower, higher}
use defi_toolbox_avalanche.Formulas.Price.Words.{
  compute_swap_step_u256, get_amount0_delta_u256, get_amount1_delta_u256,
}
use defi_toolbox_avalanche.Formulas.V3.Precompute.{full_step}

-- A fee that is at least the share of the input leaves room for the input.
room : (x f fee c r : ℕ) → fee + c ≡ mil → x * fee ≤ f * c → x + f ≤ r → x ≤ r * c / mil
room x f fee c r whole covers fits =
    (le-div_iff_mul-le (omega arith)).1
      (grind (arith, mul-le-mul_right c fits, ap (λ z. x * z) whole))

below_mil : (fee c : ℕ) → fee + c ≡ mil → c ≤ mil
below_mil fee c whole = omega arith

ceiling_covers :
    (n c r : ℕ) → 0 < c → r ≡ (if n % c == 0 then n / c else n / c + 1) → (n ≤ r * c) × (r ≤ n + 1)
ceiling_covers n c r pos ceiling =
    let parts : n / c * c + n % c ≡ n = div-add-mod' n c in
    let rest : n % c < c = mod-lt n pos in
    let least : n / c ≤ n = div-le_self n c in
    elim (Bool-cases (n % c == 0)) [
      | inl exact ↦
          let value : r ≡ n / c = rw exact at ceiling in (grind (arith, parts), omega arith)
      | inr more ↦
          let value : r ≡ n / c + 1 = rw more at ceiling in (grind (arith, parts), omega arith)
    ]

same : (n : ℕ) → (n == n) ≡ true
same n = ground arith

module _ (u : Uint256) (h : IsUint256 u) where
  up-le : (a b d : ℕ) → mul_div_rounding_up_u256 u a b d ≤ a * b / d + 1
  unfolding mul_div_rounding_up_u256 mul_div_u256
  up-le a b d =
      let below : u.mul_div a b d ≤ a * b / d =
        omega (arith, h.mul_div_lem a b d, mod-le (a * b / d) word) in
      elim (Bool-cases (u.mod_of (u.mul a b) d == 0)) [
        | inl exact ↦ rw exact (omega arith)
        | inr more ↦ rw (more, h.add_lem) (omega (arith, below, mod-le (u.mul_div a b d + 1) word))
      ]

  -- The step, where the input less the fee covers the way to the target.
  full :
      (current target liquidity remaining fee : ℕ) (zero_for_one : Bool)
      → not (ltb current target) ≡ zero_for_one
      → ltb
          (mul_div_u256 u remaining ((mil + 2 ^ 64 - fee) % 2 ^ 64) mil)
          (full_step u fee zero_for_one current target liquidity).amount_in
        ≡ false
      → compute_swap_step_u256 u current target liquidity remaining fee ≡ record {
        sqrt_ratio_next = target;
        amount_in = (full_step u fee zero_for_one current target liquidity).amount_in;
        amount_out = (full_step u fee zero_for_one current target liquidity).amount_out;
        fee_amount = (full_step u fee zero_for_one current target liquidity).fee_amount;
      }
  unfolding compute_swap_step_u256 full_step
  full current target liquidity remaining fee true dir covered =
      rw (compute_swap_step_u256, dir, covered, same target) refl
  full current target liquidity remaining fee false dir covered =
      rw (compute_swap_step_u256, dir, covered, same target) refl

  unsafe_up-le : (a d : ℕ) → unsafe_div_rounding_up_u256 u a d ≤ a / d + 1
  unfolding unsafe_div_rounding_up_u256
  unsafe_up-le a d = elim (Bool-cases (u.mod_of a d == 0)) [
    | inl exact ↦ rw (exact, h.div_lem a d) (omega arith)
    | inr more ↦ rw (more, h.add_lem, h.div_lem a d) (mod-le (a / d + 1) word)
  ]

  amount1_small :
      (a b liquidity : ℕ)
      → a < 2 ^ 160
      → b < 2 ^ 160
      → liquidity < 2 ^ 128
      → get_amount1_delta_u256 u a b liquidity true < 2 ^ 230
  unfolding get_amount1_delta_u256
  amount1_small a b liquidity ha hb hl =
      let diff = u.sub (higher a b) (lower a b) in
      let near : diff ≤ 2 ^ 160 = rw (sub_prices u h a b ha hb) (difference_small a b ha hb) in
      let product : liquidity * diff ≤ 2 ^ 128 * 2 ^ 160 =
        mul-le-mul {n₂ = 2 ^ 128} (omega arith) near in
      let most : liquidity * diff / q96 + 1 < 2 ^ 230 = omega arith in
      omega (arith, up-le liquidity diff q96)

  amount0_small :
      (a b liquidity : ℕ)
      → a < 2 ^ 160
      → b < 2 ^ 160
      → liquidity < 2 ^ 128
      → get_amount0_delta_u256 u a b liquidity true < 2 ^ 230
  unfolding get_amount0_delta_u256
  amount0_small a b liquidity ha hb hl =
      let n1 = u.lsh liquidity 96 in
      let diff = u.sub (higher a b) (lower a b) in
      let shifted : n1 < 2 ^ 224 = omega (arith, h.lsh_lem liquidity 96) in
      let near : diff ≤ higher a b = rw (sub_prices u h a b ha hb) (omega arith) in
      let inner = mul_div_rounding_up_u256 u n1 diff (higher a b) in
      omega (
        arith,
        share-le n1 diff (higher a b) near,
        up-le n1 diff (higher a b),
        div-le_self inner (lower a b),
        unsafe_up-le inner (lower a b),
      )

  -- The input of a full step.
  amount_in_small :
      (fee current next liquidity : ℕ) (zero_for_one : Bool)
      → current < 2 ^ 160
      → next < 2 ^ 160
      → liquidity < 2 ^ 128
      → (full_step u fee zero_for_one current next liquidity).amount_in < 2 ^ 230
  unfolding full_step
  amount_in_small fee current next liquidity true hc hn hl =
      amount0_small next current liquidity hn hc hl
  amount_in_small fee current next liquidity false hc hn hl =
      amount1_small current next liquidity hc hn hl

  -- The fee of an input.
  fee_covers :
      (x fee c : ℕ)
      → x < 2 ^ 230
      → fee + c ≡ mil
      → 0 < c
      → (x * fee ≤ mul_div_rounding_up_u256 u x fee c * c)
        × (mul_div_rounding_up_u256 u x fee c < 2 ^ 251)
  fee_covers x fee c hx whole pos =
      let product : x * fee ≤ 2 ^ 230 * mil =
        mul-le-mul {n₂ = 2 ^ 230} {m₂ = mil} (omega arith) (omega arith) in
      let small : x * fee < word = omega arith in
      let least : x * fee / c ≤ x * fee = div-le_self (x * fee) c in
      let exact = mul_div_rounding_up_u256_lem u h x fee c pos (omega arith) in
      let ceiling : mul_div_rounding_up_u256 u x fee c
          ≡ (if x * fee % c == 0 then x * fee / c else x * fee / c + 1) =
        exact
        ∙ ap (λ n. if n % c == 0 then x * fee / c else x * fee / c + 1) (mod-eq_of_lt small) in
      let (covers, most) =
        ceiling_covers (x * fee) c (mul_div_rounding_up_u256 u x fee c) pos ceiling in
      (covers, omega arith)

  covered :
      (x fee c remaining : ℕ)
      → x < 2 ^ 230
      → fee + c ≡ mil
      → 0 < c
      → u.add x (mul_div_rounding_up_u256 u x fee c) ≤ remaining
      → remaining < word
      → ltb (mul_div_u256 u remaining c mil) x ≡ false
  unfolding mul_div_u256
  covered x fee c remaining hx whole pos fits hr =
      let f = mul_div_rounding_up_u256 u x fee c in
      let (covers, small) = fee_covers x fee c hx whole pos in
      let sum : u.add x f ≡ x + f = h.add_lem x f ∙ mod-eq_of_lt (omega arith) in
      let enough : x ≤ remaining * c / mil = room x f fee c remaining whole covers (omega arith) in
      let share : remaining * c / mil ≤ remaining =
        (let product : remaining * c ≤ mil * remaining =
            omega (arith, mul-le-mul_right remaining (below_mil fee c whole)) in
          div-le_of_le-mul mil product) in
      let less : u.mul_div remaining c mil ≡ remaining * c / mil =
        h.mul_div_lem remaining c mil ∙ mod-eq_of_lt (omega arith) in
      rw less (ground arith)

  total_cost_lem :
      (fee : ℕ) (zero_for_one : Bool) (current next liquidity : ℕ)
      → let ps = full_step u fee zero_for_one current next liquidity in
        ps.total_cost
        ≡ u.add ps.amount_in
            (mul_div_rounding_up_u256 u ps.amount_in fee ((mil + 2 ^ 64 - fee) % 2 ^ 64))
  unfolding full_step
  total_cost_lem fee zero_for_one current next liquidity = refl

  target_lem :
      (fee : ℕ) (zero_for_one : Bool) (current next liquidity : ℕ)
      → (full_step u fee zero_for_one current next liquidity).sqrt_price_target ≡ next
  unfolding full_step
  target_lem fee zero_for_one current next liquidity = refl

  -- For prices below 2^160, a liquidity below 2^128, a fee below 100 % and an input below 2^256
  -- that covers the total cost of a step that precomputeSteps computes from one price to another,
  -- computeSwapStepU256 from the first price to the second gives the stored price, input, output
  -- and fee.
  pub full_step_lossless :
      (fee current next liquidity remaining : ℕ)
      → current < 2 ^ 160
      → next < 2 ^ 160
      → liquidity < 2 ^ 128
      → fee < mil
      → remaining < word
      → let ps = full_step u fee (not (ltb current next)) current next liquidity in
        ps.total_cost ≤ remaining
        → compute_swap_step_u256 u current next liquidity remaining fee ≡ record {
          sqrt_ratio_next = ps.sqrt_price_target;
          amount_in = ps.amount_in;
          amount_out = ps.amount_out;
          fee_amount = ps.fee_amount;
        }
  full_step_lossless fee current next liquidity remaining hc hn hl hf hr fits =
      let zero_for_one = not (ltb current next) in
      let x = (full_step u fee zero_for_one current next liquidity).amount_in in
      let c = (mil + 2 ^ 64 - fee) % 2 ^ 64 in
      let whole : fee + c ≡ mil = omega arith in
      let cost = total_cost_lem fee zero_for_one current next liquidity in
      let small = amount_in_small fee current next liquidity zero_for_one hc hn hl in
      rw (target_lem fee zero_for_one current next liquidity) (
        full current next liquidity remaining fee zero_for_one refl
          (covered x fee c remaining small whole (omega arith) (omega arith) hr))
