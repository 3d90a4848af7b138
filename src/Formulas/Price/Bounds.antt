-- ===== src/Formulas/Price/Bounds.antt =====
-- The inequalities behind a swap step, over plain numbers. `n` is the liquidity times 2^96, `p` the
-- current price, `t` the target, `x` the input less the fee.
use native.Mathlib.Nat.{
  mul-le-mul_left, mul-le-mul_right, lt_of_mul-lt-mul_right, div-lt_iff_lt-mul, mul-div-le,
  div-add-mod', mod-lt, div-mul-le_self, le_of_mul-le-mul_right,
}
use defi_toolbox_avalanche.Common.{ℕ, ◌+◌, ◌-◌, ◌*◌, ◌/◌, ◌%◌, ◌≤◌, ◌<◌, ◌≡◌, ap, arith}
use defi_toolbox_avalanche.Formulas.MulDiv.Ceiling.{IsCeiling, ceiling-le, ceiling_not_covered}

mul_gap : (n p t : ℕ) → t ≤ p → n * (p - t) + n * t ≡ n * p
mul_gap n p t h =
    let whole : p - t + t ≡ p = omega arith in
    let scaled : n * (p - t + t) ≡ n * p = ap (λ z. n * z) whole in omega arith

-- The next price on the way down: it covers the input, and does not rise.
pub record IsNextDown (n p x next : ℕ) : Type 0 where
  pub covers : n * p ≤ next * (n + x * p)
  pub falls : next ≤ p

pub IsNextDown-direct :
    (n p x next : ℕ) → 0 < x → 0 < p → IsCeiling (n * p) (n + x * p) next → IsNextDown n p x next
IsNextDown-direct n p x next hx hp h = record {
  covers = h.0;
  falls = ceiling-le (n * p) (n + x * p) next p h (grind arith);
}

pub IsNextDown-overflow :
    (n p x next : ℕ) → 0 < x → 0 < p → IsCeiling n (n / p + x) next → IsNextDown n p x next
IsNextDown-overflow n p x next hx hp h =
    let share : n / p * p + n % p ≡ n = div-add-mod' n p in
    let small : n % p < p = mod-lt n hp in
    record {
      covers =
          let scaled : n * p ≤ next * (n / p + x) * p = mul-le-mul_right p h.0 in
          let floor : next * (n / p * p) ≤ next * n = mul-le-mul_left next (omega arith) in
          omega arith;
      falls =
          let whole : p * 1 ≤ p * x = mul-le-mul_left p hx in
          ceiling-le n (n / p + x) next p h (omega arith);
    }

pub IsNextDown-stays : (n p : ℕ) → IsNextDown n p 0 p
IsNextDown-stays n p = record { covers = grind arith; falls = omega arith }

-- An input that does not reach the target stops above it.
pub next_down_above :
    (n p t x next c₁ c₂ : ℕ)
    → t ≤ p
    → IsNextDown n p x next
    → IsCeiling (n * (p - t)) p c₁
    → IsCeiling c₁ t c₂
    → x < c₂
    → t < next
next_down_above n p t x next c₁ c₂ htp h h₁ h₂ hx =
    let below : x * t < c₁ = ceiling_not_covered c₁ t c₂ x h₂ hx in
    let short : x * t * p < n * (p - t) = ceiling_not_covered (n * (p - t)) p c₁ (x * t) h₁ below in
    lt_of_mul-lt-mul_right (n + x * p) (omega (arith, mul_gap n p t htp, h.covers))

-- The input that the fall of the price costs, rounded up, is no more than was given.
pub next_down_affordable :
    (n p x next c₁ c₂ : ℕ)
    → IsNextDown n p x next
    → IsCeiling (n * (p - next)) p c₁
    → IsCeiling c₁ next c₂
    → c₂ ≤ x
next_down_affordable n p x next c₁ c₂ h h₁ h₂ = ceiling-le c₁ next c₂ x h₂ (
    ceiling-le (n * (p - next)) p c₁ (x * next) h₁
      (omega (arith, mul_gap n p next h.falls, h.covers)))

-- On the way up: `l` is the liquidity and `q` is 2^96.
pub next_up_below : (l q x gap c : ℕ) → 0 < l → IsCeiling (l * gap) q c → x < c → x * q / l < gap
next_up_below l q x gap c hl h hx =
    (div-lt_iff_lt-mul hl).1 (let short = ceiling_not_covered (l * gap) q c x h hx in omega arith)

pub next_up_affordable : (l q x c : ℕ) → IsCeiling (l * (x * q / l)) q c → c ≤ x
next_up_affordable l q x c h = ceiling-le (l * (x * q / l)) q c x h (mul-div-le (x * q) l)

-- The fee on an input that the rest of the amount covers: both together are within the amount.
pub fee_affordable :
    (remaining amount fee complement mil c : ℕ)
    → complement + fee ≡ mil
    → 0 < mil
    → amount ≤ remaining * complement / mil
    → IsCeiling (amount * fee) complement c
    → amount + c ≤ remaining
fee_affordable remaining amount fee complement mil c split hm h hc =
    let floor : remaining * complement / mil * mil ≤ remaining * complement =
      div-mul-le_self (remaining * complement) mil in
    let scaled : amount * mil ≤ remaining * complement / mil * mil = mul-le-mul_right mil h in
    let part : remaining * complement ≤ remaining * mil = mul-le-mul_left remaining (omega arith) in
    let within : amount ≤ remaining = le_of_mul-le-mul_right (omega arith) hm in
    let whole : amount * (complement + fee) ≡ amount * mil = ap (λ z. amount * z) split in
    let rest : c ≤ remaining - amount =
      ceiling-le (amount * fee) complement c (remaining - amount) hc
        (omega (arith, mul_gap complement remaining amount within)) in
    omega arith
