-- ===== src/Formulas/Price/Runs.antt =====
-- The calls that a swap step makes give a result, and what the result is.
use mathlib.Core.Path.{subst}
use defi_toolbox_avalanche.Common.{
  ℕ, zero, suc, ◌+◌, ◌-◌, ◌*◌, ◌/◌, ◌≤◌, ◌<◌, ◌≡◌, refl, true, false, some, arith, leb, Bool-cases,
  inl, inr,
}
use defi_toolbox_avalanche.Uint256.{word}
use defi_toolbox_avalanche.Formulas.MulDiv.{mul_div, big_div}
use defi_toolbox_avalanche.Formulas.MulDiv.Ceiling.{
  IsCeiling, big_div-some, mul_div_rounding_up-IsCeiling, unsafe_div_rounding_up-IsCeiling,
}
use defi_toolbox_avalanche.Formulas.Price.{
  q96, lower, higher, get_amount0_delta, get_amount1_delta, v3_get_next_price_from_input,
}
use defi_toolbox_avalanche.Formulas.Price.Bounds.{
  IsNextDown, IsNextDown-direct, IsNextDown-overflow, IsNextDown-stays,
}

ordered : (a b : ℕ) → a ≤ b → (lower a b ≡ a) × (higher a b ≡ b)
ordered a b h = ground arith

pub amount0_up_run :
    (a b l : ℕ)
    → 0 < a
    → a ≤ b
    → (c₁ c₂ : ℕ) × (get_amount0_delta a b l true ≡ some c₂)
      × IsCeiling (l * q96 * (b - a)) b c₁
      × IsCeiling c₁ a c₂
unfolding get_amount0_delta
amount0_up_run a b l ha h =
    let (c₁, run₁, up₁) = mul_div_rounding_up-IsCeiling (l * q96) (b - a) b (omega arith) in
    let (c₂, run₂, up₂) = unsafe_div_rounding_up-IsCeiling c₁ a ha in
    let (low, high) = ordered a b h in (c₁, c₂, rw (low, high, run₁) run₂, up₁, up₂)

pub amount1_up_run :
    (a b l : ℕ)
    → a ≤ b
    → (c : ℕ) × (get_amount1_delta a b l true ≡ some c) × IsCeiling (l * (b - a)) q96 c
unfolding get_amount1_delta
amount1_up_run a b l h =
    let (low, high) = ordered a b h in
    rw (low, high) (mul_div_rounding_up-IsCeiling l (b - a) q96 (omega arith))

pub amount1_rise_run :
    (p d l : ℕ) → (c : ℕ) × (get_amount1_delta p (p + d) l true ≡ some c) × IsCeiling (l * d) q96 c
amount1_rise_run p d l =
    subst (λ g. (c : ℕ) × (get_amount1_delta p (p + d) l true ≡ some c) × IsCeiling (l * g) q96 c)
      (omega arith) (amount1_up_run p (p + d) l (omega arith))

pub amount0_down_run :
    (a b l : ℕ) → 0 < a → a ≤ b → (r : ℕ) × (get_amount0_delta a b l false ≡ some r)
unfolding get_amount0_delta mul_div big_div
amount0_down_run a b l ha h =
    let (low, high) = ordered a b h in (l * q96 * (b - a) / b / a, rw (low, high) (ground arith))

pub amount1_down_run : (a b l : ℕ) → a ≤ b → (r : ℕ) × (get_amount1_delta a b l false ≡ some r)
unfolding get_amount1_delta mul_div big_div
amount1_down_run a b l h =
    let (low, high) = ordered a b h in (l * (b - a) / q96, rw (low, high) refl)

pub next_up_run :
    (p l x : ℕ) → 0 < l → v3_get_next_price_from_input p l x false ≡ some (p + x * q96 / l)
unfolding v3_get_next_price_from_input mul_div big_div
next_up_run p l x h = ground arith

pub IsNextDown-run :
    (p l x : ℕ)
    → 0 < p
    → (next : ℕ) × (v3_get_next_price_from_input p l x true ≡ some next)
      × IsNextDown (l * q96) p x next
unfolding v3_get_next_price_from_input
IsNextDown-run p l zero hp = (p, ground arith, IsNextDown-stays (l * q96) p)
IsNextDown-run p l (suc x) hp = elim (Bool-cases (leb word (suc x * p))) [
  | inl over ↦
      let (next, run, up) =
        unsafe_div_rounding_up-IsCeiling (l * q96) (l * q96 / p + suc x) (omega arith) in
      let whole = big_div-some (l * q96) p hp in
      (next, ground arith, IsNextDown-overflow (l * q96) p (suc x) next (omega arith) hp up)
  | inr under ↦
      let (next, run, up) =
        mul_div_rounding_up-IsCeiling (l * q96) p (l * q96 + suc x * p) (grind arith) in
      (next, ground arith, IsNextDown-direct (l * q96) p (suc x) next (omega arith) hp up)
]
