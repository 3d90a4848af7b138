-- ===== src/Formulas/V2/Quote.antt =====
-- formulas/pool_v2.go: a quote and the product of the reserves.
use native.Mathlib.Nat.{mul-le-mul_right, mul-le-mul_left, lt_of_mul-lt-mul_right, div-mul-le_self}
use mathlib.Core.Path.{subst, sym}
use defi_toolbox_avalanche.Common.{
  ℕ, ◌+◌, ◌-◌, ◌*◌, ◌/◌, ◌^◌, ◌≤◌, ◌<◌, ◌≡◌, not, ◌&&◌, ◌||◌, some, ltb, ◌==◌, if◌then◌else◌, arith,
  Bool-cases, inl, inr, ◌⊎◌,
}
use defi_toolbox_avalanche.Uint256.{Uint256, IsUint256}
use defi_toolbox_avalanche.Formulas.V2.{
  V2Pool, ten_k, fee_of, amount_out, quote_from, quote, low_reserve, high_reserve,
  new_v2_pool_with_slot, new_v2_pool, new_fraxswap_pool, reserves_slot, fraxswap_reserves_slot,
  fraxswap_fee_slot, default_factor,
}

-- What a trade of `a` against `out` may do to the reserves.
abbrev pub KeepsProduct : ℕ → ℕ → ℕ → ℕ → Type 0
KeepsProduct a rin rout out = (out ≤ rout) × (rin * rout ≤ (rin + a) * (rout - out))

pays_less :
    (a f rin k out : ℕ)
    → f ≤ 10000
    → out * (rin * 10000 + a * f) ≤ a * f * (k + out)
    → rin * (k + out) ≤ (rin + a) * k
pays_less a f rin k out fee covered =
    let scaled : f * (a * k) ≤ 10000 * (a * k) = mul-le-mul_right (a * k) fee in grind arith

pub within :
    (a f rin rout out : ℕ) → 0 < rin → out * (rin * 10000 + a * f) ≤ a * f * rout → out ≤ rout
within a f rin rout out positive covered =
    let scaled : rout * (a * f) ≤ rout * (rin * 10000 + a * f) =
      mul-le-mul_left rout (omega arith) in
    let short : out * (rin * 10000 + a * f) < (rout + 1) * (rin * 10000 + a * f) = grind arith in
    let small : out < rout + 1 = lt_of_mul-lt-mul_right (rin * 10000 + a * f) short in omega arith

nothing-KeepsProduct : (a rin rout : ℕ) → KeepsProduct a rin rout 0
nothing-KeepsProduct a rin rout =
    let more : rin * rout ≤ (rin + a) * rout = mul-le-mul_right rout (omega arith) in
    (omega arith, grind arith)

covered-KeepsProduct :
    (a f rin rout out : ℕ)
    → f ≤ 10000
    → 0 < rin
    → out * (rin * 10000 + a * f) ≤ a * f * rout
    → KeepsProduct a rin rout out
covered-KeepsProduct a f rin rout out fee positive covered =
    let below = within a f rin rout out positive covered in
    let split : rout ≡ rout - out + out = omega arith in
    (
      below,
      subst (λ r. rin * r ≤ (rin + a) * (rout - out)) (sym split)
          (pays_less a f rin (rout - out) out fee (rw (← split) covered)),
    )

-- The sizes at which the 256-bit arithmetic of a quote does not wrap: reserves of 14 bytes, and a
-- fee factor of at most one.
pub record IsPool (p : V2Pool) : Type 0 where
  pub has0 : 0 < p.reserve0
  pub has1 : 0 < p.reserve1
  pub fits0 : p.reserve0 < 2 ^ 112
  pub fits1 : p.reserve1 < 2 ^ 112
  pub fee : fee_of p ≤ 10000

abbrev pub reserve_in : V2Pool → ℕ → ℕ → ℕ
reserve_in p token_in token_out = if ltb token_in token_out then p.reserve0 else p.reserve1

abbrev pub reserve_out : V2Pool → ℕ → ℕ → ℕ
reserve_out p token_in token_out = if ltb token_in token_out then p.reserve1 else p.reserve0

module _ (u : Uint256) (h : IsUint256 u) where
  -- No operation of a quote wraps.
  pub amount_out_exact :
      (a f rin rout : ℕ)
      → a < 2 ^ 128
      → f ≤ 10000
      → 0 < rin
      → rin < 2 ^ 112
      → rout < 2 ^ 112
      → amount_out u a f rin rout ≡ a * f * rout / (rin * 10000 + a * f)
  unfolding amount_out
  amount_out_exact a f rin rout ha hf positive hin hout =
      let less_fee : a * f ≤ a * 10000 = mul-le-mul_left a hf in
      let fits : a * f * rout ≤ a * f * 2 ^ 112 = mul-le-mul_left (a * f) (omega arith) in
      let fee : u.mul a f ≡ a * f = omega (arith, h.mul_lem a f) in
      let num : u.mul (a * f) rout ≡ a * f * rout = omega (arith, h.mul_lem (a * f) rout) in
      let scaled : u.mul rin ten_k ≡ rin * 10000 = omega (arith, h.mul_lem rin ten_k) in
      let den : u.add (rin * 10000) (a * f) ≡ rin * 10000 + a * f =
        omega (arith, h.add_lem (rin * 10000) (a * f)) in
      rw (fee, num, scaled, den) (ground (arith, h.div_lem (a * f * rout) (rin * 10000 + a * f)))

  quote_from-KeepsProduct :
      (a f rin rout balance : ℕ)
      → a < 2 ^ 128
      → f ≤ 10000
      → 0 < rin
      → rin < 2 ^ 112
      → rout < 2 ^ 112
      → KeepsProduct a rin rout (quote_from u a f rin rout balance)
  quote_from-KeepsProduct a f rin rout balance ha hf positive hin hout =
      let den = rin * 10000 + a * f in
      let result = amount_out u a f rin rout in
      elim (Bool-cases (not (balance == 0) && ltb balance result)) [
        | inl short ↦ rw short (nothing-KeepsProduct a rin rout)
        | inr enough ↦
            rw (enough, amount_out_exact a f rin rout ha hf positive hin hout)
              (covered-KeepsProduct a f rin rout (a * f * rout / den) hf positive
                (div-mul-le_self (a * f * rout) den))
      ]

  -- For positive reserves below 2^112, a fee factor of at most 10000 and an input below 2^128,
  -- Quote of a V2 pool, whatever its dead directions and known balances, is at most the output
  -- reserve, and the product of the reserves after the trade is not below the product before it.
  pub quote-KeepsProduct :
      (p : V2Pool) (a token_in token_out : ℕ)
      → IsPool p
      → a < 2 ^ 128
      → KeepsProduct a
          (reserve_in p token_in token_out)
          (reserve_out p token_in token_out)
          (quote u p a token_in token_out)
  unfolding quote
  quote-KeepsProduct p a token_in token_out pool ha = elim (Bool-cases (ltb token_in token_out)) [
    | inl down ↦ elim (Bool-cases p.dead_dir0) [
      | inl dead ↦ rw (down, dead) (nothing-KeepsProduct a p.reserve0 p.reserve1)
      | inr live ↦
          rw (down, live)
            (quote_from-KeepsProduct a (fee_of p) p.reserve0 p.reserve1 p.balance1 ha pool.fee
              pool.has0 pool.fits0 pool.fits1)
    ]
    | inr up ↦ elim (Bool-cases p.dead_dir1) [
      | inl dead ↦ rw (up, dead) (nothing-KeepsProduct a p.reserve1 p.reserve0)
      | inr live ↦
          rw (up, live)
            (quote_from-KeepsProduct a (fee_of p) p.reserve1 p.reserve0 p.balance0 ha pool.fee
              pool.has1 pool.fits1 pool.fits0)
    ]
  ]

new_v2_pool_with_slot-IsPool :
    (reader : ℕ → ℕ → ℕ) (addr slot f : ℕ) (p : V2Pool)
    → f ≤ 10000
    → new_v2_pool_with_slot reader addr slot (some f) ≡ some p
    → IsPool p
unfolding new_v2_pool_with_slot
new_v2_pool_with_slot-IsPool reader addr slot f p fee built =
    let raw = reader addr slot in
    elim (Bool-cases ((low_reserve raw == 0) || (high_reserve raw == 0))) [
      | inl empty ↦ let clash = rw empty at built in ground arith
      | inr full ↦
          let made = rw full at built in
          let (fields0, fields1, fees) : (p.reserve0 ≡ low_reserve raw)
              × (p.reserve1 ≡ high_reserve raw)
              × (p.factor ≡ some f) =
            ground arith in
          record {
            has0 = ground arith;
            has1 = ground arith;
            fits0 = omega arith;
            fits1 = omega arith;
            fee = rw fees fee;
          }
    ]

-- Every pool that newV2Pool or newFraxswapPool builds, from whatever storage, has positive
-- reserves below 2^112 and a fee factor of at most 10000.
pub new_v2_pool-IsPool :
    (reader : ℕ → ℕ → ℕ) (addr : ℕ) (p : V2Pool)
    → (new_v2_pool reader addr ≡ some p) ⊎ (new_fraxswap_pool reader addr ≡ some p)
    → IsPool p
unfolding new_v2_pool new_fraxswap_pool
new_v2_pool-IsPool reader addr p (inl built) =
    new_v2_pool_with_slot-IsPool reader addr reserves_slot default_factor p (omega arith) built
new_v2_pool-IsPool reader addr p (inr built) =
    let fee_val = reader addr fraxswap_fee_slot in
    elim (Bool-cases ((fee_val == 0) || ltb ten_k fee_val)) [
      | inl bad ↦ let clash = rw bad at built in ground arith
      | inr good ↦
          new_v2_pool_with_slot-IsPool reader addr fraxswap_reserves_slot fee_val p (ground arith)
            (rw good at built)
    ]
