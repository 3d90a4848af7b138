-- ===== src/Formulas/V2/Monotone.antt =====
-- formulas/pool_v2.go: quotes of two inputs by the same pool.
use native.Mathlib.Nat.{mul-le-mul_right, div-mul-le_self, le-div_iff_mul-le}
use mathlib.Core.Path.{subst, sym}
use defi_toolbox_avalanche.Common.{
  ℕ, ◌+◌, ◌-◌, ◌*◌, ◌/◌, ◌^◌, ◌≤◌, ◌<◌, ◌≡◌, ltb, arith, Bool-cases, inl, inr,
}
use defi_toolbox_avalanche.Uint256.{Uint256, IsUint256}
use defi_toolbox_avalanche.Formulas.V2.{V2Pool, fee_of, quote_from, quote}
use defi_toolbox_avalanche.Formulas.V2.Quote.{IsPool, within, amount_out_exact}

-- What covers the quote of `a` covers that of a larger `b`; `c` is the scaled reserve.
grows_by :
    (x d c rout out : ℕ)
    → out ≤ rout
    → out * (c + x) ≤ x * rout
    → out * (c + (x + d)) ≤ (x + d) * rout
grows_by x d c rout out below covered =
    let rest : out * d ≤ rout * d = mul-le-mul_right d below in grind arith

grows :
    (x y c rout out : ℕ) → x ≤ y → out ≤ rout → out * (c + x) ≤ x * rout → out * (c + y) ≤ y * rout
grows x y c rout out up below covered =
    let split : y ≡ x + (y - x) = omega arith in
    subst (λ z. out * (c + z) ≤ z * rout) (sym split) (grows_by x (y - x) c rout out below covered)

quotient_grows :
    (a b f rin rout : ℕ)
    → 0 < rin
    → a ≤ b
    → a * f * rout / (rin * 10000 + a * f) ≤ b * f * rout / (rin * 10000 + b * f)
quotient_grows a b f rin rout positive up =
    let out = a * f * rout / (rin * 10000 + a * f) in
    let covered = div-mul-le_self (a * f * rout) (rin * 10000 + a * f) in
    let inputs : a * f ≤ b * f = mul-le-mul_right f up in
    (le-div_iff_mul-le (omega arith)).1 (
      grows (a * f) (b * f) (rin * 10000) rout out inputs (within a f rin rout out positive covered)
        covered)

module _ (u : Uint256) (h : IsUint256 u) where
  quote_from_grows :
      (a b f rin rout balance : ℕ)
      → balance ≡ 0
      → a ≤ b
      → b < 2 ^ 128
      → f ≤ 10000
      → 0 < rin
      → rin < 2 ^ 112
      → rout < 2 ^ 112
      → quote_from u a f rin rout balance ≤ quote_from u b f rin rout balance
  quote_from_grows a b f rin rout balance unknown up hb hf positive hin hout =
      rw
        (
          unknown,
          amount_out_exact u h a f rin rout (omega arith) hf positive hin hout,
          amount_out_exact u h b f rin rout hb hf positive hin hout,
        )
        (quotient_grows a b f rin rout positive up)

  -- For positive reserves below 2^112, a fee factor of at most 10000, balances that are not known
  -- and inputs below 2^128, Quote of a V2 pool does not fall as the input grows.
  pub quote_grows :
      (p : V2Pool) (a b token_in token_out : ℕ)
      → IsPool p
      → p.balance0 ≡ 0
      → p.balance1 ≡ 0
      → a ≤ b
      → b < 2 ^ 128
      → quote u p a token_in token_out ≤ quote u p b token_in token_out
  unfolding quote
  quote_grows p a b token_in token_out pool none0 none1 up hb =
      elim (Bool-cases (ltb token_in token_out)) [
        | inl down ↦ elim (Bool-cases p.dead_dir0) [
          | inl dead ↦ rw (down, dead) (omega arith)
          | inr live ↦
              rw (down, live)
                (quote_from_grows a b (fee_of p) p.reserve0 p.reserve1 p.balance1 none1 up hb
                  pool.fee pool.has0 pool.fits0 pool.fits1)
        ]
        | inr back ↦ elim (Bool-cases p.dead_dir1) [
          | inl dead ↦ rw (back, dead) (omega arith)
          | inr live ↦
              rw (back, live)
                (quote_from_grows a b (fee_of p) p.reserve1 p.reserve0 p.balance0 none0 up hb
                  pool.fee pool.has1 pool.fits1 pool.fits0)
        ]
      ]
