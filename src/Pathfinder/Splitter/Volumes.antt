-- ===== src/Pathfinder/Splitter/Volumes.antt =====
-- pathfinder/splitter/greedy.go: the volumes and outputs of the legs.
use mathlib.Core.Path.{subst}
use native.Mathlib.Nat.{div-mul-le_self, mul-le-mul_right}
use defi_toolbox_avalanche.Common.{
  ℕ, zero, suc, ◌+◌, ◌*◌, ◌/◌, ◌%◌, ◌≤◌, ◌≡◌, refl, Option, none, some, List, [], ◌∷◌, ◌++◌, ◌==◌,
  arith, length, length-append, Bool-cases, Option-cases, inl, inr,
}
use defi_toolbox_avalanche.Uint256.{Uint256, IsUint256, word}
use defi_toolbox_avalanche.Statedb.Immutable.{merge₂}
use defi_toolbox_avalanche.Pathfinder.Splitter.{
  route_steps, Dirty, Swapped, Market, SplitLeg, SplitResult, no_legs, append_leg, after_swap,
  greedy_loop, greedy,
}

-- The input of the legs, and their output.
abbrev pub volumes : List SplitLeg → ℕ
volumes [] = 0
volumes (leg ∷ legs) = leg.volume + volumes legs

abbrev pub outputs : List SplitLeg → ℕ
outputs [] = 0
outputs (leg ∷ legs) = leg.output + outputs legs

-- The legs take `given`, there are `count` of them, and their total is that of their outputs as a word.
pub record Shares (given count : ℕ) (r : SplitResult) : Type 0 where
  pub takes : volumes r.legs ≡ given
  pub counted : length r.legs ≡ count
  pub totals : r.total ≡ outputs r.legs % word

snoc_volumes :
    (leg : SplitLeg) (legs : List SplitLeg)
    → volumes (legs ++ (leg ∷ [])) ≡ volumes legs + leg.volume
snoc_volumes leg [] = omega arith
snoc_volumes leg (l ∷ legs) = omega (arith, snoc_volumes leg legs)

snoc_outputs :
    (leg : SplitLeg) (legs : List SplitLeg)
    → outputs (legs ++ (leg ∷ [])) ≡ outputs legs + leg.output
snoc_outputs leg [] = omega arith
snoc_outputs leg (l ∷ legs) = omega (arith, snoc_outputs leg legs)

pub no_legs-Shares : (chunk : ℕ) → Shares (0 * chunk) 0 no_legs
no_legs-Shares chunk = record { takes = omega arith; counted = refl; totals = refl }

zero_more : (n : ℕ) → n + 0 ≡ n
zero_more n = omega arith

module _ (u : Uint256) (h : IsUint256 u) where
  pub append_leg-Shares :
      (given count : ℕ) (leg : SplitLeg) (r : SplitResult)
      → Shares given count r
      → Shares (given + leg.volume) (count + 1) (append_leg u leg r)
  unfolding append_leg
  append_leg-Shares given count leg r shares = record {
    takes = omega (arith, shares.takes, snoc_volumes leg r.legs);
    counted = omega (arith, shares.counted, length-append r.legs (leg ∷ []));
    totals = omega (arith, shares.totals, snoc_outputs leg r.legs, h.add_lem r.total leg.output);
  }

  module _ (market : Market) where
    -- At most the chunks left are added, each of the same size.
    abbrev Adds : ℕ → ℕ → ℕ → SplitResult → Type 0
    Adds n count chunk r = (m : ℕ) × (m ≤ n) × Shares ((count + m) * chunk) (count + m) r

    stays-Adds :
        (n count chunk : ℕ) (r : SplitResult)
        → Shares (count * chunk) count r
        → Adds n count chunk r
    stays-Adds n count chunk r shares = (0, omega arith, rw (zero_more count) shares)

    one_more :
        (n count chunk : ℕ) (r : SplitResult)
        → Adds n (count + 1) chunk r
        → Adds (suc n) count chunk r
    one_more n count chunk r (m, few, shares) =
        let moved : count + 1 + m ≡ count + (m + 1) = omega arith in
        (m + 1, omega arith, rw (← moved) shares)

    -- A leg of the chunk's size was appended.
    with_leg :
        (count chunk : ℕ) (leg : SplitLeg) (r : SplitResult)
        → leg.volume ≡ chunk
        → Shares (count * chunk) count r
        → Shares ((count + 1) * chunk) (count + 1) (append_leg u leg r)
    with_leg count chunk leg r size shares =
        let total : count * chunk + leg.volume ≡ (count + 1) * chunk = grind arith in
        rw (← total) (append_leg-Shares (count * chunk) count leg r shares)

    after_swap-Adds :
        (n count chunk : ℕ) (next : Dirty → SplitResult) (dirty : Dirty) (r : SplitResult)
        (swapped : Option Swapped)
        → Shares (count * chunk) count r
        → ((d : Dirty) → Adds n count chunk (next d))
        → Adds n count chunk (after_swap u market next dirty r swapped)
    after_swap-Adds n count chunk next dirty r none shares rest = stays-Adds n count chunk r shares
    after_swap-Adds n count chunk next dirty r (some s) shares rest = rest (merge₂ s.dirty dirty)

    greedy_loop-Adds :
        (n count chunk : ℕ) (quotes : Option Dirty) (dirty : Dirty) (r : SplitResult)
        → Shares (count * chunk) count r
        → Adds n count chunk (greedy_loop u market n chunk quotes dirty r)
    unfolding greedy_loop
    greedy_loop-Adds zero count chunk quotes dirty r shares = stays-Adds 0 count chunk r shares
    greedy_loop-Adds (suc n) count chunk quotes dirty r shares =
        elim (Option-cases (market.find_best_route quotes dirty chunk)) [
          | inl missing ↦ rw missing (stays-Adds (suc n) count chunk r shares)
          | inr (route, found) ↦
              let leg : SplitLeg = record {
                steps = route_steps route;
                volume = chunk;
                output = route.amount_out;
                gas_used = route.gas_used;
              } in
              let r' = append_leg u leg r in
              let shares' = with_leg count chunk leg r refl shares in
              let next : Dirty → SplitResult = λ d. greedy_loop u market n chunk (some d) d r' in
              rw found (
                one_more n count chunk
                  (after_swap u market next dirty r'
                    (market.execute dirty (route_steps route) chunk))
                  (after_swap-Adds n (count + 1) chunk next dirty r'
                    (market.execute dirty (route_steps route) chunk) shares'
                    (λ d. greedy_loop-Adds n (count + 1) chunk (some d) d r' shares')))
        ]

    -- Whatever the market answers, a result of Greedy has at most as many legs as there are
    -- chunks, their volumes add up to that many times the input divided by the chunks, rounded
    -- down, which is at most the input, and its total is the sum of the outputs modulo 2^256.
    pub greedy-volumes :
        (amount_in chunks : ℕ) (r : SplitResult)
        → greedy u market amount_in chunks ≡ some r
        → (m : ℕ) × (m ≤ chunks)
          × (m * (amount_in / chunks) ≤ amount_in)
          × Shares (m * (amount_in / chunks)) m r
    unfolding greedy
    greedy-volumes amount_in chunks r ran =
        let chunk = u.div amount_in chunks in
        elim (Bool-cases (chunk == 0)) [
          | inl none_left ↦ let clash = rw none_left at ran in ground arith
          | inr given ↦
              let eq : greedy_loop u market chunks chunk none [] no_legs ≡ r = ground arith in
              let (m, few, shares) =
                greedy_loop-Adds chunks 0 chunk none [] no_legs (no_legs-Shares chunk) in
              let counted : 0 + m ≡ m = omega arith in
              let parts : Shares (m * chunk) m (greedy_loop u market chunks chunk none [] no_legs) =
                rw counted at shares in
              let size : chunk ≡ amount_in / chunks = h.div_lem amount_in chunks in
              let scaled : m * (amount_in / chunks) ≤ chunks * (amount_in / chunks) =
                mul-le-mul_right (amount_in / chunks) few in
              (
                m,
                few,
                grind (arith, div-mul-le_self amount_in chunks),
                subst (λ c. Shares (m * c) m r) size
                    (subst (λ r'. Shares (m * chunk) m r') eq parts),
              )
        ]
