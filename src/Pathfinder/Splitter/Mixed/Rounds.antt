-- ===== src/Pathfinder/Splitter/Mixed/Rounds.antt =====
-- pathfinder/splitter/greedymixed.go: the end of the loop, and the volumes and outputs of the legs.
use mathlib.Core.Path.{subst}
use defi_toolbox_avalanche.Common.{
  ℕ, zero, suc, ◌+◌, ◌-◌, ◌^◌, ◌≤◌, ◌<◌, ◌≡◌, refl, false, ◌||◌, Option, none, some, List, ◌∷◌,
  ◌==◌, arith, Bool-cases, Option-cases, inl, inr,
}
use defi_toolbox_avalanche.Uint256.{Uint256, IsUint256, word}
use defi_toolbox_avalanche.Pathfinder.Splitter.{
  route_steps, Route, Swapped, Market, SplitLeg, SplitResult, append_leg,
}
use defi_toolbox_avalanche.Pathfinder.Splitter.Dynamic.{clip, bad_output, some_legs}
use defi_toolbox_avalanche.Pathfinder.Splitter.Dynamic.Legs.{
  AllGood, snoc-AllGood, clip-le, some_legs_kept,
}
use defi_toolbox_avalanche.Pathfinder.Splitter.Mixed.{
  MixedState, mixed_start, next_percent, later_percents, last_percent, mixed_advance, mixed_commit,
  mixed_round, mixed_loop, greedy_mixed,
}
use defi_toolbox_avalanche.Pathfinder.Splitter.Volumes.{Shares, append_leg-Shares, no_legs-Shares}

module _ (u : Uint256) (h : IsUint256 u) (market : Market) (amount_in one_percent : ℕ)
    (hi : amount_in < word) where
  -- The legs so far, and that they fit into the input.
  record IsMixed (count : ℕ) (s : MixedState) : Type 0 where
    shares : Shares s.routed count s.result
    within : s.routed ≤ amount_in
    good : AllGood s.result.legs

  -- The next state has one leg more and more of the input routed.
  abbrev Follows : ℕ → MixedState → MixedState → Type 0
  Follows count s s' = IsMixed (count + 1) s' × (s.routed < s'.routed)

  remaining_left :
      (count : ℕ) (s : MixedState)
      → IsMixed count s
      → u.sub amount_in s.routed ≡ amount_in - s.routed
  remaining_left count s mixed =
      omega (arith, mixed.within, h.sub_lem amount_in s.routed hi (omega (arith, mixed.within)))

  mixed_advance-Follows :
      (count : ℕ) (s : MixedState) (vol : ℕ) (route : Route) (swapped : Swapped)
      → IsMixed count s
      → vol ≤ u.sub amount_in s.routed
      → 0 < vol
      → bad_output swapped.output ≡ false
      → Follows count s (mixed_advance u market s vol route swapped)
  unfolding append_leg
  mixed_advance-Follows count s vol route swapped mixed fits given good =
      let leg : SplitLeg = record {
        steps = route_steps route;
        volume = vol;
        output = swapped.output;
        gas_used = swapped.gas_used;
      } in
      let left = remaining_left count s mixed in
      let sum : u.add s.routed vol ≡ s.routed + vol =
        omega (arith, mixed.within, h.add_lem s.routed vol) in
      let (positive, signed) : (0 < swapped.output) × (swapped.output < 2 ^ 255) = ground arith in
      (
        record {
          shares = rw sum (append_leg-Shares u h s.routed count leg s.result mixed.shares);
          within = omega (arith, mixed.within);
          good = snoc-AllGood leg s.result.legs positive signed (omega arith) mixed.good;
        },
        omega arith,
      )

  mixed_commit-Follows :
      (count : ℕ) (s s' : MixedState) (vol : ℕ) (route : Route) (swapped : Option Swapped)
      → IsMixed count s
      → vol ≤ u.sub amount_in s.routed
      → 0 < vol
      → mixed_commit u market s vol route swapped ≡ some s'
      → Follows count s s'
  mixed_commit-Follows count s s' vol route none mixed fits given done = ground arith
  mixed_commit-Follows count s s' vol route (some swapped) mixed fits given done =
      elim (Bool-cases (bad_output swapped.output)) [
        | inl bad ↦ let clash = rw bad at done in ground arith
        | inr good ↦
            let next = mixed_advance u market s vol route swapped in
            let kept : some next ≡ some s' = rw good at done in
            let eq : next ≡ s' = ground arith in
            subst (λ z. Follows count s z) eq
              (mixed_advance-Follows count s vol route swapped mixed fits given good)
      ]

  mixed_round-Follows :
      (count pct : ℕ) (s s' : MixedState)
      → IsMixed count s
      → mixed_round u market amount_in one_percent pct s ≡ some s'
      → Follows count s s'
  unfolding mixed_round
  mixed_round-Follows count pct s s' mixed done =
      let remaining = u.sub amount_in s.routed in
      let vol = clip (u.mul one_percent pct) remaining in
      elim (Bool-cases ((remaining == 0) || (vol == 0))) [
        | inl finished ↦ let clash = rw finished at done in ground arith
        | inr more ↦
            let given : 0 < vol = ground arith in
            elim (Option-cases (market.find_best_route s.quotes s.dirty vol)) [
              | inl missing ↦ let clash = rw (more, missing) at done in ground arith
              | inr (route, found) ↦
                  mixed_commit-Follows count s s' vol route
                    (market.execute s.dirty (route_steps route) vol) mixed
                    (clip-le (u.mul one_percent pct) remaining) given (rw (more, found) at done)
            ]
      ]

  mixed_loop-IsMixed :
      (n count last_pct : ℕ) (chunks : List ℕ) (s : MixedState)
      → IsMixed count s
      → amount_in - s.routed < n
      → (t : MixedState) × (mixed_loop u market amount_in one_percent n last_pct chunks s ≡ some t)
        × (m : ℕ) × IsMixed m t
  unfolding mixed_loop
  mixed_loop-IsMixed zero count last_pct chunks s mixed fuel = absurd (omega arith)
  mixed_loop-IsMixed (suc n) count last_pct chunks s mixed fuel =
      elim (Option-cases
        (mixed_round u market amount_in one_percent (next_percent last_pct chunks) s)) [
          | inl stops ↦ rw (mixed_loop, stops) (s, refl, count, mixed)
          | inr (s', goes) ↦
              let (next, grows) =
                mixed_round-Follows count (next_percent last_pct chunks) s s' mixed goes in
              rw (mixed_loop, goes)
                (mixed_loop-IsMixed n (count + 1) last_pct (later_percents chunks) s' next
                  (omega (arith, next.within)))
        ]

-- What a strategy answers: nil, or legs that take at most the input.
abbrev pub IsSplit : ℕ → Option SplitResult → Type 0
IsSplit amount_in none = Unit
IsSplit amount_in (some r) =
    (given : ℕ) × (count : ℕ) × (given ≤ amount_in)
    × (0 < count)
    × Shares given count r
    × AllGood r.legs

pub some_legs-IsSplit :
    (amount_in given count : ℕ) (r : SplitResult)
    → given ≤ amount_in
    → Shares given count r
    → AllGood r.legs
    → IsSplit amount_in (some_legs r)
some_legs-IsSplit amount_in given count r within shares good = elim (Option-cases (some_legs r)) [
  | inl missing ↦ rw missing tt
  | inr (r', kept) ↦
      let (same, full) = some_legs_kept r r' r.legs refl kept in
      rw kept (
        subst (λ z. IsSplit amount_in (some z)) same
          (given, count, within, omega (arith, shares.counted, full), shares, good))
]

-- For an input below 2^256 and a schedule that is not empty, whatever the market answers,
-- GreedyMixed ends: fuel for one more round than the input is enough. Its result is nil, or has 1
-- leg or more whose volumes add up to at most the input; each leg has a step and an output that is
-- positive and below 2^255, and the total is the sum of the outputs modulo 2^256.
pub greedy_mixed-IsSplit :
    (u : Uint256) (h : IsUint256 u) (market : Market) (amount_in pct : ℕ) (later : List ℕ)
    → amount_in < word
    → (o : Option SplitResult) × (greedy_mixed u market amount_in (pct ∷ later) ≡ some o)
      × IsSplit amount_in o
unfolding greedy_mixed
greedy_mixed-IsSplit u h market amount_in pct later hi =
    let one_percent = u.div amount_in 100 in
    elim (Bool-cases (one_percent == 0)) [
      | inl nothing ↦ rw nothing (none, refl, tt)
      | inr given ↦
          let (t, ends, m, mixed) =
            mixed_loop-IsMixed u h market amount_in one_percent hi (amount_in + 1) 0
              (last_percent pct later) (pct ∷ later) mixed_start
              (record { shares = no_legs-Shares 0; within = omega arith; good = tt })
              (omega arith) in
          rw (given, ends)
            (
              some_legs t.result,
              refl,
              some_legs-IsSplit amount_in t.routed m t.result mixed.within mixed.shares mixed.good,
            )
    ]
