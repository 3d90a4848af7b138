-- ===== src/Pathfinder/Splitter/Mixed.antt =====
-- pathfinder/splitter/greedymixed.go: chunks whose sizes a schedule of percentages gives.
pub mod Rounds
use defi_toolbox_avalanche.Common.{
  ℕ, zero, suc, ◌+◌, ◌%◌, ◌^◌, Bool, ◌||◌, Option, none, some, List, [], ◌∷◌, ◌==◌, if◌then◌else◌,
}
use defi_toolbox_avalanche.Uint256.{Uint256}
use defi_toolbox_avalanche.Formulas.MulDiv.{◌>>=◌}
use defi_toolbox_avalanche.Statedb.Immutable.{merge₂}
use defi_toolbox_avalanche.Pathfinder.Splitter.{
  route_steps, Dirty, Route, Swapped, Market, SplitLeg, SplitResult, no_legs, append_leg,
}
use defi_toolbox_avalanche.Pathfinder.Splitter.Dynamic.{clip, bad_output, some_legs}

-- The variables of the loop.
pub record MixedState : Type 0 where
  pub routed : ℕ
  pub quotes : Option Dirty
  pub dirty : Dirty
  pub result : SplitResult

abbrev pub mixed_start : MixedState
mixed_start = record { routed = 0; quotes = none; dirty = []; result = no_legs }

-- `sched.Chunks[i]` for the chunks that are left, or the last entry.
abbrev pub next_percent : ℕ → List ℕ → ℕ
next_percent last_pct [] = last_pct
next_percent last_pct (pct ∷ _) = pct

abbrev pub later_percents : List ℕ → List ℕ
later_percents [] = []
later_percents (_ ∷ chunks) = chunks

-- `sched.Chunks[len(sched.Chunks)-1]`, after an entry.
abbrev pub last_percent : ℕ → List ℕ → ℕ
last_percent pct [] = pct
last_percent pct (next ∷ chunks) = last_percent next chunks

module _ (u : Uint256) (market : Market) where
  -- The state after a leg of the volume.
  abbrev pub mixed_advance : MixedState → ℕ → Route → Swapped → MixedState
  mixed_advance s vol route swapped = record {
    routed = u.add s.routed vol;
    quotes = some (merge₂ swapped.dirty s.dirty);
    dirty = merge₂ swapped.dirty s.dirty;
    result =
        append_leg u
          (record {
            steps = route_steps route;
            volume = vol;
            output = swapped.output;
            gas_used = swapped.gas_used;
          })
          s.result;
  }

  -- The next state, when the swap goes through.
  abbrev pub mixed_commit : MixedState → ℕ → Route → Option Swapped → Option MixedState
  mixed_commit s vol route none = none
  mixed_commit s vol route (some swapped) =
      if bad_output swapped.output then none else some (mixed_advance s vol route swapped)

  abbrev pub run_route : MixedState → ℕ → Route → Option MixedState
  run_route s vol route = mixed_commit s vol route (market.execute s.dirty (route_steps route) vol)

  module _ (amount_in one_percent : ℕ) where
    -- One round; none is a break.
    unfoldable pub mixed_round : ℕ → MixedState → Option MixedState
    mixed_round pct s =
        let remaining = u.sub amount_in s.routed in
        let vol = clip (u.mul one_percent pct) remaining in
        if (remaining == 0) || (vol == 0)
        then none
        else market.find_best_route s.quotes s.dirty vol >>= run_route s vol

    -- The loop, which has no bound of its own; none is a lack of fuel.
    unfoldable pub mixed_loop : ℕ → ℕ → List ℕ → MixedState → Option MixedState
    unfolding mixed_round
    mixed_loop zero last_pct chunks s = none
    mixed_loop (suc n) last_pct chunks s = elim (mixed_round (next_percent last_pct chunks) s) [
      | none ↦ some s
      | some s' ↦ mixed_loop n last_pct (later_percents chunks) s'
    ]

  -- `GreedyMixed`; none is a panic or a lack of fuel, and a nil result is `some none`.
  unfoldable pub greedy_mixed : ℕ → List ℕ → Option (Option SplitResult)
  unfolding mixed_loop
  greedy_mixed amount_in chunks =
      let one_percent = u.div amount_in 100 in
      if one_percent == 0 then some none else elim chunks [
        | [] ↦ none
        | pct ∷ later ↦
            mixed_loop amount_in one_percent (amount_in + 1) (last_percent pct later) (pct ∷ later)
              mixed_start
            >>= (λ s. some (some_legs s.result))
      ]
