-- ===== src/Pathfinder/Splitter/Optimized.antt =====
-- pathfinder/splitter/optimized2.go, optimizedTwoPhase: GreedyMixed finds the paths, and the input is
-- allocated anew over them.
use defi_toolbox_avalanche.Common.{
  All, length, ℕ, ◌≤◌, ◌<◌, ◌≡◌, refl, Option, none, some, List, [], ◌∷◌, ltb, if◌then◌else◌, arith,
  Bool-cases, inl, inr,
}
use defi_toolbox_avalanche.Uint256.{Uint256, IsUint256, word}
use defi_toolbox_avalanche.Formulas.MulDiv.{◌>>=◌}
use defi_toolbox_avalanche.Pathfinder.QuotePath.{PoolQuote}
use defi_toolbox_avalanche.Pathfinder.Splitter.{Dirty, Market, SplitLeg, SplitResult}
use defi_toolbox_avalanche.Pathfinder.Splitter.Dynamic.{path_key}
use defi_toolbox_avalanche.Pathfinder.Splitter.Dynamic.Legs.{AllGood}
use defi_toolbox_avalanche.Pathfinder.Splitter.Mixed.{greedy_mixed}
use defi_toolbox_avalanche.Pathfinder.Splitter.Mixed.Rounds.{IsSplit, greedy_mixed-IsSplit}
use defi_toolbox_avalanche.Pathfinder.Splitter.Allocate.{
  is_seen, collect_from, collect_paths, allocate_across_paths,
}
use defi_toolbox_avalanche.Pathfinder.Splitter.Allocate.Rounds.{allocate_across_paths-IsSplit}

-- `SchedShuffle2` and `SchedFrontLoaded`
abbrev pub sched_shuffle2 : List ℕ
sched_shuffle2 =
    10 ∷ 5 ∷ 2 ∷ 10 ∷ 5 ∷ 2 ∷ 10 ∷ 5 ∷ 2 ∷ 5 ∷ 2 ∷ 5 ∷ 2 ∷ 5 ∷ 2 ∷ 5 ∷ 2 ∷ 5 ∷ 2 ∷ 5 ∷ 2 ∷ 2 ∷ 2 ∷ 2
    ∷ []

abbrev pub sched_front_loaded : List ℕ
sched_front_loaded =
    15 ∷ 12 ∷ 10 ∷ 8 ∷ 5 ∷ 5 ∷ 3 ∷ 3 ∷ 3 ∷ 2 ∷ 2 ∷ 2 ∷ 2 ∷ 2 ∷ 2 ∷ 2 ∷ 2 ∷ 1 ∷ 1 ∷ 1 ∷ 1 ∷ 1 ∷ 1 ∷ 1
    ∷ 1 ∷ 1 ∷ 1 ∷ 1 ∷ 1 ∷ 1 ∷ 1 ∷ 1 ∷ 1 ∷ 1 ∷ 1 ∷ 1 ∷ []

-- The second where it is not nil and its total is greater.
unfoldable pub greater : SplitResult → Option SplitResult → SplitResult
greater r none = r
greater r (some other) = if ltb r.total other.total then other else r

module _ (u : Uint256) (market : Market) (quotes : Option Dirty → PoolQuote) where
  -- The second phase, after the result of the first.
  unfoldable pub reallocate : ℕ → Option SplitResult → Option (Option SplitResult)
  unfolding collect_paths allocate_across_paths greater
  reallocate amount_in none = some none
  reallocate amount_in (some phase1) =
      allocate_across_paths u market quotes amount_in (collect_paths phase1.legs)
      >>= (λ phase2. some (some (greater phase1 phase2)))

  -- `optimizedTwoPhase`; none is a panic or a lack of fuel of a phase.
  unfoldable pub optimized_two_phase : ℕ → List ℕ → Option (Option SplitResult)
  unfolding greedy_mixed reallocate
  optimized_two_phase amount_in sched =
      greedy_mixed u market amount_in sched >>= reallocate amount_in

  -- `OptimizedV2` and `OptimizedV3`
  unfoldable pub optimized_v2 : ℕ → Option (Option SplitResult)
  unfolding optimized_two_phase
  optimized_v2 amount_in = optimized_two_phase amount_in sched_shuffle2

  unfoldable pub optimized_v3 : ℕ → Option (Option SplitResult)
  unfolding optimized_two_phase
  optimized_v3 amount_in = optimized_two_phase amount_in sched_front_loaded

-- The total of a result, where nil has none.
abbrev pub total_of : Option SplitResult → ℕ
total_of none = 0
total_of (some r) = r.total

greater-IsSplit :
    (amount_in : ℕ) (r : SplitResult) (other : Option SplitResult)
    → IsSplit amount_in (some r)
    → IsSplit amount_in other
    → IsSplit amount_in (some (greater r other))
      × (r.total ≤ (greater r other).total)
      × (total_of other ≤ (greater r other).total)
unfolding greater
greater-IsSplit amount_in r none split others = (split, omega arith, omega arith)
greater-IsSplit amount_in r (some other) split others =
    elim (Bool-cases (ltb r.total other.total)) [
      | inl more ↦ rw more (others, ground arith, omega arith)
      | inr less ↦ rw less (split, omega arith, ground arith)
    ]

-- What a strategy of two phases answers, given the first phase.
abbrev pub IsOptimized : ℕ → Option SplitResult → Option SplitResult → Type 0
IsOptimized amount_in phase1 o = IsSplit amount_in o × (total_of phase1 ≤ total_of o)

collect_from-HasStep :
    (seen : List (List ℕ)) (legs : List SplitLeg)
    → AllGood legs
    → All (λ path. 0 < length path) (collect_from seen legs)
unfolding collect_from
collect_from-HasStep seen [] good = tt
collect_from-HasStep seen (leg ∷ legs) good =
    elim (Bool-cases (is_seen (path_key leg.steps) seen)) [
      | inl again ↦ rw (collect_from, again) (collect_from-HasStep seen legs good.3)
      | inr fresh ↦
          rw (collect_from, fresh)
            (good.2, collect_from-HasStep (path_key leg.steps ∷ seen) legs good.3)
    ]

reallocate-IsOptimized :
    (u : Uint256) (h : IsUint256 u) (market : Market) (quotes : Option Dirty → PoolQuote)
    (amount_in : ℕ) (phase1 : Option SplitResult)
    → amount_in < word
    → IsSplit amount_in phase1
    → (o : Option SplitResult) × (reallocate u market quotes amount_in phase1 ≡ some o)
      × IsOptimized amount_in phase1 o
unfolding reallocate collect_paths
reallocate-IsOptimized u h market quotes amount_in none hi split = (none, refl, (tt, omega arith))
reallocate-IsOptimized u h market quotes amount_in (some r) hi split =
    let (phase2, ends, split2) =
      allocate_across_paths-IsSplit u h market quotes amount_in (collect_paths r.legs) hi
        (collect_from-HasStep [] r.legs split.5) in
    let (kept, first, second) = greater-IsSplit amount_in r phase2 split split2 in
    rw (reallocate, ends) (some (greater r phase2), refl, (kept, first))

-- For an input below 2^256, a schedule that is not empty and whatever the pools quote and the
-- market answers, GreedyMixed and optimizedTwoPhase both end, and the latter's total is at least
-- the former's, nil counting as zero. The result of optimizedTwoPhase is nil, or has 1 leg or more
-- whose volumes add up to at most the input; each leg has a step and an output that is positive
-- and below 2^255, and the total is the sum of the outputs modulo 2^256.
pub optimized_two_phase-IsOptimized :
    (u : Uint256) (h : IsUint256 u) (market : Market) (quotes : Option Dirty → PoolQuote)
    (amount_in pct : ℕ) (later : List ℕ)
    → amount_in < word
    → (phase1 : Option SplitResult) × (o : Option SplitResult) × (greedy_mixed u market amount_in
          (pct ∷ later)
        ≡ some phase1)
      × (optimized_two_phase u market quotes amount_in (pct ∷ later) ≡ some o)
      × IsOptimized amount_in phase1 o
unfolding optimized_two_phase
optimized_two_phase-IsOptimized u h market quotes amount_in pct later hi =
    let (phase1, ran, split) = greedy_mixed-IsSplit u h market amount_in pct later hi in
    let (o, ends, best) = reallocate-IsOptimized u h market quotes amount_in phase1 hi split in
    rw (optimized_two_phase, ran, ends) (phase1, o, refl, refl, best)
