-- ===== src/Tests/Splitter.antt =====
-- Examples for pathfinder/splitter/greedymixed.go and optimized2.go.
use defi_toolbox_avalanche.Common.{
  zero, suc, ◌==◌, if◌then◌else◌, arith, ℕ, ◌*◌, ◌≡◌, refl, Option, none, some, List, [], ◌∷◌, map,
}
use defi_toolbox_avalanche.Uint256.Concrete.{wrapping, wrapping-IsUint256}
use defi_toolbox_avalanche.Pathfinder.Route.{RouteStep}
use defi_toolbox_avalanche.Pathfinder.Splitter.{Dirty, Market, SplitLeg, SplitResult, append_leg}
use defi_toolbox_avalanche.Pathfinder.QuotePath.{PoolQuote, quote_path}
use defi_toolbox_avalanche.Pathfinder.Splitter.Allocate.{
  allocate_across_paths, allocate_loop, allocate_round, best_from, mark_dead,
}
use defi_toolbox_avalanche.Pathfinder.Splitter.Allocate.Rounds.{allocate_across_paths-IsSplit}
use defi_toolbox_avalanche.Pathfinder.Splitter.Optimized.{
  optimized_two_phase, IsOptimized, optimized_two_phase-IsOptimized,
}
use defi_toolbox_avalanche.Pathfinder.Splitter.Mixed.{greedy_mixed, mixed_loop, mixed_round}
use defi_toolbox_avalanche.Pathfinder.Splitter.Mixed.Rounds.{IsSplit, greedy_mixed-IsSplit}

abbrev only_step : RouteStep
only_step = record { pool = 10; pool_type = 0; token_in = 1; token_out = 2; extra_data = [] }

-- One pool that pays three for one.
abbrev tripling : Market
tripling = record {
  find_best_route = λ quotes dirty volume.
      some (record {
        first_step = only_step;
        later_steps = [];
        amount_out = volume * 3;
        gas_used = 5;
      });
  execute = λ dirty steps volume.
      some (record { output = volume * 3; gas_used = 7; dirty = (10, (8, volume) ∷ []) ∷ [] });
}

greedy_mixed-IsSplit_example :
    (o : Option SplitResult) × (greedy_mixed wrapping tripling 1000 (40 ∷ 25 ∷ []) ≡ some o)
    × IsSplit 1000 o
greedy_mixed-IsSplit_example =
    greedy_mixed-IsSplit wrapping wrapping-IsUint256 tripling 1000 40 (25 ∷ []) (omega arith)

abbrev volumes_of : Option (Option SplitResult) → List ℕ
volumes_of none = []
volumes_of (some none) = []
volumes_of (some (some r)) = map (λ (leg : SplitLeg). leg.volume) r.legs

-- The last percentage is repeated, and the last leg takes what is left.
repeats_last :
    volumes_of (greedy_mixed wrapping tripling 1000 (40 ∷ 25 ∷ [])) ≡ 400 ∷ 250 ∷ 250 ∷ 100 ∷ []
unfolding greedy_mixed mixed_loop mixed_round append_leg
repeats_last = refl

-- Every pool quotes three for one, whatever was swapped before.
abbrev triple : Option Dirty → PoolQuote
triple dirty pool amount token_in token_out = amount * 3

abbrev other_step : RouteStep
other_step = record { pool = 11; pool_type = 0; token_in = 1; token_out = 2; extra_data = [] }

abbrev first_pool : List RouteStep → ℕ
first_pool [] = 0
first_pool (s ∷ steps) = s.pool

-- A market in which the swaps of the pool 10 fail.
abbrev only_eleven : Market
only_eleven = record {
  find_best_route = λ quotes dirty volume. none;
  execute = λ dirty steps volume.
      if first_pool steps == 10
      then none
      else some (record { output = volume * 3; gas_used = 7; dirty = [] });
}

abbrev two_paths : List (List RouteStep)
two_paths = (only_step ∷ []) ∷ (other_step ∷ []) ∷ []

allocate_across_paths-IsSplit_example :
    (o : Option SplitResult) × (allocate_across_paths wrapping only_eleven triple 130 two_paths
      ≡ some o)
    × IsSplit 130 o
allocate_across_paths-IsSplit_example =
    allocate_across_paths-IsSplit wrapping wrapping-IsUint256 only_eleven triple 130 two_paths
      (omega arith) (omega arith, (omega arith, tt))

abbrev pools_of : Option (Option SplitResult) → List ℕ
pools_of none = []
pools_of (some none) = []
pools_of (some (some r)) = map (λ (leg : SplitLeg). first_pool leg.steps) r.legs

abbrev elevens : ℕ → List ℕ
elevens zero = []
elevens (suc n) = 11 ∷ elevens n

-- The path that fails is dead, and the other takes its chunks of 2.
takes_the_other :
    pools_of (allocate_across_paths wrapping only_eleven triple 105 two_paths) ≡ elevens 53
unfolding allocate_across_paths allocate_loop allocate_round best_from mark_dead append_leg
    quote_path
takes_the_other = refl

-- A path without steps is quoted as its input, and its calldata panics.
no_steps : allocate_across_paths wrapping only_eleven triple 130 ([] ∷ []) ≡ none
unfolding allocate_across_paths allocate_loop allocate_round best_from mark_dead quote_path
no_steps = refl

optimized_two_phase-IsOptimized_example :
    (phase1 : Option SplitResult) × (o : Option SplitResult) × (greedy_mixed wrapping tripling 1000
        (40 ∷ 25 ∷ [])
      ≡ some phase1)
    × (optimized_two_phase wrapping tripling triple 1000 (40 ∷ 25 ∷ []) ≡ some o)
    × IsOptimized 1000 phase1 o
optimized_two_phase-IsOptimized_example =
    optimized_two_phase-IsOptimized wrapping wrapping-IsUint256 tripling triple 1000 40 (25 ∷ [])
      (omega arith)
