-- ===== src/Pathfinder/Splitter/Allocate.antt =====
-- pathfinder/splitter/optimized2.go, CollectPaths and AllocateAcrossPaths: the input in chunks over paths
-- that are known. The slices `paths` and `dead` are one list. The quote of a pool in the base state,
-- none, or in the overlay with the dirty slots is an argument. Two paths are the same when their pools
-- are, which is what pathKey spells.
pub mod Rounds
use defi_toolbox_avalanche.Common.{
  ℕ, zero, suc, ◌+◌, ◌%◌, ◌^◌, Bool, true, false, ◌&&◌, ◌||◌, Option, none, some, List, [], ◌∷◌,
  ◌++◌, length, map, ltb, ◌==◌, if◌then◌else◌,
}
use defi_toolbox_avalanche.Uint256.{Uint256}
use defi_toolbox_avalanche.Formulas.MulDiv.{◌>>=◌}
use defi_toolbox_avalanche.Statedb.Immutable.{merge₂}
use defi_toolbox_avalanche.Pathfinder.Route.{RouteStep}
use defi_toolbox_avalanche.Pathfinder.QuotePath.{PoolQuote, quote_path}
use defi_toolbox_avalanche.Pathfinder.Splitter.{
  Dirty, Swapped, Market, SplitLeg, SplitResult, no_legs, append_leg,
}
use defi_toolbox_avalanche.Pathfinder.Splitter.Dynamic.{
  clip, bad_output, some_legs, path_key, same_path,
}

abbrev pub is_seen : List ℕ → List (List ℕ) → Bool
is_seen key [] = false
is_seen key (other ∷ seen) = same_path key other || is_seen key seen

-- The loop of `CollectPaths`, with the keys that it has seen.
unfoldable pub collect_from : List (List ℕ) → List SplitLeg → List (List RouteStep)
collect_from seen [] = []
collect_from seen (leg ∷ legs) =
    let key = path_key leg.steps in
    elim (is_seen key seen) [
      | true ↦ collect_from seen legs
      | false ↦ leg.steps ∷ collect_from (key ∷ seen) legs
    ]

unfoldable pub collect_paths : List SplitLeg → List (List RouteStep)
unfolding collect_from
collect_paths legs = collect_from [] legs

-- An entry of `paths` and of `dead`.
pub record PathEntry : Type 0 where
  pub path : List RouteStep
  pub dead : Bool

abbrev pub alive : List RouteStep → PathEntry
alive path = record { path = path; dead = false }

-- `bestIdx`, its path and `bestOut`.
pub record BestPath : Type 0 where
  pub idx : ℕ
  pub path : List RouteStep
  pub out : ℕ

-- What a path that quotes `out` makes of the best so far.
abbrev pub better : ℕ → List RouteStep → ℕ → Option BestPath → Option BestPath
better i path out none =
    if out == 0 then none else some (record { idx = i; path = path; out = out })
better i path out (some best) =
    if out == 0
    then some best
    else if ltb best.out out
    then some (record { idx = i; path = path; out = out })
    else some best

-- The loop over the paths, from `i` on.
unfoldable pub best_from : PoolQuote → ℕ → ℕ → Option BestPath → List PathEntry → Option BestPath
best_from quote vol i best [] = best
best_from quote vol i best (e ∷ entries) =
    best_from quote vol (i + 1)
      (if e.dead then best else better i e.path (quote_path quote e.path vol) best) entries

-- `dead[i] = true`
unfoldable pub mark_dead : ℕ → List PathEntry → List PathEntry
mark_dead i [] = []
mark_dead zero (e ∷ entries) = record e { dead = true } ∷ entries
mark_dead (suc i) (e ∷ entries) = e ∷ mark_dead i entries

-- The variables of the loop.
pub record Allocation : Type 0 where
  pub routed : ℕ
  pub entries : List PathEntry
  pub dirty : Dirty
  pub result : SplitResult

-- What one round of the loop does: break, panic, or go on.
pub data Round : Type 0 where
  stops : Round
  panics : Round
  continues : Allocation → Round

abbrev pub dirty_quotes : Dirty → Option Dirty
dirty_quotes [] = none
dirty_quotes (slots ∷ dirty) = some (slots ∷ dirty)

module _ (u : Uint256) (market : Market) (quotes : Option Dirty → PoolQuote) where
  abbrev pub allocate_leg : Allocation → ℕ → BestPath → Swapped → Allocation
  allocate_leg s vol best swapped = record {
    routed = u.add s.routed vol;
    entries = s.entries;
    dirty = merge₂ swapped.dirty s.dirty;
    result =
        append_leg u
          (record {
            steps = best.path;
            volume = vol;
            output = swapped.output;
            gas_used = swapped.gas_used;
          })
          s.result;
  }

  abbrev pub kill : BestPath → Allocation → Allocation
  kill best s = record s { entries = mark_dead best.idx s.entries }

  -- The state after the swap, which may fail.
  abbrev pub after_run : Allocation → ℕ → BestPath → Option Swapped → Allocation
  after_run s vol best none = kill best s
  after_run s vol best (some swapped) =
      if bad_output swapped.output then kill best s else allocate_leg s vol best swapped

  -- buildCalldata panics on a path without steps: EncodeSwapMulti sets the amount of its first call.
  abbrev pub run_best : Allocation → ℕ → BestPath → Round
  run_best s vol best = elim best.path [
    | [] ↦ panics
    | step ∷ steps ↦ continues (after_run s vol best (market.execute s.dirty (step ∷ steps) vol))
  ]

  unfoldable pub allocate_round : ℕ → ℕ → Allocation → Round
  unfolding best_from mark_dead
  allocate_round amount_in chunk_vol s =
      let remaining = u.sub amount_in s.routed in
      let vol = clip chunk_vol remaining in
      if remaining == 0
      then stops
      else elim (best_from (quotes (dirty_quotes s.dirty)) vol 0 none s.entries) [
        | none ↦ stops
        | some best ↦ run_best s vol best
      ]

  -- The loop, which has no bound of its own; none is a panic or a lack of fuel.
  unfoldable pub allocate_loop : ℕ → ℕ → ℕ → Allocation → Option Allocation
  unfolding allocate_round
  allocate_loop zero amount_in chunk_vol s = none
  allocate_loop (suc n) amount_in chunk_vol s = elim (allocate_round amount_in chunk_vol s) [
    | stops ↦ some s
    | panics ↦ none
    | continues s' ↦ allocate_loop n amount_in chunk_vol s'
  ]

  abbrev pub allocate_start : List (List RouteStep) → Allocation
  allocate_start paths = record {
    routed = 0;
    entries = map alive paths;
    dirty = [];
    result = no_legs;
  }

  -- `AllocateAcrossPaths`; none is a panic or a lack of fuel, and a nil result is `some none`.
  unfoldable pub allocate_across_paths : ℕ → List (List RouteStep) → Option (Option SplitResult)
  unfolding allocate_loop
  allocate_across_paths amount_in paths =
      let one_percent = u.div amount_in 100 in
      let chunk_vol = u.mul one_percent 2 in
      if one_percent == 0
      then some none
      else if chunk_vol == 0
      then some none
      else allocate_loop (amount_in + length paths + 1) amount_in chunk_vol (allocate_start paths)
        >>= (λ s. some (some_legs s.result))
