-- ===== src/Pathfinder/Splitter.antt =====
-- pathfinder/splitter/: strategies that split a swap into legs, and greedy.go. What a strategy
-- asks of the market is an argument: the search for a route, and the EVM's run of the calldata
-- that the route has or that buildCalldata makes of its steps and a volume.
pub mod Dynamic
pub mod Mixed
pub mod Allocate
pub mod Optimized
pub mod Volumes
use defi_toolbox_avalanche.Common.{
  ℕ, zero, suc, ◌+◌, ◌%◌, ◌^◌, Bool, true, false, not, ◌&&◌, ◌||◌, Option, none, some, List, [],
  ◌∷◌, ◌++◌, ◌==◌, ltb, leb, if◌then◌else◌, Map,
}
use defi_toolbox_avalanche.Uint256.{Uint256}
use defi_toolbox_avalanche.Formulas.MulDiv.{◌>>=◌}
use defi_toolbox_avalanche.Statedb.Immutable.{merge₂}
use defi_toolbox_avalanche.Pathfinder.Route.{RouteStep}

-- `accDirtySlots`: the storage that the legs so far have written.
abbrev pub Dirty : Type 0
Dirty = Map (Map ℕ)

-- `pathfinder.Route`. FindTopRoutes walks back from a node that has a parent, so a route has a first
-- step and later ones.
pub record Route : Type 0 where
  pub first_step : RouteStep
  pub later_steps : List RouteStep
  pub amount_out : ℕ
  pub gas_used : ℕ

abbrev pub route_steps : Route → List RouteStep
route_steps r = r.first_step ∷ r.later_steps

-- What a swap returns: the first 32 bytes as a number, and the storage that it wrote.
pub record Swapped : Type 0 where
  pub output : ℕ
  pub gas_used : ℕ
  pub dirty : Dirty

pub record Market : Type 0 where
  -- `FindBestRoute` for a volume. The pools' quotes are those of the base state, none, or of the
  -- overlay with the dirty slots; the state is the overlay with the dirty slots.
  pub find_best_route : Option Dirty → Dirty → ℕ → Option Route
  -- `ExecuteWithCallState`: none is an error or less than 32 bytes.
  pub execute : Dirty → List RouteStep → ℕ → Option Swapped

-- `Leg`
pub record SplitLeg : Type 0 where
  pub steps : List RouteStep
  pub volume : ℕ
  pub output : ℕ
  pub gas_used : ℕ

-- `Result`, less the time that it took.
pub record SplitResult : Type 0 where
  pub legs : List SplitLeg
  pub total : ℕ
  pub total_gas : ℕ

abbrev pub no_legs : SplitResult
no_legs = record { legs = []; total = 0; total_gas = 0 }

module _ (u : Uint256) where
  unfoldable pub append_leg : SplitLeg → SplitResult → SplitResult
  append_leg leg r = record {
    legs = r.legs ++ (leg ∷ []);
    total = u.add r.total leg.output;
    total_gas = (r.total_gas + leg.gas_used) % 2 ^ 64;
  }

module _ (u : Uint256) (market : Market) where
  -- What follows a chunk's swap: the next chunk, on the merged storage, or the end.
  abbrev pub after_swap : (Dirty → SplitResult) → Dirty → SplitResult → Option Swapped → SplitResult
  after_swap next dirty r none = r
  after_swap next dirty r (some swapped) = next (merge₂ swapped.dirty dirty)

  -- A chunk with the route that was found for it.
  abbrev pub with_route :
      ℕ → (SplitResult → Dirty → SplitResult) → Dirty → SplitResult → Option Route → SplitResult
  with_route chunk next dirty r none = r
  with_route chunk next dirty r (some route) =
      let leg : SplitLeg = record {
        steps = route_steps route;
        volume = chunk;
        output = route.amount_out;
        gas_used = route.gas_used;
      } in
      let r' = append_leg u leg r in
      after_swap (next r') dirty r' (market.execute dirty (route_steps route) chunk)

  -- The loop of Greedy: the chunks left, the size of one, the storage that the quotes read.
  unfoldable pub greedy_loop : ℕ → ℕ → Option Dirty → Dirty → SplitResult → SplitResult
  greedy_loop zero chunk quotes dirty r = r
  greedy_loop (suc n) chunk quotes dirty r =
      with_route chunk (λ r' dirty'. greedy_loop n chunk (some dirty') dirty' r') dirty r
        (market.find_best_route quotes dirty chunk)

  -- `Greedy`; a nil result is none.
  unfoldable pub greedy : ℕ → ℕ → Option SplitResult
  greedy amount_in chunks =
      let chunk = u.div amount_in chunks in
      if chunk == 0 then none else some (greedy_loop chunks chunk none [] no_legs)
