-- ===== src/Pathfinder/Splitter/Dynamic.antt =====
-- pathfinder/splitter/greedydynamic.go: chunks whose size depends on whether the best path changed.
pub mod Legs
use defi_toolbox_avalanche.Common.{
  ℕ, zero, suc, ◌+◌, ◌%◌, ◌^◌, Bool, true, false, not, ◌&&◌, ◌||◌, Option, none, some, List, [],
  ◌∷◌, ◌++◌, ◌==◌, ltb, leb, if◌then◌else◌, Map,
}
use defi_toolbox_avalanche.Uint256.{Uint256}
use defi_toolbox_avalanche.Formulas.MulDiv.{◌>>=◌}
use defi_toolbox_avalanche.Statedb.Immutable.{merge₂}
use defi_toolbox_avalanche.Pathfinder.Route.{RouteStep}
use defi_toolbox_avalanche.Pathfinder.Splitter.{
  route_steps, Dirty, Route, Swapped, Market, SplitLeg, SplitResult, no_legs, append_leg,
}

-- The variables of the loop of GreedyDynamic. The path of the last leg is the pools of its steps,
-- which `pathKey` spells; the empty string is no pools.
pub record DynamicState : Type 0 where
  pub routed : ℕ
  pub prev_path : List ℕ
  pub smalls : ℕ
  pub quotes : Option Dirty
  pub dirty : Dirty
  pub result : SplitResult

abbrev pub path_key : List RouteStep → List ℕ
path_key [] = []
path_key (step ∷ steps) = step.pool ∷ path_key steps

abbrev pub same_path : List ℕ → List ℕ → Bool
same_path [] [] = true
same_path [] (_ ∷ _) = false
same_path (_ ∷ _) [] = false
same_path (a ∷ as') (b ∷ bs) = (a == b) && same_path as' bs

abbrev pub no_path : List ℕ → Bool
no_path [] = true
no_path (_ ∷ _) = false

abbrev pub with_volume : ℕ → Route → Option (ℕ × Route)
with_volume vol route = some (vol, route)

-- `if vol.Gt(remaining) { vol.Set(remaining) }`
abbrev pub clip : ℕ → ℕ → ℕ
clip vol remaining = if ltb remaining vol then remaining else vol

-- The result is the zero word or has its top bit set.
abbrev pub bad_output : ℕ → Bool
bad_output out = leb (2 ^ 255) out || (out == 0)

module _ (u : Uint256) (market : Market) (large small force_every : ℕ) where
  -- A small chunk that takes another path than the last leg is tried again as a large one.
  abbrev pub rediscover : DynamicState → ℕ → ℕ → Route → Option (ℕ × Route)
  rediscover s remaining vol route =
      if not (no_path s.prev_path)
        && (not (same_path (path_key (route_steps route)) s.prev_path) && (vol == small))
      then (market.find_best_route s.quotes s.dirty (clip large remaining)
          >>= with_volume (clip large remaining))
      else with_volume vol route

  -- The volume and the route of the next leg.
  unfoldable pub choose : Bool → DynamicState → ℕ → Option (ℕ × Route)
  choose is_first s remaining =
      let forced = ltb 0 force_every && leb force_every s.smalls in
      let vol =
        clip (if is_first || (no_path s.prev_path || forced) then large else small) remaining in
      if vol == 0
      then none
      else market.find_best_route s.quotes s.dirty vol >>= rediscover s remaining vol

  -- The state after a leg of the volume.
  abbrev pub advance : DynamicState → ℕ → Route → Swapped → DynamicState
  advance s vol route swapped = record {
    routed = u.add s.routed vol;
    prev_path = path_key (route_steps route);
    smalls = if vol == small then s.smalls + 1 else 0;
    quotes = some (merge₂ swapped.dirty s.dirty);
    dirty = merge₂ swapped.dirty s.dirty;
    result =
        append_leg u
          (record {
            steps = route_steps route;
            volume = vol;
            output = swapped.output;
            gas_used = swapped.gas_used;
          })
          s.result;
  }

  -- The next state, when the swap goes through.
  abbrev pub commit : DynamicState → ℕ → Route → Option Swapped → Option DynamicState
  commit s vol route none = none
  commit s vol route (some swapped) =
      if bad_output swapped.output then none else some (advance s vol route swapped)

  abbrev pub run_leg : DynamicState → ℕ × Route → Option DynamicState
  run_leg s (vol, route) = commit s vol route (market.execute s.dirty (route_steps route) vol)

  -- One round; none is a break.
  unfoldable pub dynamic_round : ℕ → Bool → DynamicState → Option DynamicState
  dynamic_round amount_in is_first s =
      let remaining = u.sub amount_in s.routed in
      if remaining == 0 then none else choose is_first s remaining >>= run_leg s

  abbrev pub or_last :
      DynamicState → (DynamicState → DynamicState) → Option DynamicState → DynamicState
  or_last s next none = s
  or_last s next (some s') = next s'

  unfoldable pub dynamic_loop : ℕ → ℕ → Bool → DynamicState → DynamicState
  dynamic_loop zero amount_in is_first s = s
  dynamic_loop (suc n) amount_in is_first s =
      or_last s (dynamic_loop n amount_in false) (dynamic_round amount_in is_first s)

abbrev pub dynamic_start : DynamicState
dynamic_start = record {
  routed = 0;
  prev_path = [];
  smalls = 0;
  quotes = none;
  dirty = [];
  result = no_legs;
}

abbrev pub some_legs : SplitResult → Option SplitResult
some_legs r = elim r.legs [ [] ↦ none | _ ∷ _ ↦ some r ]

-- `greedyDynamicInner`, with its 200 rounds at most.
unfoldable pub greedy_dynamic_inner : Uint256 → Market → ℕ → ℕ → ℕ → ℕ → Option SplitResult
greedy_dynamic_inner u market amount_in large_pct small_pct force_every =
    let one_percent = u.div amount_in 100 in
    if one_percent == 0
    then none
    else some_legs
        (dynamic_loop u market (u.mul one_percent large_pct) (u.mul one_percent small_pct)
          force_every 200 amount_in true dynamic_start).result

unfoldable pub greedy_dynamic : Uint256 → Market → ℕ → ℕ → ℕ → Option SplitResult
greedy_dynamic u market amount_in large_pct small_pct =
    greedy_dynamic_inner u market amount_in large_pct small_pct 0

unfoldable pub greedy_dynamic_forced : Uint256 → Market → ℕ → ℕ → ℕ → ℕ → Option SplitResult
greedy_dynamic_forced u market amount_in large_pct small_pct force_every =
    greedy_dynamic_inner u market amount_in large_pct small_pct force_every
