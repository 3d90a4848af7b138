-- ===== src/Pathfinder/Merge/Whole.antt =====
-- pathfinder/merge.go, MergeRoutes and MergeRoutesWithQuoter: the three phases together. A nil quoter
-- is none; the result none is the panic of a single route without steps.
use defi_toolbox_avalanche.Common.{
  ℕ, ◌+◌, ◌<◌, ◌≡◌, refl, false, Option, none, some, List, [], ◌∷◌, arith, length,
}
use defi_toolbox_avalanche.Uint256.{Uint256, IsUint256}
use defi_toolbox_avalanche.Pathfinder.Route.{RouteStep, SquishRoute, Leg, same_key, same_key_self}
use defi_toolbox_avalanche.Pathfinder.Merge.{
  route_legs, merge_suffixes, build_trie, insert_route, walk_back, find_child, extract_mixed,
  emit_dfs, overflow_legs, rebuild_path, add_volumes,
}
use defi_toolbox_avalanche.Pathfinder.Merge.Trie.{at_first, supplied}
use defi_toolbox_avalanche.Pathfinder.Merge.Entering.{
  entering, Same, entering-route_legs, merge_suffixes-entering,
}
use defi_toolbox_avalanche.Pathfinder.Merge.FirstHops.{Quoter, merge_first_hops}
use defi_toolbox_avalanche.Pathfinder.Merge.FirstHops.Quoted.{quoted, merge_first_hops-entering}
use defi_toolbox_avalanche.Pathfinder.Merge.Collapse.{
  collapse_duplicates, collapse_loop, collapse_once, find_duplicate,
}
use defi_toolbox_avalanche.Pathfinder.Merge.Collapse.Fixpoint.{collapse_duplicates_lem}

abbrev single_route : List RouteStep → ℕ → Option (List Leg)
single_route [] volume = none
single_route (step ∷ steps) volume = some (route_legs (step ∷ steps) volume)

module _ (u : Uint256) where
  -- Phase 2, when there is a quoter.
  abbrev with_quoter : Option Quoter → List Leg → List Leg
  with_quoter none legs = legs
  with_quoter (some quoter) legs = merge_first_hops u quoter legs

  unfoldable pub merge_routes_inner : List SquishRoute → Option Quoter → Option (List Leg)
  merge_routes_inner [] quoter = some []
  merge_routes_inner (r ∷ []) quoter = single_route r.steps r.volume
  merge_routes_inner (r ∷ r' ∷ routes) quoter =
      collapse_duplicates u (with_quoter quoter (merge_suffixes u (r ∷ r' ∷ routes)))

  unfoldable pub merge_routes : List SquishRoute → Option (List Leg)
  merge_routes routes = merge_routes_inner routes none

  unfoldable pub merge_routes_with_quoter : List SquishRoute → Quoter → Option (List Leg)
  merge_routes_with_quoter routes quoter = merge_routes_inner routes (some quoter)

-- A route that is alone has a step.
abbrev pub HasStep : List SquishRoute → Type 0
HasStep [] = Unit
HasStep (r ∷ []) = 0 < length r.steps
HasStep (_ ∷ _ ∷ _) = Unit

module _ (u : Uint256) (h : IsUint256 u) where
  single_route-entering :
      (steps : List RouteStep) (v : ℕ)
      → 0 < length steps
      → (out : List Leg) × (single_route steps v ≡ some out)
        × ((k : RouteStep) → Same (entering k out) (at_first k steps v + 0))
  single_route-entering [] v given = ground arith
  single_route-entering (s ∷ steps) v given =
      (route_legs (s ∷ steps) v, refl, λ j. omega (arith, entering-route_legs j (s ∷ steps) v))

  -- MergeRoutes gives a result for any routes but a single one without steps, and what its calls
  -- put into each pool from outside, where pools are told apart by the key of the call, is the
  -- volume of the routes that start with that call, modulo 2^256.
  pub merge_routes-entering :
      (routes : List SquishRoute)
      → HasStep routes
      → (out : List Leg) × (merge_routes u routes ≡ some out)
        × ((k : RouteStep) → Same (entering k out) (supplied k routes))
  unfolding merge_routes merge_routes_inner supplied entering
  merge_routes-entering [] given = ([], refl, λ k. refl)
  merge_routes-entering (r ∷ []) given = single_route-entering r.steps r.volume given
  merge_routes-entering (r ∷ r' ∷ routes) given =
      let legs = merge_suffixes u (r ∷ r' ∷ routes) in
      let (out, ends, kept, _, _) = collapse_duplicates_lem u h legs in
      (out, ends, λ k. omega (arith, kept k, merge_suffixes-entering u h k (r ∷ r' ∷ routes)))

  -- For two routes or more MergeRoutesWithQuoter gives a result, and its calls put into each pool,
  -- modulo 2^256, the volume of the routes that start there and the quoter's estimates for the
  -- tails, the last of each group included, of the groups that mergeFirstHops merges.
  pub merge_routes_with_quoter-entering :
      (r r' : SquishRoute) (routes : List SquishRoute) (quoter : Quoter)
      → (out : List Leg) × (merge_routes_with_quoter u (r ∷ r' ∷ routes) quoter ≡ some out)
        × ((k : RouteStep)
            → Same (entering k out) (
                supplied k (r ∷ r' ∷ routes)
                + quoted quoter k (merge_suffixes u (r ∷ r' ∷ routes))))
  unfolding merge_routes_with_quoter merge_routes_inner
  merge_routes_with_quoter-entering r r' routes quoter =
      let legs = merge_suffixes u (r ∷ r' ∷ routes) in
      let (out, ends, kept, _, _) = collapse_duplicates_lem u h (merge_first_hops u quoter legs) in
      (
        out,
        ends,
        λ k. omega (
          arith,
          kept k,
          merge_first_hops-entering u h quoter k legs,
          merge_suffixes-entering u h k (r ∷ r' ∷ routes),
        ),
      )

  stranded_stable :
      (a b c : RouteStep) (v w : ℕ)
      → same_key a c ≡ false
      → collapse_once u (
          record { step = c; amount = w }
          ∷ record { step = a; amount = 0 }
          ∷ record { step = b; amount = 0 }
          ∷ record { step = a; amount = v }
          ∷ [])
        ≡ none
  unfolding collapse_once find_duplicate
  stranded_stable a b c v w other = rw other (ground arith)

  -- Where a route of two steps is what another has after its first step, and the two first steps
  -- differ in key, MergeRoutes calls the shorter route's first step a second time, at the end, and
  -- its second step not again.
  pub merge_routes_strands :
      (a b c : RouteStep) (v w : ℕ)
      → same_key a c ≡ false
      → merge_routes u (
          record { steps = a ∷ b ∷ []; volume = v }
          ∷ record { steps = c ∷ a ∷ b ∷ []; volume = w }
          ∷ [])
        ≡ some (
            record { step = c; amount = u.add 0 w }
            ∷ record { step = a; amount = 0 }
            ∷ record { step = b; amount = 0 }
            ∷ record { step = a; amount = v }
            ∷ [])
  unfolding merge_routes merge_routes_inner collapse_duplicates collapse_loop merge_suffixes
      build_trie insert_route walk_back find_child extract_mixed emit_dfs overflow_legs rebuild_path
      add_volumes
  merge_routes_strands a b c v w other =
      rw (same_key_self b, same_key_self a, stranded_stable a b c v (u.add 0 w) other)
