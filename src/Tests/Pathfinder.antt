-- ===== src/Tests/Pathfinder.antt =====
-- Examples for pathfinder/.
use defi_toolbox_avalanche.Common.{
  Map, arith, ℕ, ◌+◌, ◌≤◌, ◌≡◌, refl, false, some, List, [], ◌∷◌, length, ◌*◌, ◌/◌,
}
use defi_toolbox_avalanche.Uint256.Concrete.{wrapping, wrapping-IsUint256}
use defi_toolbox_avalanche.Pathfinder.Route.{RouteStep, SquishRoute, Leg, same_key}
use defi_toolbox_avalanche.Pathfinder.Merge.{
  merge_suffixes, build_trie, insert_route, walk_back, find_child, extract_mixed, rebuild_path,
  overflow_legs, add_volumes, emit_dfs,
}
use defi_toolbox_avalanche.Pathfinder.Merge.Trie.{supplied}
use defi_toolbox_avalanche.Pathfinder.Merge.Entering.{entering, Same}
use defi_toolbox_avalanche.Pathfinder.Merge.Collapse.{
  is_safe, disturbs, find_duplicate, collapse_once, collapse_loop, collapse_duplicates,
}
use defi_toolbox_avalanche.Pathfinder.Merge.Collapse.Fixpoint.{IsCollapsed, collapse_duplicates_lem}
use defi_toolbox_avalanche.Pathfinder.Merge.FirstHops.{
  Quoter, merge_first_hops, until_explicit, split_branches, add_branch, group_branches,
  any_mergeable, emit_branches, total_volume, emit_tails, emit_group, emit_groups,
}
use defi_toolbox_avalanche.Pathfinder.Merge.FirstHops.Quoted.{quoted, merge_first_hops-entering}
use defi_toolbox_avalanche.Pathfinder.Merge.Whole.{
  merge_routes_inner, merge_routes, merge_routes_with_quoter, merge_routes-entering,
  merge_routes_with_quoter-entering, merge_routes_strands,
}
use defi_toolbox_avalanche.Pathfinder.Splitter.{
  Market, SplitLeg, SplitResult, append_leg, greedy_loop, greedy,
}
use defi_toolbox_avalanche.Pathfinder.Splitter.Dynamic.{
  choose, dynamic_round, dynamic_loop, greedy_dynamic_inner,
}
use defi_toolbox_avalanche.Pathfinder.Splitter.Volumes.{Shares, greedy-volumes}
use defi_toolbox_avalanche.Pathfinder.Splitter.Dynamic.Legs.{
  IsDynamicSplit, greedy_dynamic_inner-IsDynamicSplit,
}
use defi_toolbox_avalanche.Pathfinder.Adjacency.{
  Pool, edges_at, pool_edge, build_adjacency, add_pools, add_pairs, add_from,
}
use defi_toolbox_avalanche.Pathfinder.Adjacency.Edges.{registered_edges, edges_at-registered}
use defi_toolbox_avalanche.Pathfinder.QuotePath.{PoolQuote, quote_path}

abbrev hop : ℕ → ℕ → ℕ → RouteStep
hop pool token_in token_out = record {
  pool = pool;
  pool_type = 0;
  token_in = token_in;
  token_out = token_out;
  extra_data = [];
}

abbrev pay : RouteStep → ℕ → Leg
pay step amount = record { step = step; amount = amount }

-- Pool 10 and pool 11 take token 1 to token 2, which pool 20 takes to token 3.
abbrev first_route : SquishRoute
first_route = record { steps = hop 10 1 2 ∷ hop 20 2 3 ∷ []; volume = 60 }

abbrev second_route : SquishRoute
second_route = record { steps = hop 11 1 2 ∷ hop 20 2 3 ∷ []; volume = 40 }

-- Pool 10 again, and then pool 21.
abbrev third_route : SquishRoute
third_route = record { steps = hop 10 1 2 ∷ hop 21 2 3 ∷ []; volume = 30 }

abbrev routes : List SquishRoute
routes = first_route ∷ second_route ∷ []

abbrev halved : Quoter
halved step volume = 25

-- A shared last call is emitted once, after the calls that feed it.
shared_suffix :
    merge_routes wrapping routes
    ≡ some (pay (hop 10 1 2) 60 ∷ pay (hop 11 1 2) 40 ∷ pay (hop 20 2 3) 0 ∷ [])
unfolding merge_routes merge_routes_inner merge_suffixes build_trie insert_route walk_back
    find_child same_key extract_mixed rebuild_path overflow_legs add_volumes emit_dfs
    collapse_duplicates collapse_loop collapse_once find_duplicate is_safe disturbs
shared_suffix = refl

-- A shared first call takes both volumes, and its two consumers get what the quoter estimates.
shared_first_hop :
    merge_routes_with_quoter wrapping (first_route ∷ third_route ∷ []) halved
    ≡ some (pay (hop 10 1 2) 90 ∷ pay (hop 20 2 3) 25 ∷ pay (hop 21 2 3) 25 ∷ [])
unfolding merge_routes_with_quoter merge_routes_inner merge_suffixes build_trie insert_route
    walk_back find_child same_key extract_mixed rebuild_path overflow_legs add_volumes emit_dfs
    collapse_duplicates collapse_loop collapse_once find_duplicate is_safe disturbs merge_first_hops
    until_explicit split_branches add_branch group_branches any_mergeable emit_branches total_volume
    emit_tails emit_group emit_groups
shared_first_hop = refl

merge_routes-entering_example :
    (out : List Leg) × (merge_routes wrapping routes ≡ some out)
    × ((k : RouteStep) → Same (entering k out) (supplied k routes))
merge_routes-entering_example = merge_routes-entering wrapping wrapping-IsUint256 routes tt

merge_routes_with_quoter-entering_example :
    (out : List Leg) × (merge_routes_with_quoter wrapping (first_route ∷ third_route ∷ []) halved
      ≡ some out)
    × ((k : RouteStep)
        → Same (entering k out) (
            supplied k (first_route ∷ third_route ∷ [])
            + quoted halved k (merge_suffixes wrapping (first_route ∷ third_route ∷ []))))
merge_routes_with_quoter-entering_example =
    merge_routes_with_quoter-entering wrapping wrapping-IsUint256 first_route third_route [] halved

abbrev twice : List Leg
twice = pay (hop 10 1 2) 5 ∷ pay (hop 11 1 3) 6 ∷ pay (hop 10 1 2) 7 ∷ []

collapse_duplicates_lem_example :
    (out : List Leg) × (collapse_duplicates wrapping twice ≡ some out)
    × ((k : RouteStep) → Same (entering k out) (entering k twice))
    × (length out ≤ length twice)
    × IsCollapsed out
collapse_duplicates_lem_example = collapse_duplicates_lem wrapping wrapping-IsUint256 twice

merge_first_hops-entering_example :
    Same
      (entering (hop 10 1 2) (merge_first_hops wrapping halved twice))
      (entering (hop 10 1 2) twice + quoted halved (hop 10 1 2) twice)
merge_first_hops-entering_example =
    merge_first_hops-entering wrapping wrapping-IsUint256 halved (hop 10 1 2) twice

other_key : same_key (hop 10 1 2) (hop 30 4 1) ≡ false
unfolding same_key
other_key = refl

merge_routes_strands_example :
    merge_routes wrapping (
      record { steps = hop 10 1 2 ∷ hop 20 2 3 ∷ []; volume = 60 }
      ∷ record { steps = hop 30 4 1 ∷ hop 10 1 2 ∷ hop 20 2 3 ∷ []; volume = 40 }
      ∷ [])
    ≡ some (
        pay (hop 30 4 1) (wrapping.add 0 40)
        ∷ pay (hop 10 1 2) 0
        ∷ pay (hop 20 2 3) 0
        ∷ pay (hop 10 1 2) 60
        ∷ [])
merge_routes_strands_example =
    merge_routes_strands wrapping wrapping-IsUint256 (hop 10 1 2) (hop 20 2 3) (hop 30 4 1) 60 40
      other_key

-- A market with one pool that pays twice the input.
abbrev doubling : Market
doubling = record {
  find_best_route = λ quotes dirty volume.
      some (record {
        first_step = hop 10 1 2;
        later_steps = [];
        amount_out = volume * 2;
        gas_used = 5;
      });
  execute = λ dirty steps volume.
      some (record { output = volume * 2; gas_used = 7; dirty = (10, (8, volume) ∷ []) ∷ [] });
}

abbrev leg_of : ℕ → ℕ → SplitLeg
leg_of volume gas = record {
  steps = hop 10 1 2 ∷ [];
  volume = volume;
  output = volume * 2;
  gas_used = gas;
}

-- Three chunks of 100 leave 1 over.
abbrev in_chunks : SplitResult
in_chunks = record {
  legs = leg_of 33 5 ∷ leg_of 33 5 ∷ leg_of 33 5 ∷ [];
  total = 198;
  total_gas = 15;
}

chunks_run : greedy wrapping doubling 100 3 ≡ some in_chunks
unfolding greedy greedy_loop append_leg
chunks_run = refl

greedy-volumes_example :
    (m : ℕ) × (m ≤ 3) × (m * (100 / 3) ≤ 100) × Shares (m * (100 / 3)) m in_chunks
greedy-volumes_example =
    greedy-volumes wrapping wrapping-IsUint256 doubling 100 3 in_chunks chunks_run

-- A large leg, and small ones while the path stays the same.
abbrev in_steps : SplitResult
in_steps = record {
  legs = leg_of 600 7 ∷ leg_of 200 7 ∷ leg_of 200 7 ∷ [];
  total = 2000;
  total_gas = 21;
}

steps_run : greedy_dynamic_inner wrapping doubling 1000 60 20 0 ≡ some in_steps
unfolding greedy_dynamic_inner dynamic_loop dynamic_round choose append_leg
steps_run = refl

greedy_dynamic_inner-IsDynamicSplit_example : IsDynamicSplit 1000 in_steps
greedy_dynamic_inner-IsDynamicSplit_example =
    greedy_dynamic_inner-IsDynamicSplit wrapping wrapping-IsUint256 doubling 1000 60 20 0 in_steps
      (omega arith) steps_run

abbrev pool_of : ℕ → List ℕ → Pool
pool_of address tokens = record {
  address = address;
  dex = [];
  pool_type = 0;
  tokens = tokens;
  extra_data = [];
}

-- A pool of three tokens, one that the registry does not know, and one of two.
abbrev pools : List Pool
pools = pool_of 10 (1 ∷ 2 ∷ 3 ∷ []) ∷ pool_of 11 (1 ∷ 3 ∷ []) ∷ pool_of 12 (3 ∷ 1 ∷ []) ∷ []

abbrev registry : Map ℕ
registry = (10, 0) ∷ (12, 4) ∷ []

from_token_one :
    edges_at 1 (build_adjacency pools registry)
    ≡ pool_edge 0 1 2 ∷ pool_edge 0 1 3 ∷ pool_edge 2 1 3 ∷ []
unfolding build_adjacency add_pools add_pairs add_from
from_token_one = refl

edges_at-registered_example :
    edges_at 1 (build_adjacency pools registry) ≡ registered_edges registry 1 0 pools
edges_at-registered_example = edges_at-registered pools registry 1 (omega arith)

-- Pools that pay half of the input.
abbrev halving : PoolQuote
halving pool amount token_in token_out = amount / 2

halved_twice : quote_path halving (hop 10 1 2 ∷ hop 20 2 3 ∷ []) 100 ≡ 25
unfolding quote_path
halved_twice = refl
