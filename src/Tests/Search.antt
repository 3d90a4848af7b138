-- ===== src/Tests/Search.antt =====
-- Examples for the calldata of the router and for the search for routes.
use defi_toolbox_avalanche.Common.{
  ℕ, ◌^◌, ◌≤◌, ◌<◌, ◌≡◌, refl, Option, none, some, List, [], ◌∷◌, map, length, arith, All, Map,
}
use defi_toolbox_avalanche.Common.Bytes.{word_bytes, read_word}
use defi_toolbox_avalanche.Pathfinder.Route.{RouteStep}
use defi_toolbox_avalanche.Pathfinder.Adjacency.{
  Pool, build_adjacency, add_pools, add_pairs, add_from,
}
use defi_toolbox_avalanche.Pathfinder.QuotePath.{PoolQuote}
use defi_toolbox_avalanche.Pathfinder.Encode.{
  SwapCall, encode_payload, offsets_of, extra_data_size, extra_size, padded,
}
use defi_toolbox_avalanche.Pathfinder.Encode.Whole.{
  IsReadBack, total_size, encode_payload-IsReadBack,
}
use defi_toolbox_avalanche.Pathfinder.Search.{Order}
use defi_toolbox_avalanche.Pathfinder.Search.Layers.{IsWalk}
use defi_toolbox_avalanche.Pathfinder.Search.Trial.{Route, Evm, find_top_routes}
use defi_toolbox_avalanche.Pathfinder.Search.Routes.{IsRoute, find_top_routes-IsRoute}

-- A V4 pool with extra data, and another pool.
abbrev two_calls : List SwapCall
two_calls =
    record { pool = 11; pool_type = 9; extra_data = 1 ∷ 2 ∷ []; amount = 500 }
    ∷ record { pool = 12; pool_type = 0; extra_data = []; amount = 0 }
    ∷ []

-- Three bytes for any text.
abbrev three_bytes : List ℕ → List ℕ
three_bytes text = 7 ∷ 8 ∷ 9 ∷ []

size_fits : total_size three_bytes two_calls (1 ∷ 2 ∷ 2 ∷ 3 ∷ []) (some 5) < 2 ^ 64
unfolding total_size offsets_of extra_data_size extra_size padded
size_fits = omega arith

encode_payload-IsReadBack_example :
    IsReadBack three_bytes two_calls
      (1 ∷ 2 ∷ 2 ∷ 3 ∷ [])
      (some 5)
      (encode_payload three_bytes two_calls (1 ∷ 2 ∷ 2 ∷ 3 ∷ []) (some 5))
encode_payload-IsReadBack_example =
    encode_payload-IsReadBack three_bytes two_calls (1 ∷ 2 ∷ 2 ∷ 3 ∷ []) (some 5)
      (omega arith, (omega arith, tt))
      (omega arith, (omega arith, (omega arith, (omega arith, tt))))
      (omega arith, (omega arith, tt)) (omega arith, tt) size_fits

abbrev pool_of : ℕ → ℕ → ℕ → Pool
pool_of address a b = record {
  address = address;
  dex = [];
  pool_type = 0;
  tokens = a ∷ b ∷ [];
  extra_data = [];
}

abbrev two_pools : List Pool
two_pools = pool_of 11 1 2 ∷ pool_of 12 2 3 ∷ []

abbrev both_known : Map ℕ
both_known = (11, 0) ∷ (12, 0) ∷ []

-- Every pool pays what it gets, and the EVM pays 400 for any call.
abbrev pays_all : PoolQuote
pays_all pool amount token_in token_out = amount

abbrev pays_400 : Evm
pays_400 calldata = some (word_bytes 400 [], 100000)

-- The entries of a map in the order of the association list.
abbrev in_order : Order
in_order hop best = best

in_order-IsWalk : IsWalk in_order
in_order-IsWalk hop best P all = all

find_top_routes-IsRoute_example :
    (routes : List Route) × (find_top_routes three_bytes pays_400 in_order pays_all two_pools
        (build_adjacency two_pools both_known)
        1
        3
        500
        4
        2
      ≡ some routes)
    × All (IsRoute three_bytes pays_400 pays_all two_pools 500 1 3 4) routes
    × (length routes ≤ 2)
find_top_routes-IsRoute_example =
    find_top_routes-IsRoute three_bytes pays_400 pays_all two_pools 500 1 3 in_order both_known 4 2
      in_order-IsWalk (omega arith)

abbrev steps_of : Option (List Route) → Option (List (List RouteStep))
steps_of none = none
steps_of (some routes) = some (map (λ (r : Route). r.steps) routes)

-- The one route leads through both pools.
both_pools :
    steps_of (
      find_top_routes three_bytes pays_400 in_order pays_all two_pools
        (build_adjacency two_pools both_known)
        1
        3
        500
        4
        2)
    ≡ some (
        (record { pool = 11; pool_type = 0; token_in = 1; token_out = 2; extra_data = [] }
          ∷ record { pool = 12; pool_type = 0; token_in = 2; token_out = 3; extra_data = [] }
          ∷ [])
        ∷ [])
unfolding find_top_routes build_adjacency add_pools add_pairs add_from word_bytes read_word
both_pools = refl
