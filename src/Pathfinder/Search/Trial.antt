-- ===== src/Pathfinder/Search/Trial.antt =====
-- pathfinder/bfs.go, the second half of FindTopRoutes, and FindBestRoute: the order of the candidates and
-- the trial of the best ones in the EVM, which is an argument. A reference out of range panics, which is
-- `none`. A limit or a number of hops below 0 is 0.
use defi_toolbox_avalanche.Common.{
  ℕ, zero, suc, ◌+◌, ◌/◌, ◌%◌, ◌^◌, ◌||◌, Option, none, some, List, [], ◌∷◌, ◌++◌, map, reverse,
  length, get_elem?, take, ltb, leb, ◌==◌, if◌then◌else◌, Map,
}
use defi_toolbox_avalanche.Common.Bytes.{read_word}
use defi_toolbox_avalanche.Formulas.MulDiv.{◌>>=◌}
use defi_toolbox_avalanche.Pathfinder.Route.{RouteStep}
use defi_toolbox_avalanche.Pathfinder.Adjacency.{Pool, PoolEdge}
use defi_toolbox_avalanche.Pathfinder.QuotePath.{PoolQuote}
use defi_toolbox_avalanche.Pathfinder.Encode.{SwapCall, encode_swap_multi}
use defi_toolbox_avalanche.Pathfinder.Search.{BfsNode, Search, Order, root_node, search_layers}

pub record Route : Type 0 where
  pub steps : List RouteStep
  pub amount_out : ℕ
  pub gas_used : ℕ
  pub calldata : List ℕ
  pub formula_quotes : ℕ
  pub evm_quotes : ℕ

-- The amount of a candidate.
abbrev pub node_amount : Option BfsNode → ℕ
node_amount none = 0
node_amount (some n) = n.amount

abbrev pub amount_of : List BfsNode → ℕ → ℕ
amount_of nodes i = node_amount (get_elem? nodes i)

-- The inner loop of the sort, over the sorted part from its end.
unfoldable pub sink : List BfsNode → ℕ → List ℕ → List ℕ
sink nodes c [] = c ∷ []
sink nodes c (d ∷ sorted) =
    let rest = sink nodes c sorted in
    if ltb (amount_of nodes d) (amount_of nodes c) then d ∷ rest else c ∷ d ∷ sorted

-- The outer loop.
unfoldable pub sort_candidates : List BfsNode → List ℕ → List ℕ → List ℕ
unfolding sink
sort_candidates nodes sorted [] = reverse sorted
sort_candidates nodes sorted (c ∷ candidates) =
    sort_candidates nodes (sink nodes c sorted) candidates

abbrev pub step_of : Pool → BfsNode → BfsNode → RouteStep
step_of p parent node = record {
  pool = p.address;
  pool_type = p.pool_type;
  token_in = parent.token;
  token_out = node.token;
  extra_data = p.extra_data;
}

-- `backtrack`: the steps from the root, before those that are found.
unfoldable pub backtrack :
    List Pool → List BfsNode → ℕ → ℕ → List RouteStep → Option (List RouteStep)
backtrack pools nodes zero i steps = none
backtrack pools nodes (suc fuel) i steps = get_elem? nodes i >>= (λ node. elim node.parent_id [
  | none ↦ some steps
  | some parent_idx ↦ get_elem? nodes parent_idx >>= (λ parent.
      get_elem? pools node.pool_idx
      >>= (λ p. backtrack pools nodes fuel parent_idx (step_of p parent node ∷ steps)))
])

abbrev pub step_call : RouteStep → SwapCall
step_call s = record {
  pool = s.pool;
  pool_type = s.pool_type;
  extra_data = s.extra_data;
  amount = 0;
}

abbrev pub step_tokens : List RouteStep → List ℕ
step_tokens [] = []
step_tokens (s ∷ steps) = s.token_in ∷ s.token_out ∷ step_tokens steps

-- `ExecuteWithCallState`: the bytes that the call returns and its gas, or an error.
abbrev pub Evm : Type 0
Evm = List ℕ → Option (List ℕ × ℕ)

-- The amount that the call returns, where it is one.
unfoldable pub evm_amount : Option (List ℕ × ℕ) → Option (ℕ × ℕ)
evm_amount none = none
evm_amount (some (ret, gas)) =
    let amount = read_word ret in
    if ltb (length ret) 32
    then none
    else if amount / 2 ^ 255 % 2 == 1
    then none
    else if amount == 0
    then none
    else some (amount, gas)

module _ (encode_v4 : List ℕ → List ℕ) (evm : Evm) (pools : List Pool)
    (amount_in limit formula_quotes : ℕ) where
  -- The verified routes with one more, where the call gives an amount.
  unfoldable pub with_verified :
      List RouteStep → List ℕ → ℕ → List Route → Option (ℕ × ℕ) → List Route
  with_verified steps calldata evm_quotes verified none = verified
  with_verified steps calldata evm_quotes verified (some (amount, gas)) =
      verified
      ++ record {
        steps = steps;
        amount_out = amount;
        gas_used = gas;
        calldata = calldata;
        formula_quotes = formula_quotes;
        evm_quotes = evm_quotes;
      }
        ∷ []

  -- The loop over the candidates; a failed call cannot fill the list, which was short before it.
  unfoldable pub verify : List BfsNode → List ℕ → ℕ → List Route → Option (List Route)
  unfolding backtrack encode_swap_multi evm_amount with_verified
  verify nodes [] evm_quotes verified = some verified
  verify nodes (c ∷ candidates) evm_quotes verified =
      backtrack pools nodes (length nodes) c [] >>= (λ steps.
        encode_swap_multi encode_v4 (map step_call steps) (step_tokens steps) amount_in (some 0)
        >>= (λ calldata.
            let extended =
              with_verified steps calldata (evm_quotes + 1) verified (evm_amount (evm calldata)) in
            let rest = verify nodes candidates (evm_quotes + 1) extended in
            if leb limit (length extended) then some extended else rest))

abbrev pub start_search : ℕ → ℕ → Search
start_search amount_in token_in = record {
  nodes = root_node amount_in token_in ∷ [];
  candidates = [];
  token_best = [];
  formula_quotes = 0;
}

abbrev pub hops_of : ℕ → ℕ
hops_of max_hops = if (max_hops == 0) || ltb 4 max_hops then 4 else max_hops

abbrev pub limit_of : ℕ → ℕ
limit_of limit = if limit == 0 then 1 else limit

-- `FindBestRoute`: the first of at most one route, or nil.
abbrev pub first_route : List Route → Option Route
first_route [] = none
first_route (r ∷ _) = some r

module _ (encode_v4 : List ℕ → List ℕ) (evm : Evm) (order : Order) (quote : PoolQuote)
    (pools : List Pool) (adj : Map (List PoolEdge)) where
  unfoldable pub find_top_routes : ℕ → ℕ → ℕ → ℕ → ℕ → Option (List Route)
  unfolding search_layers sort_candidates verify
  find_top_routes token_in token_out amount_in max_hops limit =
      if amount_in == 0
      then some []
      else search_layers token_in token_out quote pools adj order (hops_of max_hops) 0 (0 ∷ [])
          (start_search amount_in token_in)
        >>= (λ s.
            verify encode_v4 evm pools amount_in (limit_of limit) s.formula_quotes s.nodes
              (take 5 (sort_candidates s.nodes [] s.candidates)) 0 [])

  unfoldable pub find_best_route : ℕ → ℕ → ℕ → ℕ → Option (Option Route)
  unfolding find_top_routes
  find_best_route token_in token_out amount_in max_hops =
      find_top_routes token_in token_out amount_in max_hops 1
      >>= (λ routes. some (first_route routes))
