-- ===== src/Pathfinder/Search/Routes.antt =====
-- pathfinder/bfs.go, FindTopRoutes: the sort of the candidates and their trial.
use mathlib.Core.List.{reverse-cons, append-nil}
use mathlib.Core.Path.{subst}
use defi_toolbox_avalanche.Common.{
  ℕ, suc, ◌+◌, ◌^◌, ◌≤◌, ◌<◌, ◌≡◌, ◌≢◌, ◌∙◌, sym, ap, refl, false, Option, none, some, List, [],
  ◌∷◌, map, reverse, length, length-append, take, arith, ltb, leb, ◌==◌, Bool-cases, inl, inr, Map,
  All, All-append, All-take,
}
use defi_toolbox_avalanche.Pathfinder.Route.{RouteStep}
use defi_toolbox_avalanche.Pathfinder.Adjacency.{Pool, PoolEdge, build_adjacency}
use defi_toolbox_avalanche.Pathfinder.QuotePath.{PoolQuote, quote_path}
use defi_toolbox_avalanche.Pathfinder.Encode.{encode_swap_multi, encode_swap_multi_inner}
use defi_toolbox_avalanche.Pathfinder.Search.{BfsNode, Order, root_node}
use defi_toolbox_avalanche.Pathfinder.Search.Trial.{
  Route, sink, sort_candidates, backtrack, step_call, step_tokens, Evm, evm_amount, with_verified,
  verify, start_search, hops_of, limit_of, find_top_routes, amount_of,
}
use defi_toolbox_avalanche.Pathfinder.Search.Paths.{
  root, IsChain, Trail-at, Trail-quote_path, Trail-IsChain, backtrack-Trail, get_elem?-lt,
}
use defi_toolbox_avalanche.Pathfinder.Search.Layers.{IsInLayer, IsCandidate, IsWalk}
use defi_toolbox_avalanche.Pathfinder.Search.Found.{
  IsAdjacency, build_adjacency-IsAdjacency, search_layers-Finds, weaker,
}

sink-All :
    (P : ℕ → Type 0) (nodes : List BfsNode) (c : ℕ) (sorted : List ℕ)
    → P c
    → All P sorted
    → All P (sink nodes c sorted)
unfolding sink
sink-All P nodes c [] pc all = (pc, tt)
sink-All P nodes c (d ∷ sorted) pc (pd, all) =
    elim (Bool-cases (ltb (amount_of nodes d) (amount_of nodes c))) [
      | inl less ↦ rw less (pd, sink-All P nodes c sorted pc all)
      | inr more ↦ rw more (pc, (pd, all))
    ]

reverse-All : (P : ℕ → Type 0) (xs : List ℕ) → All P xs → All P (reverse xs)
reverse-All P [] all = tt
reverse-All P (x ∷ xs) (px, all) =
    subst (All P) (sym (reverse-cons x xs))
      (All-append P (reverse xs) (x ∷ []) (reverse-All P xs all) (px, tt))

sort_candidates-All :
    (P : ℕ → Type 0) (nodes : List BfsNode) (sorted candidates : List ℕ)
    → All P sorted
    → All P candidates
    → All P (sort_candidates nodes sorted candidates)
unfolding sort_candidates
sort_candidates-All P nodes sorted [] done all = reverse-All P sorted done
sort_candidates-All P nodes sorted (c ∷ candidates) done (pc, all) =
    sort_candidates-All P nodes (sink nodes c sorted) candidates (sink-All P nodes c sorted pc done)
      all

not_zero : (n : ℕ) → (n == 0) ≡ false → n ≢ 0
not_zero n h = λ z. absurd (ground arith)

encode_some :
    (encode_v4 : List ℕ → List ℕ) (j amount : ℕ) (steps : List RouteStep)
    → length steps ≡ suc j
    → (calldata : List ℕ) × (encode_swap_multi encode_v4
          (map step_call steps)
          (step_tokens steps)
          amount
          (some 0)
        ≡ some calldata)
unfolding encode_swap_multi encode_swap_multi_inner
encode_some encode_v4 j amount [] count = absurd (omega arith)
encode_some encode_v4 j amount (s ∷ steps) count = (_, refl)

module _ (encode_v4 : List ℕ → List ℕ) (evm : Evm) (quote : PoolQuote) (pools : List Pool)
    (amount_in token_in token_out : ℕ) where
  -- The steps lead from tokenIn to tokenOut and are 1 to k, the pools quote them more than zero, and
  -- the EVM's run of their calldata gives the amount and the gas.
  pub record IsRoute (k : ℕ) (r : Route) : Type 0 where
    pub chain : IsChain token_in r.steps token_out
    pub some_steps : 0 < length r.steps
    pub few_steps : length r.steps ≤ k
    pub quoted : quote_path quote r.steps amount_in ≢ 0
    pub encoded :
        encode_swap_multi encode_v4 (map step_call r.steps) (step_tokens r.steps) amount_in (some 0)
        ≡ some r.calldata
    pub run : evm_amount (evm r.calldata) ≡ some (r.amount_out, r.gas_used)

  module _ (limit formula_quotes k : ℕ) where
    with_verified-All :
        (steps : List RouteStep) (calldata : List ℕ) (evm_quotes : ℕ) (verified : List Route)
        (result : Option (ℕ × ℕ))
        → evm_amount (evm calldata) ≡ result
        → ((amount gas : ℕ)
            → evm_amount (evm calldata) ≡ some (amount, gas)
            → IsRoute k (record {
              steps = steps;
              amount_out = amount;
              gas_used = gas;
              calldata = calldata;
              formula_quotes = formula_quotes;
              evm_quotes = evm_quotes;
            }))
        → All (IsRoute k) verified
        → All (IsRoute k) (
            with_verified encode_v4 evm pools amount_in limit formula_quotes steps calldata
              evm_quotes verified result)
          × (length (
                with_verified encode_v4 evm pools amount_in limit formula_quotes steps calldata
                  evm_quotes verified result)
              ≤ length verified + 1)
    unfolding with_verified
    with_verified-All steps calldata evm_quotes verified none ran sound all = (all, omega arith)
    with_verified-All steps calldata evm_quotes verified (some (amount, gas)) ran sound all = (
      All-append (IsRoute k) verified _ all (sound amount gas ran, tt),
      omega (arith, length-append verified _),
    )

    verify-IsRoute :
        (nodes : List BfsNode) (candidates : List ℕ) (evm_quotes : ℕ) (verified : List Route)
        → amount_in ≢ 0
        → All (IsCandidate quote pools amount_in token_in nodes token_out k) candidates
        → All (IsRoute k) verified
        → length verified < limit
        → (routes : List Route) × (verify encode_v4 evm pools amount_in limit formula_quotes nodes
              candidates evm_quotes verified
            ≡ some routes)
          × All (IsRoute k) routes
          × (length routes ≤ limit)
    unfolding verify
    verify-IsRoute nodes [] evm_quotes verified some_in found all short =
        (verified, refl, all, omega arith)
    verify-IsRoute nodes (c ∷ candidates) evm_quotes verified some_in
          ((j, (n, steps, trail, at, count), few), found) all short =
        let tracked : backtrack pools nodes (length nodes) c [] ≡ some steps =
          backtrack-Trail quote pools amount_in token_in (length nodes) []
            (get_elem?-lt nodes c n (Trail-at quote pools amount_in token_in trail)) trail
          ∙ ap some (append-nil steps) in
        let (calldata, encoded) = encode_some encode_v4 j amount_in steps count in
        let result = evm_amount (evm calldata) in
        let extended =
          with_verified encode_v4 evm pools amount_in limit formula_quotes steps calldata
            (evm_quotes + 1) verified result in
        let (quoted, some_out) = Trail-quote_path quote pools amount_in token_in some_in trail in
        let chain =
          subst (IsChain token_in steps) at (Trail-IsChain quote pools amount_in token_in trail) in
        let (sound, length_le) =
          with_verified-All steps calldata (evm_quotes + 1) verified result refl
            (λ amount gas ran. record {
              chain = chain;
              some_steps = omega arith;
              few_steps = omega arith;
              quoted = λ z. some_out (sym quoted ∙ z);
              encoded = encoded;
              run = ran;
            })
            all in
        elim (Bool-cases (leb limit (length extended))) [
          | inl full ↦ rw (verify, tracked, encoded, full) (extended, refl, sound, ground arith)
          | inr room ↦
              rw (verify, tracked, encoded, room)
                (verify-IsRoute nodes candidates (evm_quotes + 1) extended some_in found sound
                  (ground arith))
        ]

  find_top_routes_lem :
      (order : Order) (adj : Map (List PoolEdge)) (max_hops limit : ℕ)
      → IsWalk order
      → IsAdjacency pools adj
      → (routes : List Route) × (find_top_routes encode_v4 evm order quote pools adj token_in
            token_out amount_in max_hops limit
          ≡ some routes)
        × All (IsRoute (hops_of max_hops)) routes
        × (length routes ≤ limit_of limit)
  unfolding find_top_routes
  find_top_routes_lem order adj max_hops limit walk edges = elim (Bool-cases (amount_in == 0)) [
    | inl nothing ↦ rw nothing ([], refl, tt, omega arith)
    | inr some_in ↦
        let start = start_search amount_in token_in in
        let here : IsInLayer quote pools amount_in token_in start.nodes 0 0 = (
          token_in,
          (
            root_node amount_in token_in,
            [],
            root 0 (root_node amount_in token_in) refl refl refl refl,
            refl,
            refl,
          ),
        ) in
        let (s, searched, found) =
          search_layers-Finds quote pools amount_in token_in token_out adj order walk
            (hops_of max_hops) 0 (0 ∷ []) start edges (here, tt) tt in
        rw (some_in, searched)
          (verify-IsRoute (limit_of limit) s.formula_quotes (hops_of max_hops) s.nodes
            (take 5 (sort_candidates s.nodes [] s.candidates)) 0 [] (not_zero amount_in some_in)
            (All-take _ 5 _ (
              sort_candidates-All _ s.nodes [] s.candidates tt (
                weaker quote pools amount_in token_in token_out adj s.nodes (0 + hops_of max_hops)
                  (hops_of max_hops) s.candidates (omega arith) found)))
            tt (ground arith))
  ]

  -- Whatever the pools quote and the EVM answers, and in whatever order a walk over a map meets
  -- what the map holds, with at most 2^16 pools FindTopRoutes over the edges of BuildAdjacency
  -- does not panic and gives at most the limit of routes, a limit of 0 being 1. The steps of each
  -- lead from tokenIn to tokenOut, each taking the token that the one before gives; they are at
  -- least 1 and at most the hops allowed, QuotePath along them is not zero, and the route's amount
  -- and gas are what the EVM's run of their calldata gave.
  pub find_top_routes-IsRoute :
      (order : Order) (registry : Map ℕ) (max_hops limit : ℕ)
      → IsWalk order
      → length pools ≤ 2 ^ 16
      → (routes : List Route) × (find_top_routes encode_v4 evm order quote pools
            (build_adjacency pools registry)
            token_in
            token_out
            amount_in
            max_hops
            limit
          ≡ some routes)
        × All (IsRoute (hops_of max_hops)) routes
        × (length routes ≤ limit_of limit)
  find_top_routes-IsRoute order registry max_hops limit walk few =
      find_top_routes_lem order (build_adjacency pools registry) max_hops limit walk
        (build_adjacency-IsAdjacency pools registry few)
