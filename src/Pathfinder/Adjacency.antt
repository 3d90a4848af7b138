-- ===== src/Pathfinder/Adjacency.antt =====
-- pathfinder/pools.go and pathfinder/bfs.go: BuildGraph and BuildAdjacency, the edges that leave each
-- token. An address is a number. The registry is the map from a pool to its formula.
pub mod Edges
use defi_toolbox_avalanche.Common.{
  ℕ, ◌+◌, ◌%◌, ◌^◌, Bool, true, false, Option, none, some, List, [], ◌∷◌, ◌++◌, ◌==◌, ltb, length,
  if◌then◌else◌, Map, lookup, insert,
}

pub record Pool : Type 0 where
  pub address : ℕ
  pub dex : List ℕ
  pub pool_type : ℕ
  pub tokens : List ℕ
  pub extra_data : List ℕ

pub record PoolEdge : Type 0 where
  pub pool_idx : ℕ
  pub token_out : ℕ
  pub token_in : ℕ

-- `Edge` of the graph
pub record Edge : Type 0 where
  pub pool : Pool
  pub token_out : ℕ

module _ {E : Type 0} where
  abbrev pub or_empty : Option (List E) → List E
  or_empty none = []
  or_empty (some es) = es

  -- `adj[token]`
  abbrev pub edges_at : ℕ → Map (List E) → List E
  edges_at token adj = or_empty (lookup token adj)

  -- `adj[token] = append(adj[token], e)`
  abbrev pub add_edge : ℕ → E → Map (List E) → Map (List E)
  add_edge token e adj = insert token (edges_at token adj ++ (e ∷ [])) adj

  -- The loop over `tj`, from the position `tj` on.
  unfoldable pub add_from : (ℕ → ℕ → E) → ℕ → ℕ → ℕ → List ℕ → Map (List E) → Map (List E)
  add_from edge ti token_in tj [] adj = adj
  add_from edge ti token_in tj (token_out ∷ rest) adj =
      add_from edge ti token_in (tj + 1) rest
        (if ti == tj then adj else add_edge token_in (edge token_in token_out) adj)

  -- The loop over `ti`, from the position `ti` on.
  unfoldable pub add_pairs : (ℕ → ℕ → E) → ℕ → List ℕ → List ℕ → Map (List E) → Map (List E)
  add_pairs edge ti [] tokens adj = adj
  add_pairs edge ti (token_in ∷ rest) tokens adj =
      add_pairs edge (ti + 1) rest tokens (add_from edge ti token_in 0 tokens adj)

abbrev pub pool_edge : ℕ → ℕ → ℕ → PoolEdge
pool_edge i token_in token_out = record {
  pool_idx = i % 2 ^ 16;
  token_out = token_out;
  token_in = token_in;
}

abbrev pub is_known : Option ℕ → Bool
is_known none = false
is_known (some _) = true

-- The two `continue` of the loop.
abbrev pub is_used : Map ℕ → Pool → Bool
is_used registry p = if ltb (length p.tokens) 2 then false else is_known (lookup p.address registry)

-- The loop over the pools, from the index `i` on.
unfoldable pub add_pools : Map ℕ → ℕ → List Pool → Map (List PoolEdge) → Map (List PoolEdge)
add_pools registry i [] adj = adj
add_pools registry i (p ∷ pools) adj =
    add_pools registry (i + 1) pools
      (if is_used registry p then add_pairs (pool_edge i) 0 p.tokens p.tokens adj else adj)

unfoldable pub build_adjacency : List Pool → Map ℕ → Map (List PoolEdge)
build_adjacency pools registry = add_pools registry 0 pools []

abbrev pub graph_edge : Pool → ℕ → ℕ → Edge
graph_edge p token_in token_out = record { pool = p; token_out = token_out }

unfoldable pub graph_pools : List Pool → Map (List Edge) → Map (List Edge)
graph_pools [] edges = edges
graph_pools (p ∷ pools) edges =
    graph_pools pools (add_pairs (graph_edge p) 0 p.tokens p.tokens edges)

unfoldable pub build_graph : List Pool → Map (List Edge)
build_graph pools = graph_pools pools []
