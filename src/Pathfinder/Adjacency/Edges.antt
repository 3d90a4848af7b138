-- ===== src/Pathfinder/Adjacency/Edges.antt =====
-- pathfinder/pools.go and pathfinder/bfs.go: the edges of one token, listed pool by pool.
use mathlib.Core.List.{append_assoc, append-nil}
use defi_toolbox_avalanche.Common.{
  ℕ, ◌+◌, ◌%◌, ◌^◌, ◌<◌, ◌≤◌, ◌≡◌, refl, sym, ap, ◌∙◌, true, Option, none, some, length, lookup,
  ltb, List, [], ◌∷◌, ◌++◌, ◌==◌, if◌then◌else◌, Map, lookup-insert, arith, Bool-cases, inl, inr,
}
use defi_toolbox_avalanche.Pathfinder.Adjacency.{
  Pool, PoolEdge, Edge, edges_at, add_edge, add_from, add_pairs, pool_edge, is_used, add_pools,
  is_known, build_adjacency, graph_edge, graph_pools, build_graph,
}

module _ {E : Type 0} where
  -- Edges to all positions but `ti`.
  abbrev pub to_others : (ℕ → ℕ → E) → ℕ → ℕ → ℕ → List ℕ → List E
  to_others edge ti token tj [] = []
  to_others edge ti token tj (t ∷ rest) =
      (if ti == tj then [] else edge token t ∷ []) ++ to_others edge ti token (tj + 1) rest

  -- From each position that holds `a`.
  abbrev pub leaving : (ℕ → ℕ → E) → ℕ → ℕ → List ℕ → List ℕ → List E
  leaving edge a ti [] tokens = []
  leaving edge a ti (t ∷ rest) tokens =
      (if a == t then to_others edge ti t 0 tokens else []) ++ leaving edge a (ti + 1) rest tokens

  edges_at-add_edge :
      (a t : ℕ) (e : E) (adj : Map (List E))
      → edges_at a (add_edge t e adj) ≡ edges_at a adj ++ (if a == t then e ∷ [] else [])
  edges_at-add_edge a t e adj = elim (Bool-cases (a == t)) [
    | inl same ↦
        let eq : a ≡ t = ground arith in
        rw (lookup-insert a t (edges_at t adj ++ (e ∷ [])) adj, same, eq)
    | inr other ↦
        rw (lookup-insert a t (edges_at t adj ++ (e ∷ [])) adj, other)
          (sym (append-nil (edges_at a adj)))
  ]

  edges_at-add_from :
      (edge : ℕ → ℕ → E) (a ti t tj : ℕ) (rest : List ℕ) (adj : Map (List E))
      → edges_at a (add_from edge ti t tj rest adj)
        ≡ edges_at a adj ++ (if a == t then to_others edge ti t tj rest else [])
  unfolding add_from
  edges_at-add_from edge a ti t tj [] adj = elim (Bool-cases (a == t)) [
    | inl same ↦ rw same (sym (append-nil (edges_at a adj)))
    | inr other ↦ rw other (sym (append-nil (edges_at a adj)))
  ]
  edges_at-add_from edge a ti t tj (x ∷ rest) adj = elim (Bool-cases (ti == tj)) [
    | inl skipped ↦ rw skipped (edges_at-add_from edge a ti t (tj + 1) rest adj)
    | inr linked ↦
        let step = edges_at-add_edge a t (edge t x) adj in
        let later = edges_at-add_from edge a ti t (tj + 1) rest (add_edge t (edge t x) adj) in
        elim (Bool-cases (a == t)) [
          | inl same ↦
              let tail = to_others edge ti t (tj + 1) rest in
              let added : edges_at a (add_edge t (edge t x) adj)
                  ≡ edges_at a adj ++ (edge t x ∷ []) =
                rw same at step in
              rw (linked, same)
                ((rw same at later)
                  ∙ (ap (λ es. es ++ tail) added
                      ∙ append_assoc (edges_at a adj) (edge t x ∷ []) tail))
          | inr other ↦
              let added : edges_at a (add_edge t (edge t x) adj) ≡ edges_at a adj ++ [] =
                rw other at step in
              rw (linked, other)
                ((rw other at later)
                  ∙ (ap (λ es. es ++ []) added ∙ append-nil (edges_at a adj ++ [])))
        ]
  ]

  edges_at-add_pairs :
      (edge : ℕ → ℕ → E) (a ti : ℕ) (rest tokens : List ℕ) (adj : Map (List E))
      → edges_at a (add_pairs edge ti rest tokens adj)
        ≡ edges_at a adj ++ leaving edge a ti rest tokens
  unfolding add_pairs
  edges_at-add_pairs edge a ti [] tokens adj = sym (append-nil (edges_at a adj))
  edges_at-add_pairs edge a ti (t ∷ rest) tokens adj =
      edges_at-add_pairs edge a (ti + 1) rest tokens (add_from edge ti t 0 tokens adj)
      ∙ (ap (λ es. es ++ leaving edge a (ti + 1) rest tokens)
            (edges_at-add_from edge a ti t 0 tokens adj)
          ∙ append_assoc (edges_at a adj) (if a == t then to_others edge ti t 0 tokens else [])
              (leaving edge a (ti + 1) rest tokens))

-- The edges of the pools that are used, from the index `i` on.
abbrev pub pool_edges : Map ℕ → ℕ → ℕ → List Pool → List PoolEdge
pool_edges registry a i [] = []
pool_edges registry a i (p ∷ pools) =
    (if is_used registry p then leaving (pool_edge i) a 0 p.tokens p.tokens else [])
    ++ pool_edges registry a (i + 1) pools

abbrev pub graph_edges : ℕ → List Pool → List Edge
graph_edges a [] = []
graph_edges a (p ∷ pools) = leaving (graph_edge p) a 0 p.tokens p.tokens ++ graph_edges a pools

edges_at-add_pools :
    (registry : Map ℕ) (a i : ℕ) (pools : List Pool) (adj : Map (List PoolEdge))
    → edges_at a (add_pools registry i pools adj) ≡ edges_at a adj ++ pool_edges registry a i pools
unfolding add_pools
edges_at-add_pools registry a i [] adj = sym (append-nil (edges_at a adj))
edges_at-add_pools registry a i (p ∷ pools) adj = elim (Bool-cases (is_used registry p)) [
  | inl used ↦ rw used (
      edges_at-add_pools registry a (i + 1) pools (add_pairs (pool_edge i) 0 p.tokens p.tokens adj)
      ∙ (ap (λ es. es ++ pool_edges registry a (i + 1) pools)
            (edges_at-add_pairs (pool_edge i) a 0 p.tokens p.tokens adj)
          ∙ append_assoc (edges_at a adj) (leaving (pool_edge i) a 0 p.tokens p.tokens)
              (pool_edges registry a (i + 1) pools)))
  | inr skipped ↦ rw skipped (edges_at-add_pools registry a (i + 1) pools adj)
]

pub edges_at-build_adjacency :
    (pools : List Pool) (registry : Map ℕ) (a : ℕ)
    → edges_at a (build_adjacency pools registry) ≡ pool_edges registry a 0 pools
unfolding build_adjacency
edges_at-build_adjacency pools registry a = edges_at-add_pools registry a 0 pools []

-- The edges that leave `a` in a pool, where the registry has the pool: `i` is the pool's index.
abbrev pub registered : Option ℕ → ℕ → ℕ → List ℕ → List PoolEdge
registered none a i tokens = []
registered (some _) a i tokens =
    leaving (λ from to. record { pool_idx = i; token_in = from; token_out = to }) a 0 tokens tokens

abbrev pub registered_edges : Map ℕ → ℕ → ℕ → List Pool → List PoolEdge
registered_edges registry a i [] = []
registered_edges registry a i (p ∷ pools) =
    registered (lookup p.address registry) a i p.tokens ++ registered_edges registry a (i + 1) pools

-- A pool of less than two tokens has no edges.
few_tokens :
    (found : Option ℕ) (a i : ℕ) (tokens : List ℕ)
    → ltb (length tokens) 2 ≡ true
    → registered found a i tokens ≡ []
few_tokens none a i tokens few = refl
few_tokens (some n) a i [] few = refl
few_tokens (some n) a i (t ∷ []) few = elim (Bool-cases (a == t)) [
  | inl same ↦ rw same refl
  | inr other ↦ rw other refl
]
few_tokens (some n) a i (t ∷ t' ∷ tokens) few = absurd (ground arith)

known_edges :
    (found : Option ℕ) (a i : ℕ) (tokens : List ℕ)
    → i < 2 ^ 16
    → (if is_known found then leaving (pool_edge i) a 0 tokens tokens else [])
      ≡ registered found a i tokens
known_edges none a i tokens small = refl
known_edges (some n) a i tokens small =
    let exact : i % 2 ^ 16 ≡ i = omega arith in
    ap
      (λ k.
        leaving (λ from to. record { pool_idx = k; token_in = from; token_out = to }) a 0 tokens
          tokens)
      exact

used_edges :
    (registry : Map ℕ) (a i : ℕ) (p : Pool)
    → i < 2 ^ 16
    → (if is_used registry p then leaving (pool_edge i) a 0 p.tokens p.tokens else [])
      ≡ registered (lookup p.address registry) a i p.tokens
used_edges registry a i p small = elim (Bool-cases (ltb (length p.tokens) 2)) [
  | inl few ↦ rw few (sym (few_tokens (lookup p.address registry) a i p.tokens few))
  | inr enough ↦ rw enough (known_edges (lookup p.address registry) a i p.tokens small)
]

pool_edges-registered :
    (registry : Map ℕ) (a i : ℕ) (pools : List Pool)
    → i + length pools ≤ 2 ^ 16
    → pool_edges registry a i pools ≡ registered_edges registry a i pools
pool_edges-registered registry a i [] few = refl
pool_edges-registered registry a i (p ∷ pools) few =
    rw
      (
        used_edges registry a i p (omega arith),
        pool_edges-registered registry a (i + 1) pools (omega arith),
      )
      refl

-- With at most 2^16 pools, for every token, the edges that BuildAdjacency lists are, in the order
-- of the pools that are in the registry and of the token's positions in each, one edge from the
-- token to every other position of the pool, with the index of the pool.
pub edges_at-registered :
    (pools : List Pool) (registry : Map ℕ) (a : ℕ)
    → length pools ≤ 2 ^ 16
    → edges_at a (build_adjacency pools registry) ≡ registered_edges registry a 0 pools
edges_at-registered pools registry a few =
    edges_at-build_adjacency pools registry a
    ∙ pool_edges-registered registry a 0 pools (omega arith)

edges_at-graph_pools :
    (a : ℕ) (pools : List Pool) (edges : Map (List Edge))
    → edges_at a (graph_pools pools edges) ≡ edges_at a edges ++ graph_edges a pools
unfolding graph_pools
edges_at-graph_pools a [] edges = sym (append-nil (edges_at a edges))
edges_at-graph_pools a (p ∷ pools) edges =
    edges_at-graph_pools a pools (add_pairs (graph_edge p) 0 p.tokens p.tokens edges)
    ∙ (ap (λ es. es ++ graph_edges a pools)
          (edges_at-add_pairs (graph_edge p) a 0 p.tokens p.tokens edges)
        ∙ append_assoc (edges_at a edges) (leaving (graph_edge p) a 0 p.tokens p.tokens)
            (graph_edges a pools))

-- For every token, the edges that BuildGraph lists are, in the order of the pools and of the
-- token's positions in each, one edge to every other position of the pool.
pub edges_at-build_graph :
    (pools : List Pool) (a : ℕ) → edges_at a (build_graph pools) ≡ graph_edges a pools
unfolding build_graph
edges_at-build_graph pools a = edges_at-graph_pools a pools []
