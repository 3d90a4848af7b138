-- ===== src/Pathfinder/Search/Found.antt =====
-- pathfinder/bfs.go, FindTopRoutes: the loops over edges, layers and hops.
use mathlib.Core.Path.{subst}
use mathlib.Core.List.{append_assoc, append-nil}
use defi_toolbox_avalanche.Common.{
  ℕ, zero, suc, ◌+◌, ◌%◌, ◌^◌, ◌≤◌, ◌≡◌, ◌≢◌, ◌∙◌, sym, ap, refl, false, Option, some, List, [],
  ◌∷◌, ◌++◌, map, length, length-append, get_elem?, get_elem?-append_self, arith, ◌==◌, Bool-cases,
  inl, inr, Map, lookup, All, All-imp, All-append, All-map,
}
use defi_toolbox_avalanche.Pathfinder.Route.{RouteStep}
use defi_toolbox_avalanche.Pathfinder.Adjacency.{
  Pool, PoolEdge, or_empty, edges_at, pool_edge, is_used, build_adjacency,
}
use defi_toolbox_avalanche.Pathfinder.Adjacency.Edges.{
  to_others, leaving, pool_edges, edges_at-build_adjacency,
}
use defi_toolbox_avalanche.Pathfinder.QuotePath.{PoolQuote}
use defi_toolbox_avalanche.Pathfinder.Search.{
  BfsNode, TopEntry, Search, is_skipped, is_nil, collect, next_layer, visit_edge, visit_edges,
  visit_layer, search_layers, Order,
}
use defi_toolbox_avalanche.Pathfinder.Search.Paths.{Trail, Trail-append, Trail-at}
use defi_toolbox_avalanche.Pathfinder.Search.Layers.{
  IsInLayer, IsCandidate, IsGood, Grows, place-IsGood, next_layer-All, lookup-AllBest, IsWalk,
  walked-AllBest,
}

-- An edge from a token, through a pool that exists.
abbrev pub IsEdge : List Pool → ℕ → PoolEdge → Type 0
IsEdge pools token e = (e.token_in ≡ token) × (p : Pool) × (get_elem? pools e.pool_idx ≡ some p)

abbrev pub IsAdjacency : List Pool → Map (List PoolEdge) → Type 0
IsAdjacency pools adj = (token : ℕ) → All (IsEdge pools token) (edges_at token adj)

nonzero : (n : ℕ) → (n == 0) ≡ false → n ≢ 0
nonzero n h = λ z. absurd (ground arith)

module _ (quote : PoolQuote) (pools : List Pool) (amount_in token_in token_out : ℕ) where
  -- The result is a search that goes on from another.
  abbrev Gives : ℕ → Search → Option Search → Type 0
  Gives k s result =
      (t : Search) × (result ≡ some t)
      × IsGood quote pools amount_in token_in token_out k t
      × Grows quote pools amount_in token_in token_out s t

  Grows-trans :
      (s t r : Search)
      → Grows quote pools amount_in token_in token_out s t
      → Grows quote pools amount_in token_in token_out t r
      → Grows quote pools amount_in token_in token_out s r
  Grows-trans s t r (more, eq) (later, eq') =
      (more ++ later, eq' ∙ ap (λ ns. ns ++ later) eq ∙ append_assoc s.nodes more later)

  Trail-grown :
      {i : ℕ} {n : BfsNode} {steps : List RouteStep} (s t : Search)
      → Grows quote pools amount_in token_in token_out s t
      → Trail quote pools amount_in token_in s.nodes i n steps
      → Trail quote pools amount_in token_in t.nodes i n steps
  Trail-grown {i} {n} {steps} s t (more, eq) trail =
      subst (λ ns. Trail quote pools amount_in token_in ns i n steps) (sym eq)
        (Trail-append quote pools amount_in token_in more trail)

  IsInLayer-grown :
      (s t : Search) (k : ℕ) (layer : List ℕ)
      → Grows quote pools amount_in token_in token_out s t
      → All (IsInLayer quote pools amount_in token_in s.nodes k) layer
      → All (IsInLayer quote pools amount_in token_in t.nodes k) layer
  IsInLayer-grown s t k layer grows all =
      All-imp (IsInLayer quote pools amount_in token_in s.nodes k)
        (IsInLayer quote pools amount_in token_in t.nodes k) layer
        (λ i (token, (n, steps, trail, at, count)).
          (token, (n, steps, Trail-grown s t grows trail, at, count)))
        all

  module _ (adj : Map (List PoolEdge)) where
    visit_edge-Gives :
        (hops parent_idx : ℕ) (parent : BfsNode) (steps : List RouteStep) (e : PoolEdge)
        (s : Search)
        → Trail quote pools amount_in token_in s.nodes parent_idx parent steps
        → length steps ≡ hops
        → IsEdge pools parent.token e
        → IsGood quote pools amount_in token_in token_out (suc hops) s
        → Gives
            (suc hops)
            s
            (visit_edge token_in token_out quote pools adj hops parent_idx parent e s)
    unfolding visit_edge
    visit_edge-Gives hops parent_idx parent steps e s trail count (from, p, pool) good =
        let counted = record s { formula_quotes = s.formula_quotes + 1 } in
        let good' : IsGood quote pools amount_in token_in token_out (suc hops) counted = record {
          best = good.best;
          found = good.found;
        } in
        let out = quote p.address parent.amount e.token_in e.token_out in
        let same_nodes : s.nodes ≡ s.nodes ++ [] = sym (append-nil s.nodes) in
        elim (Bool-cases (is_skipped token_in token_out parent e)) [
          | inl skipped ↦ rw (visit_edge, skipped) (s, refl, good, ([], same_nodes))
          | inr visited ↦ elim (Bool-cases (out == 0)) [
            | inl nothing ↦
                rw (visit_edge, visited, pool, nothing) (counted, refl, good', ([], same_nodes))
            | inr more ↦
                let (placed, grows) =
                  place-IsGood quote pools amount_in token_in token_out hops parent_idx out parent
                    steps e p counted trail count pool
                    (ap (λ a. quote p.address parent.amount a e.token_out) from) (nonzero out more)
                    good' in
                rw (visit_edge, visited, pool, more) (_, refl, placed, grows)
          ]
        ]

    visit_edges-Gives :
        (hops parent_idx : ℕ) (parent : BfsNode) (steps : List RouteStep) (es : List PoolEdge)
        (s : Search)
        → Trail quote pools amount_in token_in s.nodes parent_idx parent steps
        → length steps ≡ hops
        → All (IsEdge pools parent.token) es
        → IsGood quote pools amount_in token_in token_out (suc hops) s
        → Gives
            (suc hops)
            s
            (visit_edges token_in token_out quote pools adj hops parent_idx parent es s)
    unfolding visit_edges
    visit_edges-Gives hops parent_idx parent steps [] s trail count edges good =
        (s, refl, good, ([], sym (append-nil s.nodes)))
    visit_edges-Gives hops parent_idx parent steps (e ∷ es) s trail count (edge, edges) good =
        let (t, first, good_t, grows) =
          visit_edge-Gives hops parent_idx parent steps e s trail count edge good in
        let (r, rest, good_r, grows') =
          visit_edges-Gives hops parent_idx parent steps es t (Trail-grown s t grows trail) count
            edges good_t in
        rw (visit_edges, first) (r, rest, good_r, Grows-trans s t r grows grows')

    visit_layer-Gives :
        (hops : ℕ) (layer : List ℕ) (s : Search)
        → IsAdjacency pools adj
        → All (IsInLayer quote pools amount_in token_in s.nodes hops) layer
        → IsGood quote pools amount_in token_in token_out (suc hops) s
        → Gives (suc hops) s (visit_layer token_in token_out quote pools adj hops layer s)
    unfolding visit_layer
    visit_layer-Gives hops [] s edges all good = (s, refl, good, ([], sym (append-nil s.nodes)))
    visit_layer-Gives hops (i ∷ layer) s edges ((token, (n, steps, trail, at, count)), all) good =
        let (t, first, good_t, grows) =
          visit_edges-Gives hops i n steps (edges_at n.token adj) s trail count (edges n.token)
            good in
        let (r, rest, good_r, grows') =
          visit_layer-Gives hops layer t edges (IsInLayer-grown s t hops layer grows all) good_t in
        rw (visit_layer, Trail-at quote pools amount_in token_in trail, first)
          (r, rest, good_r, Grows-trans s t r grows grows')

    -- The candidates of a search that is over.
    abbrev pub Finds : ℕ → Option Search → Type 0
    Finds k result =
        (t : Search) × (result ≡ some t)
        × All (IsCandidate quote pools amount_in token_in t.nodes token_out k) t.candidates

    collect-All :
        (k : ℕ) (t : Search)
        → IsGood quote pools amount_in token_in token_out (suc k) t
        → All
            (IsCandidate quote pools amount_in token_in t.nodes token_out (suc k))
            (collect token_in token_out t).candidates
    collect-All k t good = elim (Bool-cases (token_in == token_out)) [
      | inl cyclic ↦ rw cyclic good.found
      | inr apart ↦
          let IsFound = IsCandidate quote pools amount_in token_in t.nodes token_out (suc k) in
          let entries = or_empty (lookup token_out t.token_best) in
          let all =
            lookup-AllBest quote pools amount_in token_in t.nodes (suc k) token_out t.token_best
              good.best in
          rw apart (
            All-append IsFound t.candidates (map (λ (e : TopEntry). e.node_idx) entries) good.found
              (All-map IsFound (λ (e : TopEntry). e.node_idx) entries
                (All-imp _ _ entries (λ e at. (k, at, omega arith)) all)))
    ]

    pub weaker :
        (nodes : List BfsNode) (k l : ℕ) (candidates : List ℕ)
        → k ≤ l
        → All (IsCandidate quote pools amount_in token_in nodes token_out k) candidates
        → All (IsCandidate quote pools amount_in token_in nodes token_out l) candidates
    weaker nodes k l candidates h all =
        All-imp _ _ candidates (λ i (j, at, few). (j, at, omega arith)) all

    module _ (order : Order) (walk : IsWalk order) where
      pub search_layers-Finds :
          (left hops : ℕ) (layer : List ℕ) (s : Search)
          → IsAdjacency pools adj
          → All (IsInLayer quote pools amount_in token_in s.nodes hops) layer
          → All (IsCandidate quote pools amount_in token_in s.nodes token_out hops) s.candidates
          → Finds
              (hops + left)
              (search_layers token_in token_out quote pools adj order left hops layer s)
      unfolding search_layers
      search_layers-Finds zero hops layer s edges all found =
          (s, refl, weaker s.nodes hops (hops + 0) s.candidates (omega arith) found)
      search_layers-Finds (suc left) hops layer s edges all found =
          let start = record s { token_best = [] } in
          let good : IsGood quote pools amount_in token_in token_out (suc hops) start = record {
            best = tt;
            found = weaker s.nodes hops (suc hops) s.candidates (omega arith) found;
          } in
          let (t, visited, good_t, grows) = visit_layer-Gives hops layer start edges all good in
          let collected = collect-All hops t good_t in
          let following = next_layer token_in token_out (order hops t.token_best) in
          let later =
            next_layer-All quote pools amount_in token_in token_out t.nodes (suc hops)
              (order hops t.token_best)
              (walked-AllBest quote pools amount_in token_in order t.nodes (suc hops) hops
                t.token_best walk good_t.best) in
          elim (Bool-cases (is_nil following)) [
            | inl over ↦
                rw (search_layers, visited, over)
                  (
                    collect token_in token_out t,
                    refl,
                    weaker t.nodes (suc hops) (hops + suc left) _ (omega arith) collected,
                  )
            | inr more ↦
                rw (search_layers, visited, more)
                  (let next : suc hops ≡ hops + 1 = omega arith in
                    let (r, done, all_r) =
                      search_layers-Finds left (hops + 1) following (collect token_in token_out t)
                        edges
                        (subst
                          (λ k. All (IsInLayer quote pools amount_in token_in t.nodes k) following)
                          next later)
                        (subst
                          (λ k.
                            All (IsCandidate quote pools amount_in token_in t.nodes token_out k)
                              (collect token_in token_out t).candidates)
                          next collected) in
                    (
                      r,
                      done,
                      weaker r.nodes (hops + 1 + left) (hops + suc left) r.candidates (omega arith)
                          all_r,
                    ))
          ]

-- What the edges of one pool are.
IsPoolEdge : ℕ → ℕ → PoolEdge → Type 0
IsPoolEdge i token e = (e.token_in ≡ token) × (e.pool_idx ≡ i % 2 ^ 16)

to_others-All :
    (i ti token tj : ℕ) (tokens : List ℕ)
    → All (IsPoolEdge i token) (to_others (pool_edge i) ti token tj tokens)
unfolding IsPoolEdge
to_others-All i ti token tj [] = tt
to_others-All i ti token tj (t ∷ rest) =
    let later = to_others-All i ti token (tj + 1) rest in
    elim (Bool-cases (ti == tj)) [
      | inl same ↦ rw same later
      | inr other ↦ rw other ((refl, refl), later)
    ]

leaving-All :
    (i a ti : ℕ) (rest tokens : List ℕ)
    → All (IsPoolEdge i a) (leaving (pool_edge i) a ti rest tokens)
leaving-All i a ti [] tokens = tt
leaving-All i a ti (t ∷ rest) tokens =
    let later = leaving-All i a (ti + 1) rest tokens in
    elim (Bool-cases (a == t)) [
      | inl same ↦
          let eq : t ≡ a = ground arith in
          rw same (
            All-append (IsPoolEdge i a) (to_others (pool_edge i) ti t 0 tokens) _
              (subst (λ z. All (IsPoolEdge i z) (to_others (pool_edge i) ti t 0 tokens)) eq
                (to_others-All i ti t 0 tokens))
              later)
      | inr other ↦ rw other later
    ]

-- The pools from the index i on are the rest of all pools.
pool_edges-All :
    (all before pools : List Pool) (registry : Map ℕ) (a : ℕ)
    → all ≡ before ++ pools
    → length all ≤ 2 ^ 16
    → All (IsEdge all a) (pool_edges registry a (length before) pools)
unfolding IsPoolEdge
pool_edges-All all before [] registry a split few = tt
pool_edges-All all before (p ∷ pools) registry a split few =
    let i = length before in
    let total : length all ≡ i + length (p ∷ pools) =
      ap length split ∙ length-append before (p ∷ pools) in
    let small : i % 2 ^ 16 ≡ i = omega arith in
    let there : get_elem? all i ≡ some p = rw split (get_elem?-append_self before p pools) in
    let next : length (before ++ p ∷ []) ≡ i + 1 = length-append before (p ∷ []) ∙ omega arith in
    let later =
      subst (λ k. All (IsEdge all a) (pool_edges registry a k pools)) next
        (pool_edges-All all (before ++ p ∷ []) pools registry a
          (split ∙ sym (append_assoc before (p ∷ []) pools)) few) in
    elim (Bool-cases (is_used registry p)) [
      | inl used ↦ rw used (
          All-append (IsEdge all a) (leaving (pool_edge i) a 0 p.tokens p.tokens) _
            (All-imp (IsPoolEdge i a) (IsEdge all a) (leaving (pool_edge i) a 0 p.tokens p.tokens)
              (λ e (from, idx). (from, p, ap (get_elem? all) (idx ∙ small) ∙ there))
              (leaving-All i a 0 p.tokens p.tokens))
            later)
      | inr skipped ↦ rw skipped later
    ]

-- BuildAdjacency
pub build_adjacency-IsAdjacency :
    (pools : List Pool) (registry : Map ℕ)
    → length pools ≤ 2 ^ 16
    → IsAdjacency pools (build_adjacency pools registry)
build_adjacency-IsAdjacency pools registry few token =
    rw (edges_at-build_adjacency pools registry token)
      (pool_edges-All pools [] pools registry token refl few)
