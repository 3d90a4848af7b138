-- ===== src/Pathfinder/Search/Layers.antt =====
-- pathfinder/bfs.go, FindTopRoutes: what a layer of the search keeps.
use mathlib.Core.Path.{subst}
use mathlib.Core.List.{append-nil}
use defi_toolbox_avalanche.Common.{
  ℕ, zero, suc, ◌≤◌, ◌≡◌, ◌≢◌, sym, refl, ◌&&◌, some, List, [], ◌∷◌, ◌++◌, map, length,
  length-append, get_elem?, get_elem?-append_self, arith, ltb, leb, ◌==◌, Bool-cases, inl, inr, Map,
  lookup, insert, All, All-imp, All-append, All-map,
}
use defi_toolbox_avalanche.Pathfinder.Route.{RouteStep}
use defi_toolbox_avalanche.Pathfinder.Adjacency.{Pool, PoolEdge, or_empty}
use defi_toolbox_avalanche.Pathfinder.QuotePath.{PoolQuote}
use defi_toolbox_avalanche.Pathfinder.Search.{
  BfsNode, TopEntry, Search, top_k, worst_idx, set_entry, amount_at, edge_node, place, next_layer,
  Order,
}
use defi_toolbox_avalanche.Pathfinder.Search.Trial.{step_of}
use defi_toolbox_avalanche.Pathfinder.Search.Paths.{
  Trail, hop, Trail-append, Trail-at, get_elem?-lt,
}

-- A walk over a map meets only what the map holds.
abbrev pub IsWalk : Order → Type 1
IsWalk order =
    (hop : ℕ) (best : Map (List TopEntry)) (P : ℕ × List TopEntry → Type 0)
    → All P best
    → All P (order hop best)

module _ (quote : PoolQuote) (pools : List Pool) (amount_in token_in : ℕ) where
  -- A node that some number of steps lead to, and whose token is given.
  abbrev pub IsAt : List BfsNode → ℕ → ℕ → ℕ → Type 0
  IsAt nodes token k i =
      (n : BfsNode) × (steps : List RouteStep) × Trail quote pools amount_in token_in nodes i n
        steps
      × (n.token ≡ token)
      × (length steps ≡ k)

  abbrev pub IsInLayer : List BfsNode → ℕ → ℕ → Type 0
  IsInLayer nodes k i = (token : ℕ) × IsAt nodes token k i

  -- A node of the token that 1 to k steps lead to.
  abbrev pub IsCandidate : List BfsNode → ℕ → ℕ → ℕ → Type 0
  IsCandidate nodes token k i = (j : ℕ) × IsAt nodes token (suc j) i × (suc j ≤ k)

  abbrev AllAt : List BfsNode → ℕ → ℕ × List TopEntry → Type 0
  AllAt nodes k e = All (λ x. IsAt nodes e.0 k x.node_idx) e.1

  abbrev pub AllBest : List BfsNode → ℕ → Map (List TopEntry) → Type 0
  AllBest nodes k [] = Unit
  AllBest nodes k ((token, entries) ∷ best) =
      All (λ e. IsAt nodes token k e.node_idx) entries × AllBest nodes k best

  pub IsAt-append :
      (nodes more : List BfsNode) (token k i : ℕ)
      → IsAt nodes token k i
      → IsAt (nodes ++ more) token k i
  IsAt-append nodes more token k i (n, steps, trail, at, count) =
      (n, steps, Trail-append quote pools amount_in token_in more trail, at, count)

  AllBest-append :
      (nodes more : List BfsNode) (k : ℕ) (best : Map (List TopEntry))
      → AllBest nodes k best
      → AllBest (nodes ++ more) k best
  AllBest-append nodes more k [] all = tt
  AllBest-append nodes more k ((token, entries) ∷ best) (all, rest) = (
    All-imp _ _ entries (λ e. IsAt-append nodes more token k e.node_idx) all,
    AllBest-append nodes more k best rest,
  )

  pub lookup-AllBest :
      (nodes : List BfsNode) (k token : ℕ) (best : Map (List TopEntry))
      → AllBest nodes k best
      → All (λ (e : TopEntry). IsAt nodes token k e.node_idx) (or_empty (lookup token best))
  lookup-AllBest nodes k token [] all = tt
  lookup-AllBest nodes k token ((other, entries) ∷ best) (all, rest) =
      elim (Bool-cases (token == other)) [
        | inl same ↦
            let eq : other ≡ token = ground arith in
            rw same (subst (λ t. All (λ (e : TopEntry). IsAt nodes t k e.node_idx) entries) eq all)
        | inr apart ↦ rw apart (lookup-AllBest nodes k token best rest)
      ]

  insert-AllBest :
      (nodes : List BfsNode) (k token : ℕ) (entries : List TopEntry) (best : Map (List TopEntry))
      → All (λ e. IsAt nodes token k e.node_idx) entries
      → AllBest nodes k best
      → AllBest nodes k (insert token entries best)
  insert-AllBest nodes k token entries [] all rest = (all, tt)
  insert-AllBest nodes k token entries ((other, old) ∷ best) all (first, rest) =
      elim (Bool-cases (token == other)) [
        | inl same ↦ rw same (all, rest)
        | inr apart ↦ rw apart (first, insert-AllBest nodes k token entries best all rest)
      ]

  set_entry-All :
      (P : TopEntry → Type 0) (i : ℕ) (e : TopEntry) (entries : List TopEntry)
      → P e
      → All P entries
      → All P (set_entry i e entries)
  unfolding set_entry
  set_entry-All P i e [] pe all = tt
  set_entry-All P zero e (x ∷ entries) pe (px, all) = (pe, all)
  set_entry-All P (suc i) e (x ∷ entries) pe (px, all) = (px, set_entry-All P i e entries pe all)

  AllBest-All :
      (nodes : List BfsNode) (k : ℕ) (best : Map (List TopEntry))
      → AllBest nodes k best
      → All (AllAt nodes k) best
  AllBest-All nodes k [] all = tt
  AllBest-All nodes k (_ ∷ best) (all, rest) = (all, AllBest-All nodes k best rest)

  All-AllBest :
      (nodes : List BfsNode) (k : ℕ) (best : Map (List TopEntry))
      → All (AllAt nodes k) best
      → AllBest nodes k best
  All-AllBest nodes k [] all = tt
  All-AllBest nodes k (_ ∷ best) (all, rest) = (all, All-AllBest nodes k best rest)

  pub walked-AllBest :
      (order : Order) (nodes : List BfsNode) (k round : ℕ) (best : Map (List TopEntry))
      → IsWalk order
      → AllBest nodes k best
      → AllBest nodes k (order round best)
  walked-AllBest order nodes k round best walk all =
      All-AllBest nodes k _ (walk round best (AllAt nodes k) (AllBest-All nodes k best all))

  pub next_layer-All :
      (token_out : ℕ) (nodes : List BfsNode) (k : ℕ) (best : Map (List TopEntry))
      → AllBest nodes k best
      → All (IsInLayer nodes k) (next_layer token_in token_out best)
  unfolding next_layer
  next_layer-All token_out nodes k [] all = tt
  next_layer-All token_out nodes k ((token, entries) ∷ best) (all, rest) =
      let later = next_layer-All token_out nodes k best rest in
      elim (Bool-cases (token == token_out)) [
        | inl last ↦ rw last later
        | inr other ↦ rw other (
            All-append (IsInLayer nodes k) (map (λ (e : TopEntry). e.node_idx) entries) _
              (All-map (IsInLayer nodes k) (λ (e : TopEntry). e.node_idx) entries
                (All-imp _ _ entries (λ e at. (token, at)) all))
              later)
      ]

  module _ (token_out : ℕ) where
    -- What a search has found in k steps at most.
    pub record IsGood (k : ℕ) (s : Search) : Type 0 where
      pub best : AllBest s.nodes k s.token_best
      pub found : All (IsCandidate s.nodes token_out k) s.candidates

    abbrev pub Grows : Search → Search → Type 0
    Grows s t = (more : List BfsNode) × (t.nodes ≡ s.nodes ++ more)

    -- The nodes grow, the best entries are given, and a candidate is perhaps added.
    grown :
        (k : ℕ) (s : Search) (more : List BfsNode) (added : List ℕ) (best : Map (List TopEntry))
        → IsGood k s
        → AllBest (s.nodes ++ more) k best
        → All (IsCandidate (s.nodes ++ more) token_out k) added
        → IsGood k (record s {
          nodes = s.nodes ++ more;
          candidates = s.candidates ++ added;
          token_best = best;
        })
    grown k s more added best good all new = record {
      best = all;
      found =
          All-append (IsCandidate (s.nodes ++ more) token_out k) s.candidates added
            (All-imp (IsCandidate s.nodes token_out k) (IsCandidate (s.nodes ++ more) token_out k)
              s.candidates
              (λ i candidate. (
                candidate.0,
                IsAt-append s.nodes more token_out (suc candidate.0) i candidate.1,
                candidate.2,
              ))
              good.found)
            new;
    }

    grown_best :
        (k : ℕ) (s : Search) (more : List BfsNode) (best : Map (List TopEntry))
        → IsGood k s
        → AllBest (s.nodes ++ more) k best
        → IsGood k (record s { nodes = s.nodes ++ more; token_best = best })
    grown_best k s more best good all =
        let wider = grown k s more [] best good all tt in
        record {
          best = all;
          found =
              subst (All (IsCandidate (s.nodes ++ more) token_out k)) (append-nil s.candidates)
                wider.found;
        }

    pub place-IsGood :
        (hops parent_idx out : ℕ) (parent : BfsNode) (steps : List RouteStep) (e : PoolEdge)
        (p : Pool) (s : Search)
        → Trail quote pools amount_in token_in s.nodes parent_idx parent steps
        → length steps ≡ hops
        → get_elem? pools e.pool_idx ≡ some p
        → out ≡ quote p.address parent.amount parent.token e.token_out
        → out ≢ 0
        → IsGood (suc hops) s
        → IsGood (suc hops) (place token_in token_out hops parent_idx e out s)
          × Grows s (place token_in token_out hops parent_idx e out s)
    unfolding place
    place-IsGood hops parent_idx out parent steps e p s trail count pool quoted given good =
        let idx = length s.nodes in
        let node = edge_node parent_idx e out in
        let more = node ∷ [] in
        let entries = or_empty (lookup e.token_out s.token_best) in
        let old = AllBest-append s.nodes more (suc hops) s.token_best good.best in
        let here : IsAt (s.nodes ++ more) e.token_out (suc hops) idx = (
          node,
          steps ++ step_of p parent node ∷ [],
          hop idx node p (Trail-append quote pools amount_in token_in more trail)
              (get_elem?-append_self s.nodes node []) refl
              (get_elem?-lt s.nodes parent_idx parent
                (Trail-at quote pools amount_in token_in trail))
              pool quoted given,
          refl,
          omega (arith, length-append steps (step_of p parent node ∷ []), count),
        ) in
        let entry : TopEntry = record { amount = out; node_idx = idx } in
        let worst = worst_idx entries in
        let kept = lookup-AllBest (s.nodes ++ more) (suc hops) e.token_out s.token_best old in
        let IsHere : TopEntry → Type 0 =
          λ x. IsAt (s.nodes ++ more) e.token_out (suc hops) x.node_idx in
        elim (Bool-cases ((token_in == token_out) && (e.token_out == token_out) && leb 1 hops)) [
          | inl back ↦
              let eq : e.token_out ≡ token_out = ground arith in
              let there : IsCandidate (s.nodes ++ more) token_out (suc hops) idx =
                (hops, subst (λ t. IsAt (s.nodes ++ more) t (suc hops) idx) eq here, omega arith) in
              rw (place, back)
                (grown (suc hops) s more (idx ∷ []) s.token_best good old (there, tt), (more, refl))
          | inr onward ↦ elim (Bool-cases (ltb (length entries) top_k)) [
            | inl room ↦
                rw (place, onward, room)
                  (
                    grown_best (suc hops) s more
                        (insert e.token_out (entries ++ entry ∷ []) s.token_best) good
                        (insert-AllBest (s.nodes ++ more) (suc hops) e.token_out
                          (entries ++ entry ∷ []) s.token_best
                          (All-append IsHere entries (entry ∷ []) kept (here, tt)) old),
                    (more, refl),
                  )
            | inr full ↦ elim (Bool-cases (ltb (amount_at worst entries) out)) [
              | inl better ↦
                  rw (place, onward, full, better)
                    (
                      grown_best (suc hops) s more
                          (insert e.token_out (set_entry worst entry entries) s.token_best) good
                          (insert-AllBest (s.nodes ++ more) (suc hops) e.token_out
                            (set_entry worst entry entries) s.token_best
                            (set_entry-All IsHere worst entry entries here kept) old),
                      (more, refl),
                    )
              | inr worse ↦ rw (place, onward, full, worse) (good, ([], sym (append-nil s.nodes)))
            ]
          ]
        ]
