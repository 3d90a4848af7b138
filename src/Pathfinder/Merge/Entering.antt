-- ===== src/Pathfinder/Merge/Entering.antt =====
-- What the legs of pathfinder/merge.go put into a pool from outside: the sum of the explicit amounts
-- of the legs with one key.
use defi_toolbox_avalanche.Common.{
  ℕ, ◌+◌, ◌%◌, ◌≡◌, refl, List, [], ◌∷◌, ◌++◌, arith, if◌then◌else◌,
}
use defi_toolbox_avalanche.Uint256.{Uint256, IsUint256, word}
use defi_toolbox_avalanche.Pathfinder.Route.{RouteStep, SquishRoute, Leg, same_key}
use defi_toolbox_avalanche.Pathfinder.Merge.{
  Nodes, no_nodes, merge_node, has_volumes, route_legs, balance_legs, overflow_legs, build_trie,
  extract_mixed, add_volumes, emit_dfs, merge_suffixes,
}
use defi_toolbox_avalanche.Pathfinder.Merge.Trie.{
  sum, at_key, at_first, supplied, held, held-build_trie, held-extract_mixed,
}

unfoldable pub entering : RouteStep → List Leg → ℕ
entering k [] = 0
entering k (leg ∷ legs) = at_key k leg.step leg.amount + entering k legs

-- Equal as words.
abbrev pub Same : ℕ → ℕ → Type 0
Same a b = a % word ≡ b % word

pub entering-append :
    (k : RouteStep) (xs ys : List Leg) → entering k (xs ++ ys) ≡ entering k xs + entering k ys
unfolding entering
entering-append k [] ys = omega arith
entering-append k (x ∷ xs) ys = omega (arith, entering-append k xs ys)

entering-balance_legs :
    (k : RouteStep) (steps : List RouteStep) → entering k (balance_legs steps) ≡ 0
unfolding entering
entering-balance_legs k [] = refl
entering-balance_legs k (s ∷ steps) = ground (arith, entering-balance_legs k steps)

pub entering-route_legs :
    (k : RouteStep) (steps : List RouteStep) (v : ℕ)
    → entering k (route_legs steps v) ≡ at_first k steps v
unfolding entering
entering-route_legs k [] v = refl
entering-route_legs k (s ∷ steps) v = omega (arith, entering-balance_legs k steps)

entering-overflow_legs :
    (k : RouteStep) (routes : List SquishRoute)
    → entering k (overflow_legs routes) ≡ supplied k routes
unfolding overflow_legs supplied entering
entering-overflow_legs k [] = refl
entering-overflow_legs k (r ∷ routes) = omega (
  arith,
  entering-append k (route_legs r.steps r.volume) (overflow_legs routes),
  entering-route_legs k r.steps r.volume,
  entering-overflow_legs k routes,
)

at_key-Same : (k s : RouteStep) (a b : ℕ) → Same a b → Same (at_key k s a) (at_key k s b)
at_key-Same k s a b same = ground arith

-- Adding two amounts with one key.
pub at_key_merged :
    (k a b : RouteStep) (x y z : ℕ)
    → same_key k b ≡ same_key k a
    → z ≡ (x + y) % word
    → Same (at_key k a z) (at_key k a x + at_key k b y)
at_key_merged k a b x y z keys added = rw keys (ground (arith, keys))

module _ (u : Uint256) (h : IsUint256 u) where
  add_volumes-Same : (total : ℕ) (vs : List ℕ) → Same (add_volumes u total vs) (total + sum vs)
  unfolding add_volumes
  add_volumes-Same total [] = omega arith
  add_volumes-Same total (v ∷ vs) =
      omega (arith, add_volumes-Same (u.add total v) vs, h.add_lem total v)

  emitted_amount : (vs : List ℕ) → Same (if has_volumes vs then add_volumes u 0 vs else 0) (sum vs)
  emitted_amount [] = refl
  emitted_amount (v ∷ vs) = omega (arith, add_volumes-Same 0 (v ∷ vs))

  emit_dfs-held : (k : RouteStep) (ns : Nodes) → Same (entering k (emit_dfs u ns)) (held k ns)
  unfolding emit_dfs held entering
  emit_dfs-held k no_nodes = refl
  emit_dfs-held k (merge_node s children vs ns) =
      let amount = if has_volumes vs then add_volumes u 0 vs else 0 in
      omega (
        arith,
        entering-append k (emit_dfs u children)
            (record { step = s; amount = amount } ∷ emit_dfs u ns),
        at_key-Same k s amount (sum vs) (emitted_amount vs),
        emit_dfs-held k children,
        emit_dfs-held k ns,
      )

  -- Phase 1 puts each route's volume into the pool of its first step.
  pub merge_suffixes-entering :
      (k : RouteStep) (routes : List SquishRoute)
      → Same (entering k (merge_suffixes u routes)) (supplied k routes)
  unfolding merge_suffixes held
  merge_suffixes-entering k routes =
      let trie = (build_trie routes (no_nodes, [])).0 in
      let (nodes, overflow) = extract_mixed trie in
      omega (
        arith,
        entering-append k (emit_dfs u nodes) (overflow_legs overflow),
        emit_dfs-held k nodes,
        entering-overflow_legs k overflow,
        held-extract_mixed k trie,
        held-build_trie k routes (no_nodes, []),
      )
