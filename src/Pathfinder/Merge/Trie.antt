-- ===== src/Pathfinder/Merge/Trie.antt =====
-- pathfinder/merge.go: the volumes in the trie of reversed routes, by the key of a step.
use defi_toolbox_avalanche.Common.{
  ℕ, ◌+◌, ◌≡◌, List, [], ◌∷◌, ◌++◌, ◌&&◌, arith, if◌then◌else◌, Bool-cases, inl, inr,
}
use defi_toolbox_avalanche.Pathfinder.Route.{RouteStep, SquishRoute, same_key, same_key_congruent}
use defi_toolbox_avalanche.Pathfinder.Merge.{
  Nodes, no_nodes, merge_node, Cursor, find_child, move, walk_back, add_volume, insert_steps,
  insert_route, build_trie, has_volumes, has_nodes, rebuild_path, overflow_routes, extract_mixed,
}

abbrev pub sum : List ℕ → ℕ
sum [] = 0
sum (v ∷ vs) = v + sum vs

-- `v` when the step has the key of `k`.
abbrev pub at_key : RouteStep → RouteStep → ℕ → ℕ
at_key k s v = if same_key k s then v else 0

-- The volume of a list of routes whose first step has the key of `k`.
abbrev pub at_first : RouteStep → List RouteStep → ℕ → ℕ
at_first k [] v = 0
at_first k (s ∷ _) v = at_key k s v

unfoldable pub supplied : RouteStep → List SquishRoute → ℕ
supplied k [] = 0
supplied k (r ∷ routes) = at_first k r.steps r.volume + supplied k routes

-- The volume that the nodes with the key of `k` hold.
unfoldable pub held : RouteStep → Nodes → ℕ
held k no_nodes = 0
held k (merge_node s children volumes ns) = at_key k s (sum volumes) + (held k children + held k ns)

pub sum-append : (xs ys : List ℕ) → sum (xs ++ ys) ≡ sum xs + sum ys
sum-append [] ys = omega arith
sum-append (x ∷ xs) ys = omega (arith, sum-append xs ys)

-- A walk puts `below` under the cursor's children and `here` at the cursor.
abbrev Puts : RouteStep → (Cursor → Cursor) → ℕ → ℕ → Type 0
Puts k walk below here =
    (children : Nodes) (volumes : List ℕ)
    → (held k (walk (children, volumes)).0 ≡ held k children + below)
      × (sum (walk (children, volumes)).1 ≡ sum volumes + here)

held-find_child :
    (k step : RouteStep) (walk : Cursor → Cursor) (below here : ℕ) (ns : Nodes)
    → Puts k walk below here
    → held k (find_child step walk ns) ≡ held k ns + (below + at_key k step here)
unfolding find_child held
held-find_child k step walk below here no_nodes puts =
    let (under, at) = puts no_nodes [] in ground arith
held-find_child k step walk below here (merge_node s children volumes ns) puts =
    let (under, at) = puts children volumes in
    let later = held-find_child k step walk below here ns puts in
    elim (Bool-cases (same_key s step)) [
      | inl same ↦
          let keys = same_key_congruent k s step same in
          rw (same, keys, under, at) (ground (arith, keys))
      | inr other ↦ rw other (ground arith)
    ]

move-Puts :
    (k step : RouteStep) (walk : Cursor → Cursor) (below here : ℕ)
    → Puts k walk below here
    → Puts k (move step walk) (below + at_key k step here) 0
move-Puts k step walk below here puts children volumes =
    (held-find_child k step walk below here children puts, omega arith)

pub at_key_zero : (k s : RouteStep) → at_key k s 0 ≡ 0
at_key_zero k s = ground arith

walk_back-Puts :
    (k : RouteStep) (steps : List RouteStep) (walk : Cursor → Cursor) (below : ℕ)
    → Puts k walk below 0
    → Puts k (walk_back steps walk) below 0
unfolding walk_back
walk_back-Puts k [] walk below puts = puts
walk_back-Puts k (s ∷ steps) walk below puts =
    walk_back-Puts k steps (move s walk) below (λ children volumes.
      let (under, at) = move-Puts k s walk below 0 puts children volumes in
      (omega (arith, at_key_zero k s), at))

add_volume-Puts : (k : RouteStep) (v : ℕ) → Puts k (add_volume v) 0 v
add_volume-Puts k v children volumes = (omega arith, omega (arith, sum-append volumes (v ∷ [])))

held-insert_steps :
    (k : RouteStep) (steps : List RouteStep) (v : ℕ) (root : Cursor)
    → held k (insert_steps steps v root).0 ≡ held k root.0 + at_first k steps v
unfolding walk_back
held-insert_steps k [] v root = omega arith
held-insert_steps k (s ∷ steps) v (children, volumes) =
    let moved = move-Puts k s (add_volume v) 0 v (add_volume-Puts k v) in
    let (under, _) =
      walk_back-Puts k steps (move s (add_volume v)) (0 + at_key k s v) moved children volumes in
    omega arith

pub held-build_trie :
    (k : RouteStep) (routes : List SquishRoute) (root : Cursor)
    → held k (build_trie routes root).0 ≡ held k root.0 + supplied k routes
unfolding build_trie insert_route supplied
held-build_trie k [] root = omega arith
held-build_trie k (r ∷ routes) root = omega (
  arith,
  held-build_trie k routes (insert_steps r.steps r.volume root),
  held-insert_steps k r.steps r.volume root,
)

overflow_supplied :
    (k s : RouteStep) (volumes : List ℕ)
    → supplied k (overflow_routes s volumes) ≡ at_key k s (sum volumes)
unfolding supplied rebuild_path
overflow_supplied k s [] = ground arith
overflow_supplied k s (v ∷ volumes) = ground (arith, overflow_supplied k s volumes)

supplied-append :
    (k : RouteStep) (rs rs' : List SquishRoute)
    → supplied k (rs ++ rs') ≡ supplied k rs + supplied k rs'
unfolding supplied
supplied-append k [] rs' = omega arith
supplied-append k (r ∷ rs) rs' = omega (arith, supplied-append k rs rs')

-- Taking the mixed nodes out moves their volumes to the overflow.
pub held-extract_mixed :
    (k : RouteStep) (ns : Nodes)
    → held k (extract_mixed ns).0 + supplied k (extract_mixed ns).1 ≡ held k ns
unfolding extract_mixed held supplied
held-extract_mixed k no_nodes = omega arith
held-extract_mixed k (merge_node s children volumes ns) =
    let (children', out) = extract_mixed children in
    let (ns', out') = extract_mixed ns in
    let inner = held-extract_mixed k children in
    let after = held-extract_mixed k ns in
    elim (Bool-cases (has_volumes volumes && has_nodes children')) [
      | inl mixed ↦ rw mixed (
          grind (
            arith,
            at_key_zero k s,
            overflow_supplied k s volumes,
            supplied-append k out (overflow_routes s volumes ++ out'),
            supplied-append k (overflow_routes s volumes) out',
          ))
      | inr plain ↦ rw plain (omega (arith, supplied-append k out out'))
    ]
