-- ===== src/Pathfinder/Merge.antt =====
-- pathfinder/merge.go: merging the routes of a split swap. Phase 1 is a trie of the reversed routes,
-- phase 2 merges first hops with a quoter, phase 3 collapses repeated calls (Merge/Collapse).
pub mod Collapse
pub mod FirstHops
pub mod Trie
pub mod Entering
pub mod Whole
use defi_toolbox_avalanche.Common.{
  ℕ, ◌≡◌, Bool, true, false, not, ◌&&◌, Option, none, some, List, [], ◌∷◌, ◌++◌, map, if◌then◌else◌,
}
use defi_toolbox_avalanche.Uint256.{Uint256}
use defi_toolbox_avalanche.Pathfinder.Route.{RouteStep, SquishRoute, Leg, same_key}

-- `[]*mergeNode`: no node, or a node's step, children and volumes and the nodes after it. A node's
-- key is that of its step.
pub data Nodes : Type 0 where
  no_nodes : Nodes
  merge_node : RouteStep → Nodes → List ℕ → Nodes → Nodes

-- The children and the volumes of the node that `cur` points to.
abbrev pub Cursor : Type 0
Cursor = Nodes × List ℕ

-- The child of the step's key, added at the end when there is none, changed by the rest of the walk.
unfoldable pub find_child : RouteStep → (Cursor → Cursor) → Nodes → Nodes
find_child step walk no_nodes =
    let (children, volumes) = walk (no_nodes, []) in merge_node step children volumes no_nodes
find_child step walk (merge_node s children volumes ns) =
    let later = find_child step walk ns in
    let (children', volumes') = walk (children, volumes) in
    if same_key s step
    then merge_node s children' volumes' ns
    else merge_node s children volumes later

-- One round of the loop over a route's steps: the walk moves to the child.
abbrev pub move : RouteStep → (Cursor → Cursor) → Cursor → Cursor
move step walk (children, volumes) = (find_child step walk children, volumes)

-- The loop from the last step to the first, then the rest of the walk.
unfoldable pub walk_back : List RouteStep → (Cursor → Cursor) → Cursor → Cursor
walk_back [] walk cur = walk cur
walk_back (step ∷ steps) walk cur = walk_back steps (move step walk) cur

-- `cur.volumes = append(cur.volumes, r.Volume)`
abbrev pub add_volume : ℕ → Cursor → Cursor
add_volume volume (children, volumes) = (children, volumes ++ (volume ∷ []))

abbrev pub insert_steps : List RouteStep → ℕ → Cursor → Cursor
insert_steps [] volume root = root
insert_steps (step ∷ steps) volume root = walk_back (step ∷ steps) (add_volume volume) root

unfoldable pub insert_route : SquishRoute → Cursor → Cursor
insert_route r root = insert_steps r.steps r.volume root

unfoldable pub build_trie : List SquishRoute → Cursor → Cursor
build_trie [] root = root
build_trie (r ∷ routes) root = build_trie routes (insert_route r root)

abbrev pub has_volumes : List ℕ → Bool
has_volumes [] = false
has_volumes (_ ∷ _) = true

abbrev pub has_nodes : Nodes → Bool
has_nodes no_nodes = false
has_nodes (merge_node _ _ _ _) = true

unfoldable pub rebuild_path : RouteStep → List RouteStep
rebuild_path step = step ∷ []

abbrev pub overflow_routes : RouteStep → List ℕ → List SquishRoute
overflow_routes step [] = []
overflow_routes step (v ∷ volumes) =
    record { steps = rebuild_path step; volume = v } ∷ overflow_routes step volumes

-- The nodes left, and what is appended to the overflow.
unfoldable pub extract_mixed : Nodes → Nodes × List SquishRoute
extract_mixed no_nodes = (no_nodes, [])
extract_mixed (merge_node step children volumes ns) =
    let (children', out) = extract_mixed children in
    let (ns', out') = extract_mixed ns in
    if has_volumes volumes && has_nodes children'
    then (merge_node step children' [] ns', out ++ (overflow_routes step volumes ++ out'))
    else (merge_node step children' volumes ns', out ++ out')

-- A route's steps, the first with its volume and the others with amount zero.
abbrev pub balance_legs : List RouteStep → List Leg
balance_legs [] = []
balance_legs (step ∷ steps) = record { step = step; amount = 0 } ∷ balance_legs steps

abbrev pub route_legs : List RouteStep → ℕ → List Leg
route_legs [] volume = []
route_legs (step ∷ steps) volume = record { step = step; amount = volume } ∷ balance_legs steps

unfoldable pub overflow_legs : List SquishRoute → List Leg
overflow_legs [] = []
overflow_legs (r ∷ routes) = route_legs r.steps r.volume ++ overflow_legs routes

module _ (u : Uint256) where
  -- `total.Add(total, v)` over the volumes
  unfoldable pub add_volumes : ℕ → List ℕ → ℕ
  add_volumes total [] = total
  add_volumes total (v ∷ volumes) = add_volumes (u.add total v) volumes

  unfoldable pub emit_dfs : Nodes → List Leg
  emit_dfs no_nodes = []
  emit_dfs (merge_node step children volumes ns) =
      emit_dfs children
      ++ (record { step = step; amount = if has_volumes volumes then add_volumes 0 volumes else 0 }
          ∷ emit_dfs ns)

  -- Phase 1 for two routes or more.
  unfoldable pub merge_suffixes : List SquishRoute → List Leg
  merge_suffixes routes =
      let (children, volumes) = build_trie routes (no_nodes, []) in
      let (nodes, overflow) = extract_mixed children in emit_dfs nodes ++ overflow_legs overflow
