-- ===== src/Pathfinder/Search.antt =====
-- pathfinder/bfs.go, the first half of FindTopRoutes: the search for routes, layer by layer. The quote of
-- a pool is an argument. A reference out of range panics, which is `none`. Go walks over a map in any order: the order in which a
-- hop walks over `tokenBest` is an argument. An index of a node fits in an int32.
pub mod Trial
pub mod Paths
pub mod Layers
pub mod Found
pub mod Routes
use defi_toolbox_avalanche.Common.{
  ℕ, zero, suc, ◌+◌, ◌/◌, ◌%◌, ◌^◌, Bool, true, false, not, ◌&&◌, ◌||◌, Option, none, some, List,
  [], ◌∷◌, ◌++◌, map, reverse, length, get_elem?, take, ltb, leb, ◌==◌, if◌then◌else◌, Map, lookup,
  insert,
}
use defi_toolbox_avalanche.Formulas.MulDiv.{◌>>=◌}
use defi_toolbox_avalanche.Pathfinder.Adjacency.{Pool, PoolEdge, or_empty, edges_at}
use defi_toolbox_avalanche.Pathfinder.QuotePath.{PoolQuote}

pub record BfsNode : Type 0 where
  pub amount : ℕ
  -- -1 is `none`
  pub parent_id : Option ℕ
  pub pool_idx : ℕ
  pub token_in : ℕ
  pub token : ℕ

pub record TopEntry : Type 0 where
  pub amount : ℕ
  pub node_idx : ℕ

-- `allNodes`, `candidates`, `tokenBest` and `formulaQuotes`
pub record Search : Type 0 where
  pub nodes : List BfsNode
  pub candidates : List ℕ
  pub token_best : Map (List TopEntry)
  pub formula_quotes : ℕ

-- How Go walks over `tokenBest` at each hop.
abbrev pub Order : Type 0
Order = ℕ → Map (List TopEntry) → Map (List TopEntry)

abbrev pub top_k : ℕ
top_k = 3

-- The loop that finds the worst entry, from `j` on.
unfoldable pub worst_from : ℕ → ℕ → ℕ → List TopEntry → ℕ
worst_from j worst amount [] = worst
worst_from j worst amount (e ∷ entries) =
    if ltb e.amount amount
    then worst_from (j + 1) j e.amount entries
    else worst_from (j + 1) worst amount entries

unfoldable pub worst_idx : List TopEntry → ℕ
unfolding worst_from
worst_idx [] = 0
worst_idx (e ∷ entries) = worst_from 1 0 e.amount entries

-- `entries[i] = e`, and the amount of `entries[i]`.
unfoldable pub set_entry : ℕ → TopEntry → List TopEntry → List TopEntry
set_entry i e [] = []
set_entry zero e (x ∷ entries) = e ∷ entries
set_entry (suc i) e (x ∷ entries) = x ∷ set_entry i e entries

abbrev pub amount_at : ℕ → List TopEntry → ℕ
amount_at i [] = 0
amount_at zero (x ∷ entries) = x.amount
amount_at (suc i) (x ∷ entries) = amount_at i entries

abbrev pub root_node : ℕ → ℕ → BfsNode
root_node amount_in token_in = record {
  amount = amount_in;
  parent_id = none;
  pool_idx = 0;
  token_in = 0;
  token = token_in;
}

abbrev pub edge_node : ℕ → PoolEdge → ℕ → BfsNode
edge_node parent_idx e out = record {
  amount = out;
  parent_id = some parent_idx;
  pool_idx = e.pool_idx;
  token_in = e.token_in;
  token = e.token_out;
}

abbrev pub has_parent : Option ℕ → Bool
has_parent none = false
has_parent (some _) = true

abbrev pub is_nil : List ℕ → Bool
is_nil [] = true
is_nil (_ ∷ _) = false

module _ (token_in token_out : ℕ) where
  -- The two `continue` before the quote.
  abbrev pub is_skipped : BfsNode → PoolEdge → Bool
  is_skipped parent e =
      (has_parent parent.parent_id && (e.pool_idx == parent.pool_idx))
      || (not (token_in == token_out) && (e.token_out == token_in))

  -- An edge that is quoted more than zero: a candidate, one of the best of its token, or dropped.
  unfoldable pub place : ℕ → ℕ → PoolEdge → ℕ → Search → Search
  unfolding worst_idx set_entry
  place hop parent_idx e out s =
      let idx = length s.nodes in
      let nodes = s.nodes ++ edge_node parent_idx e out ∷ [] in
      let entry : TopEntry = record { amount = out; node_idx = idx } in
      let entries = or_empty (lookup e.token_out s.token_best) in
      let worst = worst_idx entries in
      if (token_in == token_out) && (e.token_out == token_out) && leb 1 hop
      then record s { nodes = nodes; candidates = s.candidates ++ idx ∷ [] }
      else if ltb (length entries) top_k
      then record s {
        nodes = nodes;
        token_best = insert e.token_out (entries ++ entry ∷ []) s.token_best;
      }
      else if ltb (amount_at worst entries) out
      then record s {
        nodes = nodes;
        token_best = insert e.token_out (set_entry worst entry entries) s.token_best;
      }
      else s

  -- `candidates` from the entries of tokenOut, where the tokens differ.
  abbrev pub collect : Search → Search
  collect s = record s {
    candidates =
        if token_in == token_out
        then s.candidates
        else s.candidates
          ++ map (λ (e : TopEntry). e.node_idx) (or_empty (lookup token_out s.token_best));
  }

  -- The next frontier.
  unfoldable pub next_layer : Map (List TopEntry) → List ℕ
  next_layer [] = []
  next_layer ((token, entries) ∷ best) =
      (if token == token_out then [] else map (λ (e : TopEntry). e.node_idx) entries)
      ++ next_layer best

  module _ (quote : PoolQuote) (pools : List Pool) (adj : Map (List PoolEdge)) where
    unfoldable pub visit_edge : ℕ → ℕ → BfsNode → PoolEdge → Search → Option Search
    unfolding place
    visit_edge hop parent_idx parent e s =
        if is_skipped parent e
        then some s
        else get_elem? pools e.pool_idx >>= (λ p.
          let out = quote p.address parent.amount e.token_in e.token_out in
          let counted = record s { formula_quotes = s.formula_quotes + 1 } in
          some (if out == 0 then counted else place hop parent_idx e out counted))

    unfoldable pub visit_edges : ℕ → ℕ → BfsNode → List PoolEdge → Search → Option Search
    unfolding visit_edge
    visit_edges hop parent_idx parent [] s = some s
    visit_edges hop parent_idx parent (e ∷ es) s =
        visit_edge hop parent_idx parent e s >>= visit_edges hop parent_idx parent es

    unfoldable pub visit_layer : ℕ → List ℕ → Search → Option Search
    unfolding visit_edges
    visit_layer hop [] s = some s
    visit_layer hop (i ∷ layer) s =
        get_elem? s.nodes i
        >>= (λ parent. visit_edges hop i parent (edges_at parent.token adj) s)
        >>= visit_layer hop layer

    module _ (order : Order) where
      -- The loop over the hops, for as many as are left.
      unfoldable pub search_layers : ℕ → ℕ → List ℕ → Search → Option Search
      unfolding visit_layer next_layer
      search_layers zero hop layer s = some s
      search_layers (suc left) hop layer s =
          visit_layer hop layer (record s { token_best = [] }) >>= (λ t.
            let following = next_layer (order hop t.token_best) in
            let rest = search_layers left (hop + 1) following (collect t) in
            if is_nil following then some (collect t) else rest)
