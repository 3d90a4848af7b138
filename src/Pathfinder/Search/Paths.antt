-- ===== src/Pathfinder/Search/Paths.antt =====
-- pathfinder/bfs.go, FindTopRoutes: the path from the root to a node.
use mathlib.Core.List.{append_assoc}
use defi_toolbox_avalanche.Common.{
  ℕ, zero, suc, ◌<◌, ◌≡◌, ◌≢◌, ◌∙◌, sym, ap, refl, true, none, some, List, [], ◌∷◌, ◌++◌, length,
  get_elem?, arith, ◌==◌, Bool-cases, inl, inr,
}
use defi_toolbox_avalanche.Pathfinder.Route.{RouteStep}
use defi_toolbox_avalanche.Pathfinder.Adjacency.{Pool}
use defi_toolbox_avalanche.Pathfinder.QuotePath.{PoolQuote, quote_path}
use defi_toolbox_avalanche.Pathfinder.Search.{BfsNode}
use defi_toolbox_avalanche.Pathfinder.Search.Trial.{step_of, backtrack}

-- Each step takes what the one before gives, from a token to another.
abbrev pub IsChain : ℕ → List RouteStep → ℕ → Type 0
IsChain a [] b = a ≡ b
IsChain a (s ∷ steps) b = (s.token_in ≡ a) × IsChain s.token_out steps b

IsChain-append :
    (a b c : ℕ) (steps : List RouteStep) (s : RouteStep)
    → IsChain a steps b
    → s.token_in ≡ b
    → s.token_out ≡ c
    → IsChain a (steps ++ s ∷ []) c
IsChain-append a b c [] s chain from to = (from ∙ sym chain, to)
IsChain-append a b c (r ∷ steps) s (first, chain) from to =
    (first, IsChain-append r.token_out b c steps s chain from to)

is_zero : (n : ℕ) → (n == 0) ≡ true → n ≡ 0
is_zero n h = ground arith

-- The quote along a path with one more step.
quote_path_longer :
    (quote : PoolQuote) (steps : List RouteStep) (s : RouteStep) (a b : ℕ)
    → quote_path quote steps a ≡ b
    → b ≢ 0
    → quote_path quote (steps ++ s ∷ []) a ≡ quote s.pool b s.token_in s.token_out
unfolding quote_path
quote_path_longer quote [] s a b given some_b =
    elim (Bool-cases (quote s.pool a s.token_in s.token_out == 0)) [
      | inl nothing ↦ rw nothing (ap (λ z. quote s.pool z s.token_in s.token_out) given)
      | inr more ↦ rw more (ap (λ z. quote s.pool z s.token_in s.token_out) given)
    ]
quote_path_longer quote (r ∷ steps) s a b given some_b =
    let out = quote r.pool a r.token_in r.token_out in
    elim (Bool-cases (out == 0)) [
      | inl nothing ↦
          let clash : out ≡ b = rw nothing at given in
          absurd (some_b (sym clash ∙ is_zero out nothing))
      | inr more ↦ rw more (quote_path_longer quote steps s out b (rw more at given) some_b)
    ]

get_elem?-append_left :
    {A : Type 0} (xs ys : List A) (i : ℕ) (x : A)
    → get_elem? xs i ≡ some x
    → get_elem? (xs ++ ys) i ≡ some x
get_elem?-append_left [] ys i x found = absurd (ground arith)
get_elem?-append_left (y ∷ xs) ys zero x found = found
get_elem?-append_left (y ∷ xs) ys (suc i) x found = get_elem?-append_left xs ys i x found

pub get_elem?-lt :
    {A : Type 0} (xs : List A) (i : ℕ) (x : A) → get_elem? xs i ≡ some x → i < length xs
get_elem?-lt [] i x found = absurd (ground arith)
get_elem?-lt (y ∷ xs) zero x found = omega arith
get_elem?-lt (y ∷ xs) (suc i) x found = omega (arith, get_elem?-lt xs i x found)

module _ (quote : PoolQuote) (pools : List Pool) (amount_in token_in : ℕ) where
  -- The node at an index, and the steps that lead to it from the root.
  pub data Trail (nodes : List BfsNode) : ℕ → BfsNode → List RouteStep → Type 0 where
    root :
        (i : ℕ) (n : BfsNode)
        → get_elem? nodes i ≡ some n
        → n.parent_id ≡ none
        → n.amount ≡ amount_in
        → n.token ≡ token_in
        → Trail nodes i n []
    hop :
        {j : ℕ} {m : BfsNode} {steps : List RouteStep} (i : ℕ) (n : BfsNode) (p : Pool)
        → Trail nodes j m steps
        → get_elem? nodes i ≡ some n
        → n.parent_id ≡ some j
        → j < i
        → get_elem? pools n.pool_idx ≡ some p
        → n.amount ≡ quote p.address m.amount m.token n.token
        → n.amount ≢ 0
        → Trail nodes i n (steps ++ step_of p m n ∷ [])

  pub Trail-append :
      {nodes : List BfsNode} {i : ℕ} {n : BfsNode} {steps : List RouteStep} (more : List BfsNode)
      → Trail nodes i n steps
      → Trail (nodes ++ more) i n steps
  Trail-append {nodes} more (root i n at top amount token) =
      root i n (get_elem?-append_left nodes more i n at) top amount token
  Trail-append {nodes} more (hop i n p trail at parent before pool amount given) =
      hop i n p (Trail-append more trail) (get_elem?-append_left nodes more i n at) parent before
        pool amount given

  pub Trail-at :
      {nodes : List BfsNode} {i : ℕ} {n : BfsNode} {steps : List RouteStep}
      → Trail nodes i n steps
      → get_elem? nodes i ≡ some n
  Trail-at (root i n at top amount token) = at
  Trail-at (hop i n p trail at parent before pool amount given) = at

  pub Trail-quote_path :
      {nodes : List BfsNode} {i : ℕ} {n : BfsNode} {steps : List RouteStep}
      → amount_in ≢ 0
      → Trail nodes i n steps
      → (quote_path quote steps amount_in ≡ n.amount) × (n.amount ≢ 0)
  unfolding quote_path
  Trail-quote_path some_in (root i n at top amount token) =
      (sym amount, λ z. some_in (sym amount ∙ z))
  Trail-quote_path some_in (hop {j} {m} {steps} i n p trail at parent before pool amount given) =
      let (quoted, some_m) = Trail-quote_path some_in trail in
      (
        quote_path_longer quote steps (step_of p m n) amount_in m.amount quoted some_m ∙ sym amount,
        given,
      )

  pub Trail-IsChain :
      {nodes : List BfsNode} {i : ℕ} {n : BfsNode} {steps : List RouteStep}
      → Trail nodes i n steps
      → IsChain token_in steps n.token
  Trail-IsChain (root i n at top amount token) = sym token
  Trail-IsChain (hop {j} {m} {steps} i n p trail at parent before pool amount given) =
      IsChain-append token_in m.token n.token steps (step_of p m n) (Trail-IsChain trail) refl refl

  pub backtrack-Trail :
      {nodes : List BfsNode} {i : ℕ} {n : BfsNode} {steps : List RouteStep} (fuel : ℕ)
      (after : List RouteStep)
      → i < fuel
      → Trail nodes i n steps
      → backtrack pools nodes fuel i after ≡ some (steps ++ after)
  unfolding backtrack
  backtrack-Trail zero after enough trail = absurd (omega arith)
  backtrack-Trail (suc fuel) after enough (root i n at top amount token) = rw (at, top) refl
  backtrack-Trail (suc fuel) after enough
        (hop {j} {m} {steps} i n p trail at parent before pool amount given) =
      rw (at, parent, Trail-at trail, pool)
        (backtrack-Trail fuel (step_of p m n ∷ after) (omega arith) trail
          ∙ ap some (sym (append_assoc steps (step_of p m n ∷ []) after)))
