-- ===== src/Pathfinder/QuotePath.antt =====
-- pathfinder/bfs.go, QuotePath: the quotes of the pools along a path, chained. The quote of one pool
-- is an argument.
use defi_toolbox_avalanche.Common.{
  ℕ, ◌≡◌, List, [], ◌∷◌, ◌++◌, ◌==◌, if◌then◌else◌, arith, Bool-cases, inl, inr,
}
use defi_toolbox_avalanche.Pathfinder.Route.{RouteStep}

-- `pm.Quote(pool, amountIn, tokenIn, tokenOut)`
abbrev pub PoolQuote : Type 0
PoolQuote = ℕ → ℕ → ℕ → ℕ → ℕ

module _ (quote : PoolQuote) where
  unfoldable pub quote_path : List RouteStep → ℕ → ℕ
  quote_path [] current = current
  quote_path (s ∷ steps) current =
      let out = quote s.pool current s.token_in s.token_out in
      let rest = quote_path steps out in if out == 0 then out else rest

  -- QuotePath along a path with a step, continued by another, is zero where the first is quoted
  -- zero, and otherwise the quote along the second of what the first pays.
  pub quote_path-append :
      (s : RouteStep) (xs ys : List RouteStep) (amount : ℕ)
      → quote_path ((s ∷ xs) ++ ys) amount ≡ (
          if quote_path (s ∷ xs) amount == 0 then 0 else quote_path ys (quote_path (s ∷ xs) amount))
  unfolding quote_path
  quote_path-append s [] ys amount =
      elim (Bool-cases (quote s.pool amount s.token_in s.token_out == 0)) [
        | inl nothing ↦ rw nothing (ground arith)
        | inr given ↦ rw (given, given)
      ]
  quote_path-append s (x ∷ xs) ys amount =
      let out = quote s.pool amount s.token_in s.token_out in
      elim (Bool-cases (out == 0)) [
        | inl nothing ↦ rw nothing (ground arith)
        | inr given ↦ rw given (quote_path-append x xs ys out)
      ]
