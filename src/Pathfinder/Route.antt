-- ===== src/Pathfinder/Route.antt =====
-- pathfinder/bfs.go and pathfinder/encode.go: a swap step, and one leg of a multi-route swap. An
-- address is a number.
use defi_toolbox_avalanche.Common.{ℕ, ◌≡◌, Bool, true, ◌&&◌, List, ◌==◌, arith}

pub record RouteStep : Type 0 where
  pub pool : ℕ
  pub pool_type : ℕ
  pub token_in : ℕ
  pub token_out : ℕ
  pub extra_data : List ℕ

pub record SquishRoute : Type 0 where
  pub steps : List RouteStep
  pub volume : ℕ

-- One entry of the parallel slices `steps` and `amounts`, which every function appends to together.
pub record Leg : Type 0 where
  pub step : RouteStep
  pub amount : ℕ

-- `stepMergeKey(a) == stepMergeKey(b)`: three addresses of 20 bytes each.
unfoldable pub same_key : RouteStep → RouteStep → Bool
same_key a b = (a.pool == b.pool) && (a.token_in == b.token_in) && (a.token_out == b.token_out)

pub same_key_self : (a : RouteStep) → same_key a a ≡ true
unfolding same_key
same_key_self a = ground arith

-- Steps with the same key are told apart from no other.
pub same_key_congruent : (k a b : RouteStep) → same_key a b ≡ true → same_key k a ≡ same_key k b
unfolding same_key
same_key_congruent k a b h =
    let (pools, ins, outs) : (a.pool ≡ b.pool)
        × (a.token_in ≡ b.token_in)
        × (a.token_out ≡ b.token_out) =
      ground arith in
    rw (pools, ins, outs)
