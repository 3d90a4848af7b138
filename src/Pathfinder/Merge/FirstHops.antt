-- ===== src/Pathfinder/Merge/FirstHops.antt =====
-- pathfinder/merge.go, mergeFirstHops: branches that start with the same call share it. The quoter,
-- which estimates the output of that call, is an argument.
pub mod Grouped
pub mod Quoted
use defi_toolbox_avalanche.Common.{
  ℕ, Bool, true, false, not, ◌&&◌, ◌||◌, List, [], ◌∷◌, ◌++◌, ◌==◌, ltb, length, if◌then◌else◌,
}
use defi_toolbox_avalanche.Uint256.{Uint256}
use defi_toolbox_avalanche.Pathfinder.Route.{RouteStep, Leg, same_key}

abbrev pub Quoter : Type 0
Quoter = RouteStep → ℕ → ℕ

-- `branch`: the legs from `startIdx` to `endIdx`, the first apart.
pub record Branch : Type 0 where
  pub head : Leg
  pub tail : List Leg

-- `branchGroup`: its key is that of `step`.
pub record BranchGroup : Type 0 where
  pub step : RouteStep
  pub branches : List Branch

-- The legs up to the next explicit one.
unfoldable pub until_explicit : List Leg → List Leg
until_explicit [] = []
until_explicit (leg ∷ legs) =
    let more = until_explicit legs in if leg.amount == 0 then leg ∷ more else []

-- A branch starts at each explicit leg.
unfoldable pub split_branches : List Leg → List Branch
split_branches [] = []
split_branches (leg ∷ legs) =
    let more = split_branches legs in
    if leg.amount == 0 then more else record { head = leg; tail = until_explicit legs } ∷ more

-- `groupMap` in the order of `groupOrder`.
unfoldable pub add_branch : Branch → List BranchGroup → List BranchGroup
add_branch b [] = record { step = b.head.step; branches = b ∷ [] } ∷ []
add_branch b (g ∷ groups) =
    let later = add_branch b groups in
    if same_key b.head.step g.step
    then record { step = g.step; branches = g.branches ++ (b ∷ []) } ∷ groups
    else g ∷ later

unfoldable pub group_branches : List Branch → List BranchGroup → List BranchGroup
group_branches [] groups = groups
group_branches (b ∷ branches) groups = group_branches branches (add_branch b groups)

-- Every branch of the list has more than one step.
abbrev pub all_multi_step : List Branch → Bool
all_multi_step [] = true
all_multi_step (b ∷ branches) = ltb 0 (length b.tail) && all_multi_step branches

abbrev pub can_merge : BranchGroup → Bool
can_merge g = ltb 1 (length g.branches) && all_multi_step g.branches

unfoldable pub any_mergeable : List BranchGroup → Bool
any_mergeable [] = false
any_mergeable (g ∷ groups) = can_merge g || any_mergeable groups

-- A group that is emitted as it is.
unfoldable pub emit_branches : List Branch → List Leg
emit_branches [] = []
emit_branches (b ∷ branches) = b.head ∷ (b.tail ++ emit_branches branches)

module _ (u : Uint256) (quoter : Quoter) where
  unfoldable pub total_volume : ℕ → List Branch → ℕ
  total_volume total [] = total
  total_volume total (b ∷ branches) = total_volume (u.add total b.head.amount) branches

  -- A tail, whose first step gets what the quoter estimates.
  abbrev pub quoted_tail : RouteStep → ℕ → List Leg → List Leg
  quoted_tail step volume [] = []
  quoted_tail step volume (leg ∷ legs) =
      record { step = leg.step; amount = quoter step volume } ∷ legs

  unfoldable pub emit_tails : RouteStep → List Branch → List Leg
  emit_tails step [] = []
  emit_tails step (b ∷ branches) = quoted_tail step b.head.amount b.tail ++ emit_tails step branches

  unfoldable pub emit_group : BranchGroup → List Leg
  emit_group g =
      if can_merge g
      then record { step = g.step; amount = total_volume 0 g.branches }
        ∷ emit_tails g.step g.branches
      else emit_branches g.branches

  unfoldable pub emit_groups : List BranchGroup → List Leg
  emit_groups [] = []
  emit_groups (g ∷ groups) = emit_group g ++ emit_groups groups

  unfoldable pub merge_first_hops : List Leg → List Leg
  merge_first_hops legs =
      let branches = split_branches legs in
      let groups = group_branches branches [] in
      if ltb (length branches) 2
      then legs
      else if any_mergeable groups
      then emit_groups groups
      else legs
