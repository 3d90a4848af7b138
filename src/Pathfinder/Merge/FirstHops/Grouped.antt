-- ===== src/Pathfinder/Merge/FirstHops/Grouped.antt =====
-- pathfinder/merge.go: what the branches and groups of mergeFirstHops hold.
use defi_toolbox_avalanche.Common.{
  ℕ, ◌+◌, ◌≡◌, refl, true, List, [], ◌∷◌, ◌++◌, ◌==◌, arith, Bool-cases, inl, inr,
}
use defi_toolbox_avalanche.Pathfinder.Route.{RouteStep, Leg, same_key, same_key_self}
use defi_toolbox_avalanche.Pathfinder.Merge.Trie.{at_key}
use defi_toolbox_avalanche.Pathfinder.Merge.Entering.{entering}
use defi_toolbox_avalanche.Pathfinder.Merge.FirstHops.{
  Branch, BranchGroup, until_explicit, split_branches, add_branch, group_branches,
}

-- What the heads of the branches put into the pool of `k`.
unfoldable pub heads : RouteStep → List Branch → ℕ
heads k [] = 0
heads k (b ∷ branches) = at_key k b.head.step b.head.amount + heads k branches

unfoldable pub group_heads : RouteStep → List BranchGroup → ℕ
group_heads k [] = 0
group_heads k (g ∷ groups) = heads k g.branches + group_heads k groups

-- The legs after an explicit one take the router's balance.
abbrev pub AllBalance : List Leg → Type 0
AllBalance [] = Unit
AllBalance (leg ∷ legs) = (leg.amount ≡ 0) × AllBalance legs

abbrev pub BranchesOf : RouteStep → List Branch → Type 0
BranchesOf step [] = Unit
BranchesOf step (b ∷ branches) =
    ((same_key b.head.step step ≡ true) × AllBalance b.tail) × BranchesOf step branches

abbrev pub AllGroups : List BranchGroup → Type 0
AllGroups [] = Unit
AllGroups (g ∷ groups) = BranchesOf g.step g.branches × AllGroups groups

abbrev pub AllTails : List Branch → Type 0
AllTails [] = Unit
AllTails (b ∷ branches) = AllBalance b.tail × AllTails branches

until_explicit-AllBalance : (legs : List Leg) → AllBalance (until_explicit legs)
unfolding until_explicit
until_explicit-AllBalance [] = tt
until_explicit-AllBalance (leg ∷ legs) = elim (Bool-cases (leg.amount == 0)) [
  | inl zero_amount ↦ rw zero_amount (ground arith, until_explicit-AllBalance legs)
  | inr given ↦ rw given tt
]

pub split_branches-AllTails : (legs : List Leg) → AllTails (split_branches legs)
unfolding split_branches
split_branches-AllTails [] = tt
split_branches-AllTails (leg ∷ legs) = elim (Bool-cases (leg.amount == 0)) [
  | inl zero_amount ↦ rw zero_amount (split_branches-AllTails legs)
  | inr given ↦ rw given (until_explicit-AllBalance legs, split_branches-AllTails legs)
]

at_key_none :
    (k : RouteStep) (leg : Leg) → (leg.amount == 0) ≡ true → at_key k leg.step leg.amount ≡ 0
at_key_none k leg h = let none_given : leg.amount ≡ 0 = ground arith in rw none_given (ground arith)

pub heads-split_branches :
    (k : RouteStep) (legs : List Leg) → heads k (split_branches legs) ≡ entering k legs
unfolding split_branches heads entering
heads-split_branches k [] = refl
heads-split_branches k (leg ∷ legs) = elim (Bool-cases (leg.amount == 0)) [
  | inl zero_amount ↦
      rw zero_amount (omega (arith, at_key_none k leg zero_amount, heads-split_branches k legs))
  | inr given ↦ rw given (omega (arith, heads-split_branches k legs))
]

snoc_heads :
    (k : RouteStep) (b : Branch) (bs : List Branch)
    → heads k (bs ++ (b ∷ [])) ≡ heads k bs + at_key k b.head.step b.head.amount
unfolding heads
snoc_heads k b [] = omega arith
snoc_heads k b (c ∷ bs) = omega (arith, snoc_heads k b bs)

snoc-BranchesOf :
    (step : RouteStep) (b : Branch) (bs : List Branch)
    → same_key b.head.step step ≡ true
    → AllBalance b.tail
    → BranchesOf step bs
    → BranchesOf step (bs ++ (b ∷ []))
snoc-BranchesOf step b [] same tail all = ((same, tail), tt)
snoc-BranchesOf step b (c ∷ bs) same tail all = (all.0, snoc-BranchesOf step b bs same tail all.1)

add_branch_heads :
    (k : RouteStep) (b : Branch) (groups : List BranchGroup)
    → group_heads k (add_branch b groups)
      ≡ at_key k b.head.step b.head.amount + group_heads k groups
unfolding add_branch group_heads heads
add_branch_heads k b [] = omega arith
add_branch_heads k b (g ∷ groups) = elim (Bool-cases (same_key b.head.step g.step)) [
  | inl same ↦ rw same (omega (arith, snoc_heads k b g.branches))
  | inr other ↦ rw other (omega (arith, add_branch_heads k b groups))
]

add_branch-AllGroups :
    (b : Branch) (groups : List BranchGroup)
    → AllBalance b.tail
    → AllGroups groups
    → AllGroups (add_branch b groups)
unfolding add_branch
add_branch-AllGroups b [] tail all = (((same_key_self b.head.step, tail), tt), tt)
add_branch-AllGroups b (g ∷ groups) tail all = elim (Bool-cases (same_key b.head.step g.step)) [
  | inl same ↦ rw same (snoc-BranchesOf g.step b g.branches same tail all.0, all.1)
  | inr other ↦ rw other (all.0, add_branch-AllGroups b groups tail all.1)
]

pub group_branches-heads :
    (k : RouteStep) (bs : List Branch) (groups : List BranchGroup)
    → group_heads k (group_branches bs groups) ≡ heads k bs + group_heads k groups
unfolding group_branches heads
group_branches-heads k [] groups = omega arith
group_branches-heads k (b ∷ bs) groups =
    omega (arith, group_branches-heads k bs (add_branch b groups), add_branch_heads k b groups)

pub group_branches-AllGroups :
    (bs : List Branch) (groups : List BranchGroup)
    → AllTails bs
    → AllGroups groups
    → AllGroups (group_branches bs groups)
unfolding group_branches
group_branches-AllGroups [] groups tails all = all
group_branches-AllGroups (b ∷ bs) groups tails all =
    group_branches-AllGroups bs (add_branch b groups) tails.1
      (add_branch-AllGroups b groups tails.0 all)
