-- ===== src/Pathfinder/Merge/FirstHops/Quoted.antt =====
-- pathfinder/merge.go: what mergeFirstHops puts into each pool, with the estimates of the quoter.
use defi_toolbox_avalanche.Common.{
  ℕ, ◌+◌, ◌≡◌, refl, true, false, List, [], ◌∷◌, arith, ltb, length, if◌then◌else◌, Bool-cases, inl,
  inr,
}
use defi_toolbox_avalanche.Uint256.{Uint256, IsUint256}
use defi_toolbox_avalanche.Pathfinder.Route.{RouteStep, Leg, same_key_congruent}
use defi_toolbox_avalanche.Pathfinder.Merge.Trie.{at_key, at_key_zero}
use defi_toolbox_avalanche.Pathfinder.Merge.Entering.{
  entering, entering-append, Same, at_key_merged,
}
use defi_toolbox_avalanche.Pathfinder.Merge.FirstHops.{
  Quoter, Branch, BranchGroup, split_branches, group_branches, add_branch, can_merge, any_mergeable,
  emit_branches, total_volume, quoted_tail, emit_tails, emit_group, emit_groups, merge_first_hops,
}
use defi_toolbox_avalanche.Pathfinder.Merge.FirstHops.Grouped.{
  heads, group_heads, AllBalance, BranchesOf, AllGroups, heads-split_branches, group_branches-heads,
  split_branches-AllTails, group_branches-AllGroups,
}

balance_entering : (k : RouteStep) (legs : List Leg) → AllBalance legs → entering k legs ≡ 0
unfolding entering
balance_entering k [] all = refl
balance_entering k (leg ∷ legs) (none_given, all) =
    rw none_given (ground (arith, balance_entering k legs all))

entering-emit_branches :
    (k step : RouteStep) (bs : List Branch)
    → BranchesOf step bs
    → entering k (emit_branches bs) ≡ heads k bs
unfolding emit_branches entering heads
entering-emit_branches k step [] all = refl
entering-emit_branches k step (b ∷ bs) ((same, tail), all) = omega (
  arith,
  entering-append k b.tail (emit_branches bs),
  balance_entering k b.tail tail,
  entering-emit_branches k step bs all,
)

module _ (quoter : Quoter) where
  -- What the quoter estimates for the first step of a tail.
  abbrev tail_quote : RouteStep → RouteStep → ℕ → List Leg → ℕ
  tail_quote k step volume [] = 0
  tail_quote k step volume (leg ∷ _) = at_key k leg.step (quoter step volume)

  abbrev tails_quoted : RouteStep → RouteStep → List Branch → ℕ
  tails_quoted k step [] = 0
  tails_quoted k step (b ∷ bs) = tail_quote k step b.head.amount b.tail + tails_quoted k step bs

  abbrev groups_quoted : RouteStep → List BranchGroup → ℕ
  groups_quoted k [] = 0
  groups_quoted k (g ∷ groups) =
      (if can_merge g then tails_quoted k g.step g.branches else 0) + groups_quoted k groups

  -- The estimates that enter the pool of `k`, over the groups that merge.
  abbrev pub quoted : RouteStep → List Leg → ℕ
  quoted k legs = groups_quoted k (group_branches (split_branches legs) [])

  few_quoted :
      (k : RouteStep) (bs : List Branch)
      → ltb (length bs) 2 ≡ true
      → groups_quoted k (group_branches bs []) ≡ 0
  unfolding group_branches add_branch
  few_quoted k [] few = refl
  few_quoted k (b ∷ []) few = refl
  few_quoted k (b ∷ c ∷ bs) few = absurd (ground arith)

  none_quoted :
      (k : RouteStep) (groups : List BranchGroup)
      → any_mergeable groups ≡ false
      → groups_quoted k groups ≡ 0
  unfolding any_mergeable
  none_quoted k [] none_merge = refl
  none_quoted k (g ∷ groups) none_merge = elim (Bool-cases (can_merge g)) [
    | inl merges ↦ let clash = rw merges at none_merge in ground arith
    | inr stays ↦ rw stays (omega (arith, none_quoted k groups (rw stays at none_merge)))
  ]

module _ (u : Uint256) (h : IsUint256 u) (quoter : Quoter) where
  tail_entering :
      (k step : RouteStep) (volume : ℕ) (tail : List Leg)
      → AllBalance tail
      → entering k (quoted_tail u quoter step volume tail) ≡ tail_quote quoter k step volume tail
  unfolding entering
  tail_entering k step volume [] all = refl
  tail_entering k step volume (leg ∷ legs) all = omega (arith, balance_entering k legs all.1)

  entering-emit_tails :
      (k step : RouteStep) (bs : List Branch)
      → BranchesOf step bs
      → entering k (emit_tails u quoter step bs) ≡ tails_quoted quoter k step bs
  unfolding emit_tails entering
  entering-emit_tails k step [] all = refl
  entering-emit_tails k step (b ∷ bs) all = omega (
    arith,
    entering-append k (quoted_tail u quoter step b.head.amount b.tail)
        (emit_tails u quoter step bs),
    tail_entering k step b.head.amount b.tail all.0.1,
    entering-emit_tails k step bs all.1,
  )

  total_volume-heads :
      (k step : RouteStep) (total : ℕ) (bs : List Branch)
      → BranchesOf step bs
      → Same (at_key k step (total_volume u quoter total bs)) (at_key k step total + heads k bs)
  unfolding total_volume heads
  total_volume-heads k step total [] all = omega arith
  total_volume-heads k step total (b ∷ bs) all =
      let keys = same_key_congruent k b.head.step step all.0.0 in
      omega (
        arith,
        total_volume-heads k step (u.add total b.head.amount) bs all.1,
        at_key_merged k step b.head.step total b.head.amount (u.add total b.head.amount) keys
            (h.add_lem total b.head.amount),
      )

  emit_group-entering :
      (k : RouteStep) (g : BranchGroup)
      → BranchesOf g.step g.branches
      → Same (entering k (emit_group u quoter g)) (
          heads k g.branches + (if can_merge g then tails_quoted quoter k g.step g.branches else 0))
  unfolding emit_group entering
  emit_group-entering k g all = elim (Bool-cases (can_merge g)) [
    | inl merges ↦ rw merges (
        omega (
          arith,
          total_volume-heads k g.step 0 g.branches all,
          at_key_zero k g.step,
          entering-emit_tails k g.step g.branches all,
        ))
    | inr stays ↦ rw stays (omega (arith, entering-emit_branches k g.step g.branches all))
  ]

  emit_groups-entering :
      (k : RouteStep) (groups : List BranchGroup)
      → AllGroups groups
      → Same
          (entering k (emit_groups u quoter groups))
          (group_heads k groups + groups_quoted quoter k groups)
  unfolding emit_groups group_heads entering
  emit_groups-entering k [] all = refl
  emit_groups-entering k (g ∷ groups) all = omega (
    arith,
    entering-append k (emit_group u quoter g) (emit_groups u quoter groups),
    emit_group-entering k g all.0,
    emit_groups-entering k groups all.1,
  )

  -- After mergeFirstHops, what enters each pool from outside is what entered it before and the
  -- quoter's estimates for every tail, the last of a group included, of the groups that merge,
  -- modulo 2^256.
  pub merge_first_hops-entering :
      (k : RouteStep) (legs : List Leg)
      → Same (entering k (merge_first_hops u quoter legs)) (entering k legs + quoted quoter k legs)
  unfolding merge_first_hops group_heads
  merge_first_hops-entering k legs =
      let branches = split_branches legs in
      let groups = group_branches branches [] in
      elim (Bool-cases (ltb (length branches) 2)) [
        | inl few ↦ rw few (omega (arith, few_quoted quoter k branches few))
        | inr many ↦ elim (Bool-cases (any_mergeable groups)) [
          | inl some_merge ↦
              rw (many, some_merge)
                (omega (
                  arith,
                  emit_groups-entering k groups
                      (group_branches-AllGroups branches [] (split_branches-AllTails legs) tt),
                  group_branches-heads k branches [],
                  heads-split_branches k legs,
                ))
          | inr none_merge ↦
              rw (many, none_merge) (omega (arith, none_quoted quoter k groups none_merge))
        ]
      ]
