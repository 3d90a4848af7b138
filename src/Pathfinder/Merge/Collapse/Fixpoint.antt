-- ===== src/Pathfinder/Merge/Collapse/Fixpoint.antt =====
-- pathfinder/merge.go: the rounds of collapseDuplicates and the legs that they end with.
use mathlib.Core.Path.{subst}
use mathlib.Core.List.{append_assoc, append-nil}
use defi_toolbox_avalanche.Common.{
  ℕ, zero, suc, ◌≤◌, ◌≡◌, refl, sym, true, false, Option, none, some, List, [], ◌∷◌, ◌++◌, arith,
  ltb, length, length-append, if◌then◌else◌, Bool-cases, Option-cases, inl, inr,
}
use defi_toolbox_avalanche.Uint256.{Uint256, IsUint256}
use defi_toolbox_avalanche.Pathfinder.Route.{RouteStep, Leg, same_key, same_key_congruent}
use defi_toolbox_avalanche.Pathfinder.Merge.Entering.{
  entering, entering-append, Same, at_key_merged,
}
use defi_toolbox_avalanche.Pathfinder.Merge.Collapse.{
  is_explicit, mergeable, merged, find_duplicate, keep_first, or_later, collapse_once,
  collapse_loop, collapse_duplicates,
}

-- No two explicit legs with the same key are safe to merge.
abbrev pub IsCollapsed : List Leg → Type 0
IsCollapsed legs =
    (before : List Leg) (i : Leg) (between : List Leg) (j : Leg) (after : List Leg)
    → legs ≡ before ++ (i ∷ (between ++ (j ∷ after)))
    → is_explicit i ≡ true
    → mergeable i between j ≡ false

module _ (u : Uint256) (h : IsUint256 u) where
  -- One leg fewer, and the same words enter every pool.
  abbrev Shrinks : List Leg → List Leg → Type 0
  Shrinks out legs =
      (suc (length out) ≡ length legs) × ((k : RouteStep) → Same (entering k out) (entering k legs))

  merged-entering :
      (k : RouteStep) (i j : Leg) (between rest : List Leg)
      → same_key j.step i.step ≡ true
      → Same
          (entering k (merged u i j ∷ (between ++ rest)))
          (entering k (i ∷ (between ++ (j ∷ rest))))
  unfolding entering
  merged-entering k i j between rest same =
      let keys = same_key_congruent k j.step i.step same in
      omega (
        arith,
        at_key_merged k i.step j.step i.amount j.amount (u.add i.amount j.amount) keys
            (h.add_lem i.amount j.amount),
        entering-append k between rest,
        entering-append k between (j ∷ rest),
      )

  find_duplicate-Shrinks :
      (i : Leg) (rest between out : List Leg)
      → find_duplicate u i between rest ≡ some out
      → Shrinks out (i ∷ (between ++ rest))
  unfolding find_duplicate
  find_duplicate-Shrinks i [] between out found = ground arith
  find_duplicate-Shrinks i (j ∷ rest) between out found =
      elim (Bool-cases (mergeable i between j)) [
        | inl now ↦
            let same : same_key j.step i.step ≡ true = ground arith in
            let first : some (merged u i j ∷ (between ++ rest)) ≡ some out = rw now at found in
            let eq : merged u i j ∷ (between ++ rest) ≡ out = ground arith in
            rw (← eq) (
              omega (arith, length-append between rest, length-append between (j ∷ rest)),
              λ k. merged-entering k i j between rest same,
            )
        | inr later ↦
            subst (λ legs. Shrinks out (i ∷ legs)) (append_assoc between (j ∷ []) rest)
              (find_duplicate-Shrinks i rest (between ++ (j ∷ [])) out (rw later at found))
      ]

  cons-Shrinks : (i : Leg) (out legs : List Leg) → Shrinks out legs → Shrinks (i ∷ out) (i ∷ legs)
  unfolding entering
  cons-Shrinks i out legs (fewer, same) = (omega arith, λ k. omega (arith, same k))

  find_first-Shrinks :
      (i : Leg) (rest out : List Leg)
      → (if is_explicit i then find_duplicate u i [] rest else none) ≡ some out
      → Shrinks out (i ∷ rest)
  find_first-Shrinks i rest out found = elim (Bool-cases (is_explicit i)) [
    | inl given ↦ find_duplicate-Shrinks i rest [] out (rw given at found)
    | inr balance ↦ let nothing : none ≡ some out = rw balance at found in ground arith
  ]

  or_later-Shrinks :
      (i : Leg) (rest out : List Leg) (tried later : Option (List Leg))
      → ((legs : List Leg) → tried ≡ some legs → Shrinks legs (i ∷ rest))
      → ((legs : List Leg) → later ≡ some legs → Shrinks legs rest)
      → or_later u tried (keep_first u i later) ≡ some out
      → Shrinks out (i ∷ rest)
  or_later-Shrinks i rest out (some legs) later first second found =
      let eq : legs ≡ out = ground arith in rw (← eq) (first legs refl)
  or_later-Shrinks i rest out none (some legs) first second found =
      let eq : i ∷ legs ≡ out = ground arith in
      rw (← eq) (cons-Shrinks i legs rest (second legs refl))
  or_later-Shrinks i rest out none none first second found = ground arith

  collapse_once-Shrinks : (legs out : List Leg) → collapse_once u legs ≡ some out → Shrinks out legs
  unfolding collapse_once
  collapse_once-Shrinks [] out found = ground arith
  collapse_once-Shrinks (i ∷ rest) out found =
      or_later-Shrinks i rest out (if is_explicit i then find_duplicate u i [] rest else none)
        (collapse_once u rest) (find_first-Shrinks i rest) (collapse_once-Shrinks rest) found

  -- Fuel for one round per leg is enough.
  collapse_loop_total :
      (fuel : ℕ) (legs : List Leg)
      → length legs ≤ fuel
      → (out : List Leg) × (collapse_loop u (suc fuel) legs ≡ some out)
        × (collapse_once u out ≡ none)
        × (length out ≤ length legs)
        × ((k : RouteStep) → Same (entering k out) (entering k legs))
  unfolding collapse_loop collapse_once
  collapse_loop_total zero [] enough = ([], refl, refl, omega arith, λ k. refl)
  collapse_loop_total zero (_ ∷ _) enough = ground arith
  collapse_loop_total (suc fuel) legs enough = elim (Option-cases (collapse_once u legs)) [
    | inl stable ↦ (legs, rw stable, stable, omega arith, λ k. refl)
    | inr (legs', found) ↦
        let (fewer, same) = collapse_once-Shrinks legs legs' found in
        let (out, ends, stable, short, kept) = collapse_loop_total fuel legs' (omega arith) in
        (out, rw found ends, stable, omega arith, λ k. omega (arith, kept k, same k))
  ]

  first_only :
      (i : Leg) (tried later : Option (List Leg))
      → or_later u tried (keep_first u i later) ≡ none
      → (tried ≡ none) × (later ≡ none)
  first_only i none none stable = (refl, refl)
  first_only i none (some legs) stable = ground arith
  first_only i (some legs) later stable = ground arith

  find_duplicate-none :
      (i j : Leg) (between after passed : List Leg)
      → find_duplicate u i passed (between ++ (j ∷ after)) ≡ none
      → mergeable i (passed ++ between) j ≡ false
  unfolding find_duplicate
  find_duplicate-none i j [] after passed stable = elim (Bool-cases (mergeable i passed j)) [
    | inl now ↦ let merges = rw now at stable in ground arith
    | inr later ↦ subst (λ ks. mergeable i ks j ≡ false) (sym (append-nil passed)) later
  ]
  find_duplicate-none i j (b ∷ between) after passed stable =
      elim (Bool-cases (mergeable i passed b)) [
        | inl now ↦ let merges = rw now at stable in ground arith
        | inr later ↦
            subst (λ ks. mergeable i ks j ≡ false) (append_assoc passed (b ∷ []) between)
              (find_duplicate-none i j between after (passed ++ (b ∷ [])) (rw later at stable))
      ]

  -- Where one round changes nothing, no two explicit legs with the same key are safe to merge.
  pub collapse_once-none :
      (before : List Leg) (i : Leg) (between : List Leg) (j : Leg) (after : List Leg)
      → collapse_once u (before ++ (i ∷ (between ++ (j ∷ after)))) ≡ none
      → is_explicit i ≡ true
      → mergeable i between j ≡ false
  unfolding collapse_once
  collapse_once-none [] i between j after stable given =
      let legs = between ++ (j ∷ after) in
      let (nothing, _) =
        first_only i (if is_explicit i then find_duplicate u i [] legs else none)
          (collapse_once u legs) stable in
      find_duplicate-none i j between after [] (rw given at nothing)
  collapse_once-none (b ∷ before) i between j after stable given =
      let legs = before ++ (i ∷ (between ++ (j ∷ after))) in
      let (_, nothing) =
        first_only b (if is_explicit b then find_duplicate u b [] legs else none)
          (collapse_once u legs) stable in
      collapse_once-none before i between j after nothing given

  short_stable : (legs : List Leg) → ltb (length legs) 2 ≡ true → collapse_once u legs ≡ none
  unfolding collapse_once find_duplicate
  short_stable [] short = refl
  short_stable (i ∷ []) short = ground arith
  short_stable (i ∷ j ∷ legs) short = absurd (ground arith)

  -- collapseDuplicates ends with fuel for one round per leg and a last one. What enters each pool
  -- from outside is unchanged modulo 2^256, no leg is added, and no two explicit legs of the
  -- result with the same key are safe to merge.
  pub collapse_duplicates_lem :
      (legs : List Leg)
      → (out : List Leg) × (collapse_duplicates u legs ≡ some out)
        × ((k : RouteStep) → Same (entering k out) (entering k legs))
        × (length out ≤ length legs)
        × IsCollapsed out
  unfolding collapse_duplicates
  collapse_duplicates_lem legs = elim (Bool-cases (ltb (length legs) 2)) [
    | inl short ↦ (
      legs,
      rw short,
      λ k. refl,
      omega arith,
      λ before i between j after eq.
          collapse_once-none before i between j after (rw eq at (short_stable legs short)),
    )
    | inr long ↦
        let (out, ends, stable, fewer, same) =
          collapse_loop_total (length legs) legs (omega arith) in
        (
          out,
          rw long ends,
          same,
          fewer,
          λ before i between j after eq.
              collapse_once-none before i between j after (rw eq at stable),
        )
  ]
