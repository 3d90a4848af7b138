-- ===== src/Pathfinder/Splitter/Allocate/Rounds.antt =====
-- pathfinder/splitter/optimized2.go, AllocateAcrossPaths: the end of the loop, and the volumes and
-- outputs of the legs.
use mathlib.Core.Path.{subst}
use defi_toolbox_avalanche.Common.{
  ap, sym, All, All-map, ℕ, zero, suc, ◌+◌, ◌-◌, ◌^◌, ◌≤◌, ◌<◌, ◌≡◌, ◌⊎◌, refl, Bool, true, false,
  not, Option, none, some, List, [], ◌∷◌, ◌==◌, ltb, arith, length, map, if◌then◌else◌, Bool-cases,
  Option-cases, inl, inr,
}
use defi_toolbox_avalanche.Uint256.{Uint256, IsUint256, word}
use defi_toolbox_avalanche.Pathfinder.Route.{RouteStep}
use defi_toolbox_avalanche.Pathfinder.QuotePath.{PoolQuote, quote_path}
use defi_toolbox_avalanche.Pathfinder.Splitter.{
  Dirty, Swapped, Market, SplitLeg, SplitResult, append_leg,
}
use defi_toolbox_avalanche.Pathfinder.Splitter.Dynamic.{clip, bad_output, some_legs}
use defi_toolbox_avalanche.Pathfinder.Splitter.Dynamic.Legs.{AllGood, snoc-AllGood, clip-le}
use defi_toolbox_avalanche.Pathfinder.Splitter.Mixed.Rounds.{IsSplit, some_legs-IsSplit}
use defi_toolbox_avalanche.Pathfinder.Splitter.Allocate.{
  run_best, stops, continues, PathEntry, alive, BestPath, better, best_from, mark_dead, Allocation,
  dirty_quotes, allocate_leg, after_run, allocate_round, allocate_loop, allocate_start, stops,
  continues, allocate_across_paths,
}
use defi_toolbox_avalanche.Pathfinder.Splitter.Volumes.{Shares, append_leg-Shares, no_legs-Shares}

-- How many paths are not dead, and whether one is.
abbrev live : List PathEntry → ℕ
live [] = 0
live (e ∷ entries) = (if e.dead then 0 else 1) + live entries

abbrev live_at : ℕ → List PathEntry → Bool
live_at i [] = false
live_at zero (e ∷ entries) = not e.dead
live_at (suc i) (e ∷ entries) = live_at i entries

live-alive : (paths : List (List RouteStep)) → live (map alive paths) ≡ length paths
live-alive [] = refl
live-alive (p ∷ paths) = omega (arith, live-alive paths)

live-mark_dead :
    (i : ℕ) (entries : List PathEntry)
    → live_at i entries ≡ true
    → live (mark_dead i entries) + 1 ≡ live entries
unfolding mark_dead
live-mark_dead i [] h = ground arith
live-mark_dead zero (e ∷ entries) h = elim (Bool-cases e.dead) [
  | inl gone ↦ let clash = rw gone at h in ground arith
  | inr there ↦ rw there (omega arith)
]
live-mark_dead (suc i) (e ∷ entries) h = omega (arith, live-mark_dead i entries h)

abbrev HasStep : PathEntry → Type 0
HasStep e = 0 < length e.path

mark_dead-HasStep :
    (i : ℕ) (entries : List PathEntry) → All HasStep entries → All HasStep (mark_dead i entries)
unfolding mark_dead
mark_dead-HasStep i [] all = tt
mark_dead-HasStep zero (e ∷ entries) (step, all) = (step, all)
mark_dead-HasStep (suc i) (e ∷ entries) (step, all) = (step, mark_dead-HasStep i entries all)

better-idx :
    (i : ℕ) (path : List RouteStep) (out : ℕ) (best : Option BestPath) (b : BestPath)
    → better i path out best ≡ some b
    → (best ≡ some b) ⊎ ((b.idx ≡ i) × (b.path ≡ path))
better-idx i path out none b got = elim (Bool-cases (out == 0)) [
  | inl nothing ↦ let clash = rw nothing at got in ground arith
  | inr given ↦
      let same = rw given at got in
      let eq : record { idx = i; path = path; out = out } ≡ b = cc in
      inr (ap (λ (z : BestPath). z.idx) (sym eq), ap (λ (z : BestPath). z.path) (sym eq))
]
better-idx i path out (some best) b got = elim (Bool-cases (out == 0)) [
  | inl nothing ↦ inl (rw nothing at got)
  | inr given ↦ elim (Bool-cases (ltb best.out out)) [
    | inl more ↦
        let same = rw (given, more) at got in
        let eq : record { idx = i; path = path; out = out } ≡ b = cc in
        inr (ap (λ (z : BestPath). z.idx) (sym eq), ap (λ (z : BestPath). z.path) (sym eq))
    | inr less ↦ inl (rw (given, less) at got)
  ]
]

module _ (quote : PoolQuote) (vol : ℕ) where
  -- The best path is the one before, or a live one, which has a step.
  best_from-live :
      (i : ℕ) (best : Option BestPath) (entries : List PathEntry) (b : BestPath)
      → All HasStep entries
      → best_from quote vol i best entries ≡ some b
      → (best ≡ some b)
        ⊎ ((j : ℕ) × (b.idx ≡ i + j) × (live_at j entries ≡ true) × (0 < length b.path))
  unfolding best_from
  best_from-live i best [] b steps got = inl got
  best_from-live i best (e ∷ entries) b (step, steps) got =
      let next = if e.dead then best else better i e.path (quote_path quote e.path vol) best in
      elim (best_from-live (i + 1) next entries b steps got) [
        | inr (j, at, live_j, has_step) ↦ inr (suc j, omega arith, live_j, has_step)
        | inl before ↦ elim (Bool-cases e.dead) [
          | inl gone ↦ inl (rw gone at before)
          | inr there ↦
              elim (better-idx i e.path (quote_path quote e.path vol) best b (rw there at before)) [
                | inl kept ↦ inl kept
                | inr (here, path) ↦ inr (0, omega arith, rw there refl, rw path step)
              ]
        ]
      ]

module _ (u : Uint256) (h : IsUint256 u) (market : Market) (quotes : Option Dirty → PoolQuote)
    (amount_in chunk_vol : ℕ) (hi : amount_in < word) (some_chunk : 0 < chunk_vol) where
  -- The legs so far, and that they fit into the input.
  record IsAllocating (s : Allocation) : Type 0 where
    count : ℕ
    shares : Shares s.routed count s.result
    within : s.routed ≤ amount_in
    good : AllGood s.result.legs
    stepped : All HasStep s.entries

  abbrev left_of : Allocation → ℕ
  left_of s = (amount_in - s.routed) + live s.entries

  abbrev Progress : Allocation → Allocation → Type 0
  Progress s s' = IsAllocating s' × (left_of s' < left_of s)

  kill-Progress :
      (s : Allocation) (best : BestPath)
      → IsAllocating s
      → live_at best.idx s.entries ≡ true
      → Progress s (record s { entries = mark_dead best.idx s.entries })
  kill-Progress s best allocating there = (
    record {
      count = allocating.count;
      shares = allocating.shares;
      within = allocating.within;
      good = allocating.good;
      stepped = mark_dead-HasStep best.idx s.entries allocating.stepped;
    },
    omega (arith, live-mark_dead best.idx s.entries there),
  )

  allocate_leg-Progress :
      (s : Allocation) (vol : ℕ) (best : BestPath) (swapped : Swapped)
      → IsAllocating s
      → vol ≤ amount_in - s.routed
      → 0 < vol
      → 0 < length best.path
      → bad_output swapped.output ≡ false
      → Progress s (allocate_leg u market quotes s vol best swapped)
  unfolding append_leg
  allocate_leg-Progress s vol best swapped allocating fits given has_step good =
      let leg : SplitLeg = record {
        steps = best.path;
        volume = vol;
        output = swapped.output;
        gas_used = swapped.gas_used;
      } in
      let sum : u.add s.routed vol ≡ s.routed + vol =
        omega (arith, allocating.within, h.add_lem s.routed vol) in
      let (positive, signed) : (0 < swapped.output) × (swapped.output < 2 ^ 255) = ground arith in
      (
        record {
          count = allocating.count + 1;
          shares =
              rw sum
                (append_leg-Shares u h s.routed allocating.count leg s.result allocating.shares);
          within = omega (arith, allocating.within);
          good = snoc-AllGood leg s.result.legs positive signed has_step allocating.good;
          stepped = allocating.stepped;
        },
        omega (arith, allocating.within),
      )

  after_run-Progress :
      (s : Allocation) (vol : ℕ) (best : BestPath) (swapped : Option Swapped)
      → IsAllocating s
      → vol ≤ amount_in - s.routed
      → 0 < vol
      → 0 < length best.path
      → live_at best.idx s.entries ≡ true
      → Progress s (after_run u market quotes s vol best swapped)
  after_run-Progress s vol best none allocating fits given has_step there =
      kill-Progress s best allocating there
  after_run-Progress s vol best (some swapped) allocating fits given has_step there =
      elim (Bool-cases (bad_output swapped.output)) [
        | inl bad ↦ rw bad (kill-Progress s best allocating there)
        | inr good ↦
            rw good (allocate_leg-Progress s vol best swapped allocating fits given has_step good)
      ]

  run_path :
      (s : Allocation) (vol : ℕ) (best : BestPath) (path : List RouteStep)
      → best.path ≡ path
      → 0 < length path
      → run_best u market quotes s vol best
        ≡ continues (after_run u market quotes s vol best (market.execute s.dirty path vol))
  run_path s vol best [] eq has_step = absurd (omega arith)
  run_path s vol best (step ∷ steps) eq has_step = rw eq refl

  run_best-continues :
      (s : Allocation) (vol : ℕ) (best : BestPath)
      → 0 < length best.path
      → run_best u market quotes s vol best
        ≡ continues (after_run u market quotes s vol best (market.execute s.dirty best.path vol))
  run_best-continues s vol best has_step = run_path s vol best best.path refl has_step

  -- A round breaks, or makes progress.
  allocate_round-Progress :
      (s : Allocation)
      → IsAllocating s
      → (allocate_round u market quotes amount_in chunk_vol s ≡ stops)
        ⊎ ((s' : Allocation) × (allocate_round u market quotes amount_in chunk_vol s ≡ continues s')
            × Progress s s')
  unfolding allocate_round
  allocate_round-Progress s allocating =
      let remaining = u.sub amount_in s.routed in
      let left : remaining ≡ amount_in - s.routed = omega (
        arith,
        allocating.within,
        h.sub_lem amount_in s.routed hi (omega (arith, allocating.within)),
      ) in
      let vol = clip chunk_vol remaining in
      elim (Bool-cases (remaining == 0)) [
        | inl finished ↦ rw finished (inl refl)
        | inr more ↦
            let given : 0 < vol = ground arith in
            let q = quotes (dirty_quotes s.dirty) in
            elim (Option-cases (best_from q vol 0 none s.entries)) [
              | inl missing ↦ rw (more, missing) (inl refl)
              | inr (best, found) ↦
                  elim (best_from-live q vol 0 none s.entries best allocating.stepped found) [
                    | inl before ↦ absurd (ground arith)
                    | inr (j, at, live_j, has_step) ↦
                        let same : j ≡ best.idx = omega arith in
                        let there : live_at best.idx s.entries ≡ true =
                          subst (λ k. live_at k s.entries ≡ true) same live_j in
                        rw (more, found)
                          (inr (
                            _,
                            run_best-continues s vol best has_step,
                            after_run-Progress s vol best (market.execute s.dirty best.path vol)
                                allocating (omega (arith, clip-le chunk_vol remaining)) given
                                has_step there,
                          ))
                  ]
            ]
      ]

  allocate_loop-ends :
      (n : ℕ) (s : Allocation)
      → IsAllocating s
      → left_of s < n
      → (t : Allocation) × (allocate_loop u market quotes n amount_in chunk_vol s ≡ some t)
        × IsAllocating t
  unfolding allocate_loop
  allocate_loop-ends zero s allocating fuel = absurd (omega arith)
  allocate_loop-ends (suc n) s allocating fuel = elim (allocate_round-Progress s allocating) [
    | inl stopped ↦ rw (allocate_loop, stopped) (s, refl, allocating)
    | inr (s', goes, (next, fewer)) ↦
        rw (allocate_loop, goes) (allocate_loop-ends n s' next (omega arith))
  ]

alive-HasStep :
    (paths : List (List RouteStep))
    → All (λ path. 0 < length path) paths
    → All HasStep (map alive paths)
alive-HasStep paths steps = All-map HasStep alive paths steps

-- For an input below 2^256, paths that each have a step and whatever the pools quote and the
-- market answers, AllocateAcrossPaths does not panic and ends: fuel for one round for each unit of
-- the input, one for each path and a last one is enough. Its result is nil, or has 1 leg or more
-- whose volumes add up to at most the input; each leg has a step and an output that is positive
-- and below 2^255, and the total is the sum of the outputs modulo 2^256.
pub allocate_across_paths-IsSplit :
    (u : Uint256) (h : IsUint256 u) (market : Market) (quotes : Option Dirty → PoolQuote)
    (amount_in : ℕ) (paths : List (List RouteStep))
    → amount_in < word
    → All (λ path. 0 < length path) paths
    → (o : Option SplitResult) × (allocate_across_paths u market quotes amount_in paths ≡ some o)
      × IsSplit amount_in o
unfolding allocate_across_paths
allocate_across_paths-IsSplit u h market quotes amount_in paths hi steps =
    let one_percent = u.div amount_in 100 in
    let chunk_vol = u.mul one_percent 2 in
    elim (Bool-cases (one_percent == 0)) [
      | inl nothing ↦ rw nothing (none, refl, tt)
      | inr given ↦ elim (Bool-cases (chunk_vol == 0)) [
        | inl wrapped ↦ rw (given, wrapped) (none, refl, tt)
        | inr some_chunk ↦
            let start = allocate_start u market quotes paths in
            let (t, ends, allocating) =
              allocate_loop-ends u h market quotes amount_in chunk_vol hi (ground arith)
                (amount_in + length paths + 1) start
                (record {
                  count = 0;
                  shares = no_legs-Shares 0;
                  within = omega arith;
                  good = tt;
                  stepped = alive-HasStep paths steps;
                })
                (omega (arith, live-alive paths)) in
            rw (given, some_chunk, ends)
              (
                some_legs t.result,
                refl,
                some_legs-IsSplit amount_in t.routed allocating.count t.result allocating.within
                    allocating.shares allocating.good,
              )
      ]
    ]
