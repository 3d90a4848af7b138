-- ===== src/Pathfinder/Splitter/Dynamic/Legs.antt =====
-- pathfinder/splitter/greedydynamic.go: the volumes and outputs of the legs.
use mathlib.Core.Path.{subst}
use defi_toolbox_avalanche.Common.{
  ℕ, zero, suc, ◌+◌, ◌-◌, ◌^◌, ◌≤◌, ◌<◌, ◌≡◌, refl, Bool, true, false, not, ◌&&◌, ◌||◌, Option,
  none, some, List, [], ◌∷◌, ◌++◌, ◌==◌, ltb, leb, if◌then◌else◌, arith, length, Bool-cases,
  Option-cases, inl, inr,
}
use defi_toolbox_avalanche.Uint256.{Uint256, IsUint256, word}
use defi_toolbox_avalanche.Formulas.MulDiv.{◌>>=◌}
use defi_toolbox_avalanche.Pathfinder.Splitter.{
  route_steps, Route, Swapped, Market, SplitLeg, SplitResult, append_leg,
}
use defi_toolbox_avalanche.Pathfinder.Splitter.Dynamic.{
  DynamicState, path_key, same_path, no_path, clip, with_volume, advance, bad_output, rediscover,
  choose, commit, dynamic_round, dynamic_loop, dynamic_start, some_legs, greedy_dynamic_inner,
}
use defi_toolbox_avalanche.Pathfinder.Splitter.Volumes.{Shares, append_leg-Shares, no_legs-Shares}

-- Every leg has a step, and an output that is neither zero nor, as a signed word, negative.
abbrev pub AllGood : List SplitLeg → Type 0
AllGood [] = Unit
AllGood (leg ∷ legs) =
    (0 < leg.output) × (leg.output < 2 ^ 255) × (0 < length leg.steps) × AllGood legs

pub snoc-AllGood :
    (leg : SplitLeg) (legs : List SplitLeg)
    → 0 < leg.output
    → leg.output < 2 ^ 255
    → 0 < length leg.steps
    → AllGood legs
    → AllGood (legs ++ (leg ∷ []))
snoc-AllGood leg [] low high step good = (low, high, step, tt)
snoc-AllGood leg (l ∷ legs) low high step good =
    (good.0, good.1, good.2, snoc-AllGood leg legs low high step good.3)

pub clip-le : (vol remaining : ℕ) → clip vol remaining ≤ remaining
clip-le vol remaining = ground arith

module _ (u : Uint256) (h : IsUint256 u) (market : Market) (large small force_every : ℕ) where
  -- The volume that a search for a route leads to.
  found_within :
      (remaining vol : ℕ) (o : Option Route) (v : ℕ) (route : Route)
      → vol ≤ remaining
      → (o >>= with_volume vol) ≡ some (v, route)
      → v ≤ remaining
  found_within remaining vol none v route within got = ground arith
  found_within remaining vol (some again) v route within got = ground arith

  rediscover-le :
      (s : DynamicState) (remaining vol : ℕ) (route : Route) (v : ℕ) (route' : Route)
      → vol ≤ remaining
      → rediscover u market large small force_every s remaining vol route ≡ some (v, route')
      → v ≤ remaining
  rediscover-le s remaining vol route v route' within got =
      elim (Bool-cases (
        not (no_path s.prev_path)
        && (not (same_path (path_key (route_steps route)) s.prev_path) && (vol == small)))) [
          | inl again ↦
              found_within remaining (clip large remaining)
                (market.find_best_route s.quotes s.dirty (clip large remaining)) v route'
                (clip-le large remaining) (rw again at got)
          | inr kept ↦ let same = rw kept at got in ground arith
        ]

  first_route_within :
      (s : DynamicState) (remaining vol : ℕ) (o : Option Route) (v : ℕ) (route : Route)
      → vol ≤ remaining
      → (o >>= rediscover u market large small force_every s remaining vol) ≡ some (v, route)
      → v ≤ remaining
  first_route_within s remaining vol none v route within got = ground arith
  first_route_within s remaining vol (some r) v route within got =
      rediscover-le s remaining vol r v route within got

  choose-le :
      (is_first : Bool) (s : DynamicState) (remaining v : ℕ) (route : Route)
      → choose u market large small force_every is_first s remaining ≡ some (v, route)
      → v ≤ remaining
  unfolding choose
  choose-le is_first s remaining v route got =
      let forced = ltb 0 force_every && leb force_every s.smalls in
      let vol =
        clip (if is_first || (no_path s.prev_path || forced) then large else small) remaining in
      elim (Bool-cases (vol == 0)) [
        | inl nothing ↦ let clash = rw nothing at got in ground arith
        | inr given ↦
            first_route_within s remaining vol (market.find_best_route s.quotes s.dirty vol) v route
              (clip-le (if is_first || (no_path s.prev_path || forced) then large else small)
                remaining)
              (rw given at got)
      ]

  module _ (amount_in : ℕ) (hi : amount_in < word) where
    -- The legs so far, and that they fit into the input.
    record IsRunning (count : ℕ) (s : DynamicState) : Type 0 where
      shares : Shares s.routed count s.result
      within : s.routed ≤ amount_in
      good : AllGood s.result.legs

    advance-IsRunning :
        (count : ℕ) (s : DynamicState) (vol : ℕ) (route : Route) (swapped : Swapped)
        → IsRunning count s
        → vol ≤ u.sub amount_in s.routed
        → bad_output swapped.output ≡ false
        → IsRunning (count + 1) (advance u market large small force_every s vol route swapped)
    unfolding append_leg
    advance-IsRunning count s vol route swapped running fits good =
        let leg : SplitLeg = record {
          steps = route_steps route;
          volume = vol;
          output = swapped.output;
          gas_used = swapped.gas_used;
        } in
        let left : u.sub amount_in s.routed ≡ amount_in - s.routed = omega (
          arith,
          running.within,
          h.sub_lem amount_in s.routed hi (omega (arith, running.within)),
        ) in
        let sum : u.add s.routed vol ≡ s.routed + vol =
          omega (arith, running.within, h.add_lem s.routed vol) in
        let (positive, signed) : (0 < swapped.output) × (swapped.output < 2 ^ 255) = ground arith in
        record {
          shares = rw sum (append_leg-Shares u h s.routed count leg s.result running.shares);
          within = omega (arith, running.within);
          good = snoc-AllGood leg s.result.legs positive signed (omega arith) running.good;
        }

    commit-IsRunning :
        (count : ℕ) (s s' : DynamicState) (vol : ℕ) (route : Route) (swapped : Option Swapped)
        → IsRunning count s
        → vol ≤ u.sub amount_in s.routed
        → commit u market large small force_every s vol route swapped ≡ some s'
        → IsRunning (count + 1) s'
    commit-IsRunning count s s' vol route none running fits done = ground arith
    commit-IsRunning count s s' vol route (some swapped) running fits done =
        elim (Bool-cases (bad_output swapped.output)) [
          | inl bad ↦ let clash = rw bad at done in ground arith
          | inr good ↦
              let next = advance u market large small force_every s vol route swapped in
              let kept : some next ≡ some s' = rw good at done in
              let eq : next ≡ s' = ground arith in
              subst (λ z. IsRunning (count + 1) z) eq
                (advance-IsRunning count s vol route swapped running fits good)
        ]

    dynamic_round-IsRunning :
        (count : ℕ) (is_first : Bool) (s s' : DynamicState)
        → IsRunning count s
        → dynamic_round u market large small force_every amount_in is_first s ≡ some s'
        → IsRunning (count + 1) s'
    unfolding dynamic_round
    dynamic_round-IsRunning count is_first s s' running done =
        let remaining = u.sub amount_in s.routed in
        elim (Bool-cases (remaining == 0)) [
          | inl finished ↦ let clash = rw finished at done in ground arith
          | inr more ↦
              elim (Option-cases (choose u market large small force_every is_first s remaining)) [
                | inl missing ↦ let clash = rw (more, missing) at done in ground arith
                | inr ((vol, route), chosen) ↦
                    commit-IsRunning count s s' vol route
                      (market.execute s.dirty (route_steps route) vol) running
                      (choose-le is_first s remaining vol route chosen) (rw (more, chosen) at done)
              ]
        ]

    dynamic_loop-IsRunning :
        (n count : ℕ) (is_first : Bool) (s : DynamicState)
        → IsRunning count s
        → (m : ℕ) × (m ≤ count + n)
          × IsRunning m (dynamic_loop u market large small force_every n amount_in is_first s)
    unfolding dynamic_loop
    dynamic_loop-IsRunning zero count is_first s running = (count, omega arith, running)
    dynamic_loop-IsRunning (suc n) count is_first s running =
        elim (Option-cases (dynamic_round u market large small force_every amount_in is_first s)) [
          | inl stops ↦ rw stops (count, omega arith, running)
          | inr (s', goes) ↦
              let (m, few, runs) =
                dynamic_loop-IsRunning n (count + 1) false s'
                  (dynamic_round-IsRunning count is_first s s' running goes) in
              rw goes (m, omega arith, runs)
        ]

pub some_legs_kept :
    (r r' : SplitResult) (legs : List SplitLeg)
    → r.legs ≡ legs
    → some_legs r ≡ some r'
    → (r ≡ r') × (0 < length r.legs)
some_legs_kept r r' [] eq kept = let clash = rw eq at kept in ground arith
some_legs_kept r r' (leg ∷ legs) eq kept =
    let same = rw eq at kept in
    let full : 0 < length r.legs = rw eq (omega arith) in (ground arith, full)

-- What GreedyDynamic answers.
abbrev pub IsDynamicSplit : ℕ → SplitResult → Type 0
IsDynamicSplit amount_in r =
    (given : ℕ) × (count : ℕ) × (given ≤ amount_in)
    × (0 < count)
    × (count ≤ 200)
    × Shares given count r
    × AllGood r.legs

-- For an input below 2^256, whatever the market answers, a result of greedyDynamicInner has 1 to
-- 200 legs whose volumes add up to at most the input; each leg has a step and an output that is
-- positive and below 2^255, and the total is the sum of the outputs modulo 2^256.
pub greedy_dynamic_inner-IsDynamicSplit :
    (u : Uint256) (h : IsUint256 u) (market : Market)
    (amount_in large_pct small_pct force_every : ℕ) (r : SplitResult)
    → amount_in < word
    → greedy_dynamic_inner u market amount_in large_pct small_pct force_every ≡ some r
    → IsDynamicSplit amount_in r
unfolding greedy_dynamic_inner
greedy_dynamic_inner-IsDynamicSplit u h market amount_in large_pct small_pct force_every r hi ran =
    let one_percent = u.div amount_in 100 in
    let large = u.mul one_percent large_pct in
    let small = u.mul one_percent small_pct in
    elim (Bool-cases (one_percent == 0)) [
      | inl nothing ↦ let clash = rw nothing at ran in ground arith
      | inr given ↦
          let last =
            dynamic_loop u market large small force_every 200 amount_in true dynamic_start in
          let (m, few, running) =
            dynamic_loop-IsRunning u h market large small force_every amount_in hi 200 0 true
              dynamic_start
              (record { shares = no_legs-Shares 0; within = omega arith; good = tt }) in
          let (same, full) = some_legs_kept last.result r last.result.legs refl (rw given at ran) in
          subst (λ z. IsDynamicSplit amount_in z) same
            (
              last.routed,
              m,
              running.within,
              omega (arith, running.shares.counted),
              omega arith,
              running.shares,
              running.good,
            )
    ]
