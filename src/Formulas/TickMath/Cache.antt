-- ===== src/Formulas/TickMath/Cache.antt =====
-- The cache in front of the tick computation (formulas/shared_u256.go, sqrtRatioCache and
-- getSqrtRatioAtTickU256).
use defi_toolbox_avalanche.Common.{
  ℕ, ◌≡◌, refl, Option, none, some, List, [], ◌∷◌, arith, map, if◌then◌else◌, Bool-cases, inl, inr,
}
use defi_toolbox_avalanche.Common.Int.{ℤ, same_int, same_int-eq}
use defi_toolbox_avalanche.Uint256.{Uint256}
use defi_toolbox_avalanche.Formulas.TickMath.{get_sqrt_ratio_at_tick_u256_compute}

-- `sqrtRatioCache`, newest entry first.
abbrev pub Cache : Type 0
Cache = List (ℤ × ℕ)

unfoldable pub load : ℤ → Cache → Option ℕ
load tick [] = none
load tick ((t, ratio) ∷ cache) = if same_int t tick then some ratio else load tick cache

abbrev pub store : ℤ → ℕ → Cache → Cache
store tick ratio cache = (tick, ratio) ∷ cache

module _ (u : Uint256) where
  -- What the call does with what the cache gave.
  abbrev serve : ℤ → Cache → Option ℕ → ℕ × Cache
  serve tick cache (some cached) = (cached, cache)
  serve tick cache none =
      let result = get_sqrt_ratio_at_tick_u256_compute u tick in (result, store tick result cache)

  unfoldable pub get_sqrt_ratio_at_tick_u256 : ℤ → Cache → ℕ × Cache
  get_sqrt_ratio_at_tick_u256 tick cache = serve tick cache (load tick cache)

  -- The results of a run of calls, one after another.
  unfoldable pub get_all : List ℤ → Cache → List ℕ
  get_all [] cache = []
  get_all (tick ∷ ticks) cache =
      let (ratio, cache') = get_sqrt_ratio_at_tick_u256 tick cache in ratio ∷ get_all ticks cache'

  -- Every entry of the cache is the computed one.
  abbrev pub IsFaithful : Cache → Type 0
  IsFaithful cache =
      (tick : ℤ) (ratio : ℕ)
      → load tick cache ≡ some ratio
      → ratio ≡ get_sqrt_ratio_at_tick_u256_compute u tick

  store-IsFaithful :
      (t : ℤ) (cache : Cache)
      → IsFaithful cache
      → IsFaithful (store t (get_sqrt_ratio_at_tick_u256_compute u t) cache)
  unfolding load
  store-IsFaithful t cache faithful tick ratio loaded = elim (Bool-cases (same_int t tick)) [
    | inl same ↦ let eq : t ≡ tick = same_int-eq t tick same in ground (arith, eq)
    | inr other ↦ faithful tick ratio (rw other at loaded)
  ]

  serve-IsFaithful :
      (tick : ℤ) (cache : Cache) (found : Option ℕ)
      → load tick cache ≡ found
      → IsFaithful cache
      → ((serve tick cache found).0 ≡ get_sqrt_ratio_at_tick_u256_compute u tick)
        × IsFaithful (serve tick cache found).1
  serve-IsFaithful tick cache (some cached) loaded faithful =
      (faithful tick cached loaded, faithful)
  serve-IsFaithful tick cache none loaded faithful = (refl, store-IsFaithful tick cache faithful)

  -- From a cache in which every entry is the computed price of its tick, any sequence of calls of
  -- getSqrtRatioAtTickU256 gives the computed prices.
  pub get_all_computed :
      (ticks : List ℤ) (cache : Cache)
      → IsFaithful cache
      → get_all ticks cache ≡ map (get_sqrt_ratio_at_tick_u256_compute u) ticks
  unfolding get_all get_sqrt_ratio_at_tick_u256
  get_all_computed [] cache faithful = refl
  get_all_computed (tick ∷ ticks) cache faithful =
      let (same, kept) = serve-IsFaithful tick cache (load tick cache) refl faithful in
      rw (same, get_all_computed ticks (serve tick cache (load tick cache)).1 kept)
