-- ===== src/Formulas/V3/Consistent.antt =====
-- formulas/pool_v3.go, formulas/v3.go and formulas/v3_u256.go: the price and the tick of a pool that is
-- read from storage.
use mathlib.Core.Path.{subst}
use defi_toolbox_avalanche.Common.{
  ℕ, ◌-◌, ◌/◌, ◌%◌, ◌^◌, ◌≤◌, ◌<◌, ◌≡◌, ◌≢◌, ◌∙◌, sym, ap, refl, Bool, true, false, ◌||◌, Option,
  none, some, List, [], ◌∷◌, ◌⊎◌, inl, inr, arith, ltb, leb, ◌==◌, if◌then◌else◌, Bool-cases,
  Option-cases, Map, lookup, lookup-insert_self, insert,
}
use defi_toolbox_avalanche.Common.Int.{ℤ, pos, ◌+ℤ◌, ◌≤ℤ◌, ltb_ℤ}
use defi_toolbox_avalanche.Uint256.{Uint256, IsUint256}
use defi_toolbox_avalanche.Formulas.MulDiv.{◌>>=◌}
use defi_toolbox_avalanche.Formulas.TickMath.{get_sqrt_ratio_at_tick}
use defi_toolbox_avalanche.Formulas.V3.{V3Pool, min_tick, max_tick, min_sqr, max_sqr}
use defi_toolbox_avalanche.Formulas.V3.Slots.{
  Hash, Storage, Layout, check_slot0, tick_of_raw, v3_read_slot0, v3_read_slot0_bytes, first_layout,
  v3_resolve_layout, v3_get_layout_bytes,
}
use defi_toolbox_avalanche.Formulas.V3.Build.{pool_at, pool_with, new_v3_pool}
use defi_toolbox_avalanche.Formulas.V3.Precompute.{precompute_steps}

-- A price in range and the tick that it is in.
unfoldable pub IsInTick : ℕ → ℤ → Type 0
IsInTick sqrt_price tick =
    (min_sqr ≤ sqrt_price)
    × (sqrt_price ≤ max_sqr)
    × (min_tick ≤ℤ tick)
    × (tick ≤ℤ max_tick)
    × ((low : ℕ) → get_sqrt_ratio_at_tick tick ≡ some low → low ≤ sqrt_price)
    × ((high : ℕ)
        → ltb_ℤ tick max_tick ≡ true
        → get_sqrt_ratio_at_tick (tick +ℤ pos 1) ≡ some high
        → sqrt_price < high)

none-some : {A : Type 0} (a : A) → none ≢ some a
none-some a h = cc

lower_bound : (low other price : ℕ) → low ≡ other → ltb price low ≡ false → other ≤ price
lower_bound low other price eq above = ground (arith, eq)

-- What a guard that lets through tells.
passed :
    {A : Type 0} (b : Bool) (rest : Option A) (a : A)
    → (if b then none else rest) ≡ some a
    → (b ≡ false) × (rest ≡ some a)
passed true rest a read = absurd (none-some a read)
passed false rest a read = (refl, read)

bound :
    {A B : Type 0} (o : Option A) (f : A → Option B) (b : B)
    → (o >>= f) ≡ some b
    → (a : A) × (o ≡ some a) × (f a ≡ some b)
bound none f b read = absurd (none-some b read)
bound (some a) f b read = (a, refl, read)

same_some : {A : Type 0} (a b : A) → some a ≡ some b → a ≡ b
same_some a b h = cc

upper :
    (sqrt_price : ℕ) (tick : ℤ) (found : ℕ × ℤ)
    → (if ltb_ℤ tick max_tick
        then get_sqrt_ratio_at_tick (tick +ℤ pos 1)
          >>= (λ high. if leb high sqrt_price then none else some (sqrt_price, tick))
        else some (sqrt_price, tick))
      ≡ some found
    → (found ≡ (sqrt_price, tick))
      × ((high : ℕ)
          → ltb_ℤ tick max_tick ≡ true
          → get_sqrt_ratio_at_tick (tick +ℤ pos 1) ≡ some high
          → sqrt_price < high)
upper sqrt_price tick found read = elim (Bool-cases (ltb_ℤ tick max_tick)) [
  | inl below ↦
      let (high, is_high, rest) =
        bound (get_sqrt_ratio_at_tick (tick +ℤ pos 1))
          (λ high. if leb high sqrt_price then none else some (sqrt_price, tick)) found
          (rw below at read) in
      let (under, last) = passed (leb high sqrt_price) (some (sqrt_price, tick)) found rest in
      (
        sym (same_some _ _ last),
        λ other _ is_other.
            let eq : high ≡ other = same_some _ _ (sym is_high ∙ is_other) in ground (arith, eq),
      )
  | inr top ↦ (sym (same_some _ _ (rw top at read)), λ high below is_high. absurd (ground arith))
]

check_slot0-IsInTick :
    (sqrt_price high_bits : ℕ) (tick : ℤ) (found : ℕ × ℤ)
    → check_slot0 sqrt_price high_bits tick ≡ some found
    → (found ≡ (sqrt_price, tick))
      × ((sqrt_price == 0) ≡ false)
      × ((high_bits == 0) ≡ false)
      × IsInTick sqrt_price tick
unfolding check_slot0 IsInTick
check_slot0-IsInTick sqrt_price high_bits tick found read =
    let (priced, read1) = passed (sqrt_price == 0) _ found read in
    let (inside, read2) = passed (ltb sqrt_price min_sqr || ltb max_sqr sqrt_price) _ found read1 in
    let (tagged, read3) = passed (high_bits == 0) _ found read2 in
    let (ranged, read4) = passed (ltb_ℤ tick min_tick || ltb_ℤ max_tick tick) _ found read3 in
    let (low, is_low, read5) = bound (get_sqrt_ratio_at_tick tick) _ found read4 in
    let (above, read6) = passed (ltb sqrt_price low) _ found read5 in
    let (eq, under) = upper sqrt_price tick found read6 in
    let (over, in_price, from_tick, to_tick) : (min_sqr ≤ sqrt_price)
        × (sqrt_price ≤ max_sqr)
        × (min_tick ≤ℤ tick)
        × (tick ≤ℤ max_tick) =
      ground arith in
    let at_least : (other : ℕ) → get_sqrt_ratio_at_tick tick ≡ some other → other ≤ sqrt_price =
      λ other is_other.
        lower_bound low other sqrt_price (same_some _ _ (sym is_low ∙ is_other)) above in
    (eq, priced, tagged, (over, in_price, from_tick, to_tick, at_least, under))

slot0-IsInTick :
    (storage : Storage) (pool slot : ℕ) (found : ℕ × ℤ)
    → v3_read_slot0 storage pool slot ≡ some found
    → IsInTick found.0 found.1
unfolding v3_read_slot0
slot0-IsInTick storage pool slot found read =
    let w = storage pool slot in
    let high = w / 2 ^ 160 in
    let (eq, _, _, sound) =
      check_slot0-IsInTick (w % 2 ^ 160) high (tick_of_raw (high % 2 ^ 24)) found read in
    subst (λ f. IsInTick f.0 f.1) (sym eq) sound

first_layout_found :
    (storage : Storage) (pool : ℕ) (layouts : List Layout) (l : Layout)
    → first_layout storage pool layouts ≡ some l
    → (found : ℕ × ℤ) × (v3_read_slot0 storage pool l.slot0 ≡ some found)
unfolding first_layout
first_layout_found storage pool [] l resolved = absurd (none-some l resolved)
first_layout_found storage pool (k ∷ layouts) l resolved =
    elim (Option-cases (v3_read_slot0 storage pool k.slot0)) [
      | inl bad ↦ first_layout_found storage pool layouts l (rw (first_layout, bad) at resolved)
      | inr (found, good) ↦
          let eq : k ≡ l = same_some k l (rw (first_layout, good) at resolved) in
          (found, subst (λ m. v3_read_slot0 storage pool m.slot0 ≡ some found) eq good)
    ]

module _ (u : Uint256) (h : IsUint256 u) where
  mask160 : u.sub (u.lsh 1 160) 1 ≡ 2 ^ 160 - 1
  mask160 =
      let shifted : u.lsh 1 160 ≡ 2 ^ 160 = h.lsh_lem 1 160 ∙ omega arith in
      rw shifted (h.sub_lem (2 ^ 160) 1 (omega arith) (omega arith) ∙ omega arith)

  -- Where the checked reader accepts a slot, the fast one reads the same.
  read_slot0_same :
      (storage : Storage) (pool slot : ℕ) (found : ℕ × ℤ)
      → v3_read_slot0 storage pool slot ≡ some found
      → v3_read_slot0_bytes u storage pool slot ≡ some found
  unfolding v3_read_slot0 v3_read_slot0_bytes
  read_slot0_same storage pool slot found read =
      let w = storage pool slot in
      let high = w / 2 ^ 160 in
      let (eq, priced, tagged, _) =
        check_slot0-IsInTick (w % 2 ^ 160) high (tick_of_raw (high % 2 ^ 24)) found read in
      let raw : high % 2 ^ 64 % 2 ^ 24 ≡ high % 2 ^ 24 = omega arith in
      rw (mask160, h.and_of-mask w 160, h.rsh_lem w 160, priced, tagged, raw) (ap some (sym eq))

  -- A pool whose slot0 the guards accept.
  pool_with-IsInTick :
      (keccak : Hash) (storage : Storage) (addr fee tick_spacing : ℕ) (l : Layout) (found : ℕ × ℤ)
      → v3_read_slot0 storage addr l.slot0 ≡ some found
      → (p : V3Pool) × (pool_with u keccak storage addr fee tick_spacing (some l) ≡ some p)
        × IsInTick p.sqrt_price p.tick
  unfolding pool_with pool_at precompute_steps
  pool_with-IsInTick keccak storage addr fee tick_spacing l found good =
      let same = read_slot0_same storage addr l.slot0 found good in
      rw (pool_with, same) (_, refl, slot0-IsInTick storage addr l.slot0 found good)

  module _ (keccak : Hash) (storage : Storage) (addr fee tick_spacing : ℕ) (is_pharaoh : Bool)
      (cache : Map Layout) where
    -- The layout, and that the cache after it gives it again.
    layout_kept :
        (o : Option Layout) × (cache' : Map Layout) × (cache'' : Map Layout) × (v3_get_layout_bytes
            keccak storage addr is_pharaoh cache
          ≡ (o, cache'))
        × (v3_get_layout_bytes keccak storage addr is_pharaoh cache' ≡ (o, cache''))
        × ((l : Layout)
            → o ≡ some l
            → (lookup addr cache ≡ some l)
              ⊎ (v3_resolve_layout keccak storage addr is_pharaoh ≡ some l))
    unfolding v3_get_layout_bytes
    layout_kept = elim (Option-cases (lookup addr cache)) [
      | inr (l, held) ↦ (
        some l,
        cache,
        cache,
        rw (v3_get_layout_bytes, held) refl,
        rw (v3_get_layout_bytes, held) refl,
        λ k eq. inl (held ∙ eq),
      )
      | inl missing ↦ elim (Option-cases (v3_resolve_layout keccak storage addr is_pharaoh)) [
        | inl unknown ↦ (
          none,
          cache,
          cache,
          rw (v3_get_layout_bytes, missing, unknown) refl,
          rw (v3_get_layout_bytes, missing, unknown) refl,
          λ k eq. absurd (none-some k eq),
        )
        | inr (l, resolved) ↦
            let again : lookup addr (insert addr l cache) ≡ some l =
              lookup-insert_self addr l cache in
            (
              some l,
              insert addr l cache,
              insert addr l cache,
              rw (v3_get_layout_bytes, missing, resolved) refl,
              rw (v3_get_layout_bytes, again) refl,
              λ k eq. inr (resolved ∙ eq),
            )
      ]
    ]

    -- For a pool of the registry and any storage, where the cache of layouts does not hold the
    -- pool or the checks of v3ReadSlot0 accept the slot0 of the layout that it holds, newV3Pool
    -- gives a pool. Its price is zero, or its price and tick are within the allowed ranges and the
    -- price is at or above that of the tick and, below the last tick, under that of the next.
    -- Built again over the same storage with the cache that the first call leaves, the pool is the
    -- same.
    pub new_v3_pool-IsInTick :
        ((l : Layout)
          → lookup addr cache ≡ some l
          → (found : ℕ × ℤ) × (v3_read_slot0 storage addr l.slot0 ≡ some found))
        → let entry : Option (ℕ × ℕ) = some (fee, tick_spacing) in
          let (built, cache') = new_v3_pool u keccak storage addr entry is_pharaoh cache in
          (p : V3Pool) × (built ≡ some p)
          × ((p.sqrt_price ≡ 0) ⊎ IsInTick p.sqrt_price p.tick)
          × ((new_v3_pool u keccak storage addr entry is_pharaoh cache').0 ≡ some p)
    unfolding new_v3_pool pool_with v3_resolve_layout
    new_v3_pool-IsInTick accepted =
        let (o, cache', cache'', first, second, source) = layout_kept in
        elim (Option-cases o) [
          | inl unknown ↦ rw (first, second, unknown) (_, refl, inl refl, refl)
          | inr (l, found_l) ↦
              let (found, good) : (found : ℕ × ℤ) × (v3_read_slot0 storage addr l.slot0
                    ≡ some found) =
                elim (source l found_l) [
                  | inl held ↦ accepted l held
                  | inr resolved ↦ first_layout_found storage addr _ l resolved
                ] in
              let (p, built, sound) =
                pool_with-IsInTick keccak storage addr fee tick_spacing l found good in
              rw (first, second, found_l, built) (p, refl, inr sound, refl)
        ]
