-- ===== src/Formulas/V3/Slots.antt =====
-- formulas/v3.go, formulas/v3_u256.go and formulas/shared_u256.go: the storage layouts of the pools and
-- the readers of their slots. A slot and a stored word are numbers, and a read does not fail, as the
-- readers that newV3Pool makes do not. The hash is an argument; the cache in front of
-- cachedKeccakSlotBytes is left out.
use defi_toolbox_avalanche.Common.{
  ℕ, ◌+◌, ◌-◌, ◌/◌, ◌%◌, ◌^◌, Bool, true, false, ◌||◌, Option, none, some, List, [], ◌∷◌, ltb, leb,
  ◌==◌, if◌then◌else◌, Map, lookup, insert,
}
use defi_toolbox_avalanche.Common.Bytes.{low_bytes}
use defi_toolbox_avalanche.Common.Int.{ℤ, pos, ◌+ℤ◌, ◌-ℤ◌, ltb_ℤ, low_bits}
use defi_toolbox_avalanche.Uint256.{Uint256}
use defi_toolbox_avalanche.Formulas.MulDiv.{◌>>=◌}
use defi_toolbox_avalanche.Formulas.TickMath.{get_sqrt_ratio_at_tick}
use defi_toolbox_avalanche.Formulas.V3.{min_tick, max_tick, min_sqr, max_sqr}

-- `crypto.Keccak256`
abbrev pub Hash : Type 0
Hash = List ℕ → ℕ

-- `func(contractAddr, slot)`, what the storage holds.
abbrev pub Storage : Type 0
Storage = ℕ → ℕ → ℕ

-- `v3Layout` and `v3LayoutBytes`
pub record Layout : Type 0 where
  pub slot0 : ℕ
  pub liquidity : ℕ
  pub ticks : ℕ
  pub bitmap : ℕ
  pub fee_slot : Option ℕ
  pub heavy_gas : Bool

abbrev plain_layout : ℕ → ℕ → ℕ → ℕ → Bool → Layout
plain_layout slot0 liquidity ticks bitmap heavy = record {
  slot0 = slot0;
  liquidity = liquidity;
  ticks = ticks;
  bitmap = bitmap;
  fee_slot = none;
  heavy_gas = heavy;
}

abbrev pub v3_layout_standard : Layout
v3_layout_standard = plain_layout 0 4 5 6 false

abbrev pub v3_layout_proxy : Layout
v3_layout_proxy = plain_layout 4 9 10 11 true

abbrev pub v3_layout_pangolin : Layout
v3_layout_pangolin = plain_layout 5 9 10 11 true

abbrev pub v3_layout_pangolin_reward : Layout
v3_layout_pangolin_reward = plain_layout 5 10 11 12 true

-- The text "states.storage", and "pool.storage".
abbrev states_storage : List ℕ
states_storage = 115 ∷ 116 ∷ 97 ∷ 116 ∷ 101 ∷ 115 ∷ 46 ∷ 115 ∷ 116 ∷ 111 ∷ 114 ∷ 97 ∷ 103 ∷ 101 ∷ []

abbrev pool_storage : List ℕ
pool_storage = 112 ∷ 111 ∷ 111 ∷ 108 ∷ 46 ∷ 115 ∷ 116 ∷ 111 ∷ 114 ∷ 97 ∷ 103 ∷ 101 ∷ []

unfoldable pub v3_layout_pharaoh_v1 : Hash → Layout
v3_layout_pharaoh_v1 keccak =
    let base = keccak states_storage in
    plain_layout (base + 7) (base + 13) (base + 14) (base + 15) true

unfoldable pub v3_layout_pharaoh_v2 : Hash → Layout
unfolding low_bytes
v3_layout_pharaoh_v2 keccak =
    let raw = keccak (low_bytes 32 (keccak pool_storage - 1) []) in
    let derived = raw - raw % 256 in
    record {
      slot0 = derived;
      liquidity = derived + 8;
      ticks = derived + 9;
      bitmap = derived + 10;
      fee_slot = some (derived + 2);
      heavy_gas = true;
    }

-- The guards of `v3ReadSlot0` on a price and a tick; the price of every tick is `some`.
unfoldable pub check_slot0 : ℕ → ℕ → ℤ → Option (ℕ × ℤ)
check_slot0 sqrt_price high_bits tick =
    if sqrt_price == 0
    then none
    else if ltb sqrt_price min_sqr || ltb max_sqr sqrt_price
    then none
    else if high_bits == 0
    then none
    else if ltb_ℤ tick min_tick || ltb_ℤ max_tick tick
    then none
    else get_sqrt_ratio_at_tick tick >>= (λ low.
      if ltb sqrt_price low
      then none
      else if ltb_ℤ tick max_tick
      then get_sqrt_ratio_at_tick (tick +ℤ pos 1)
        >>= (λ high. if leb high sqrt_price then none else some (sqrt_price, tick))
      else some (sqrt_price, tick))

-- The tick in 24 bits of two's complement.
unfoldable pub tick_of_raw : ℕ → ℤ
tick_of_raw raw = if leb (2 ^ 23) raw then pos raw -ℤ pos (2 ^ 24) else pos raw

-- `v3ReadSlot0`
unfoldable pub v3_read_slot0 : Storage → ℕ → ℕ → Option (ℕ × ℤ)
unfolding check_slot0 tick_of_raw
v3_read_slot0 storage pool slot =
    let slot0 = storage pool slot in
    let high_bits = slot0 / 2 ^ 160 in
    check_slot0 (slot0 % 2 ^ 160) high_bits (tick_of_raw (high_bits % 2 ^ 24))

-- The loop of `v3ResolveLayout`.
unfoldable pub first_layout : Storage → ℕ → List Layout → Option Layout
first_layout storage pool [] = none
first_layout storage pool (l ∷ layouts) =
    let rest = first_layout storage pool layouts in
    elim (v3_read_slot0 storage pool l.slot0) [ some _ ↦ some l | none ↦ rest ]

-- `v3ResolveLayout`, told whether the pool is in `pharaohV3Pools`.
unfoldable pub v3_resolve_layout : Hash → Storage → ℕ → Bool → Option Layout
unfolding first_layout v3_layout_pharaoh_v1 v3_layout_pharaoh_v2
v3_resolve_layout keccak storage pool is_pharaoh = first_layout storage pool (
    if is_pharaoh
    then v3_layout_pharaoh_v2 keccak ∷ v3_layout_pharaoh_v1 keccak ∷ []
    else v3_layout_standard ∷ v3_layout_proxy ∷ v3_layout_pangolin_reward ∷ v3_layout_pangolin ∷ [])

-- The layout that was resolved, and the cache with it.
abbrev pub cache_layout : ℕ → Map Layout → Option Layout → Option Layout × Map Layout
cache_layout pool cache none = (none, cache)
cache_layout pool cache (some l) = (some l, insert pool l cache)

-- `v3GetLayoutBytes`, with `v3LayoutBytesCache` before and after.
unfoldable pub v3_get_layout_bytes :
    Hash → Storage → ℕ → Bool → Map Layout → Option Layout × Map Layout
unfolding v3_resolve_layout
v3_get_layout_bytes keccak storage pool is_pharaoh cache = elim (lookup pool cache) [
  | some l ↦ (some l, cache)
  | none ↦ cache_layout pool cache (v3_resolve_layout keccak storage pool is_pharaoh)
]

-- `cachedKeccakSlotBytes`: the hash of the key as an int256 and the slot of the mapping.
unfoldable pub keccak_slot : Hash → ℤ → ℕ → ℕ
unfolding low_bytes
keccak_slot keccak key mapping_slot =
    keccak (low_bytes 32 (low_bits key (2 ^ 256)) (low_bytes 32 mapping_slot []))

unfoldable pub v3_read_bitmap_word : Hash → Storage → ℕ → ℕ → ℤ → ℕ
unfolding keccak_slot
v3_read_bitmap_word keccak storage pool bitmap word_pos =
    storage pool (keccak_slot keccak word_pos bitmap)

module _ (u : Uint256) where
  -- `v3ReadSlot0Bytes`
  unfoldable pub v3_read_slot0_bytes : Storage → ℕ → ℕ → Option (ℕ × ℤ)
  unfolding tick_of_raw
  v3_read_slot0_bytes storage pool slot =
      let slot0 = storage pool slot in
      let sqrt_price = u.and_of slot0 (u.sub (u.lsh 1 160) 1) in
      let high_bits = u.rsh slot0 160 in
      if sqrt_price == 0
      then none
      else if high_bits == 0
      then none
      else some (sqrt_price, tick_of_raw (high_bits % 2 ^ 64 % 2 ^ 24))

  unfoldable pub v3_read_liquidity : Storage → ℕ → ℕ → ℕ
  v3_read_liquidity storage pool slot = u.and_of (storage pool slot) (u.sub (u.lsh 1 128) 1)

  -- `v3ReadTickLiquidityNetBytes`: the upper 128 bits, extended by their sign.
  unfoldable pub v3_read_tick_liquidity_net : Hash → Storage → ℕ → ℕ → ℤ → ℕ
  unfolding keccak_slot
  v3_read_tick_liquidity_net keccak storage pool ticks tick =
      let stored = storage pool (keccak_slot keccak tick ticks) in
      let val = u.and_of (u.rsh stored 128) (u.sub (u.lsh 1 128) 1) in
      if val / 2 ^ 127 % 2 == 1 then u.or_of val (u.lsh (2 ^ 256 - 1) 128) else val
