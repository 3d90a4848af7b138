-- ===== src/Formulas/V3/Build.antt =====
-- formulas/pool_v3.go, newV3Pool: a pool read from storage. The registry's entry for the pool, the hash
-- and the storage are arguments. The cache of layouts is passed on. Go's map iteration has no order; the
-- one here is that of the association list.
use defi_toolbox_avalanche.Common.{
  ℕ, zero, suc, ◌+◌, ◌/◌, ◌%◌, ◌^◌, Bool, true, false, not, ◌&&◌, Option, none, some, List, [], ◌∷◌,
  ltb, leb, ◌==◌, if◌then◌else◌, Map,
}
use defi_toolbox_avalanche.Common.Int.{
  ℤ, pos, ◌+ℤ◌, ◌-ℤ◌, ◌*ℤ◌, ltb_ℤ, quot, shift_down, int16, int32, same_int, IntMap, insert_int,
  pos_part,
}
use defi_toolbox_avalanche.Uint256.{Uint256}
use defi_toolbox_avalanche.Formulas.V3.{V3Pool}
use defi_toolbox_avalanche.Formulas.V3.Slots.{
  Hash, Storage, Layout, v3_get_layout_bytes, v3_read_slot0_bytes, v3_read_liquidity,
  v3_read_tick_liquidity_net, v3_read_bitmap_word,
}
use defi_toolbox_avalanche.Formulas.V3.Precompute.{precompute_steps}

-- The words of the bitmap that are not zero, and their bounds.
pub record Bitmap : Type 0 where
  pub words : IntMap ℕ
  pub min_word : ℤ
  pub max_word : ℤ

abbrev is_empty_map : {V : Type 0} → List V → Bool
is_empty_map [] = true
is_empty_map (_ ∷ _) = false

-- How many values a loop over an int16 takes from `first` up to `last`, and none when it is past it.
abbrev pub count_words : ℤ → ℤ → ℕ
count_words first last = let span = last +ℤ pos 1 -ℤ first in pos_part span

-- `centerWord` of a tick.
unfoldable pub center_word : ℤ → ℕ → ℤ
center_word tick tick_spacing =
    let towards_zero = quot tick tick_spacing in
    let inexact = not (same_int (towards_zero *ℤ pos tick_spacing) tick) in
    let compressed =
      if ltb_ℤ tick (pos 0) && inexact then towards_zero -ℤ pos 1 else towards_zero in
    int16 (shift_down compressed 256)

unfoldable pub bitmap_radius : ℕ → ℕ
bitmap_radius tick_spacing =
    if leb tick_spacing 2 then 500 else if leb tick_spacing 5 then 300 else 200

-- A loop over words, from `word_pos` on: those that are not zero are kept.
unfoldable pub read_words : (ℤ → ℕ) → ℕ → ℤ → IntMap ℕ → IntMap ℕ
read_words read zero word_pos words = words
read_words read (suc count) word_pos words =
    let bits = read word_pos in
    read_words read count (word_pos +ℤ pos 1)
      (if bits == 0 then words else insert_int word_pos bits words)

-- The scan of the full range, where the words around the tick are all zero.
unfoldable pub extend_scan : (ℤ → ℕ) → ℕ → Bitmap → Bitmap
unfolding read_words
extend_scan read tick_spacing b =
    let full_range_word = int16 (pos (887272 / tick_spacing / 256)) in
    let ext_min = int16 (pos 0 -ℤ full_range_word -ℤ pos 1) in
    let ext_max = int16 (full_range_word +ℤ pos 1) in
    if ltb_ℤ (pos (bitmap_radius tick_spacing)) (int16 (full_range_word +ℤ pos 1))
    then record {
      words =
          read_words read (count_words (b.max_word +ℤ pos 1) ext_max) (b.max_word +ℤ pos 1)
            (read_words read (count_words ext_min (b.min_word -ℤ pos 1)) ext_min b.words);
      min_word = ext_min;
      max_word = ext_max;
    }
    else b

-- The words around the tick, or all words when those are zero and there is liquidity.
unfoldable pub load_bitmap : (ℤ → ℕ) → ℤ → ℕ → ℕ → Bitmap
unfolding read_words extend_scan center_word
load_bitmap read tick tick_spacing liquidity =
    let center = center_word tick tick_spacing in
    let radius = pos (bitmap_radius tick_spacing) in
    let low = int16 (center -ℤ radius) in
    let high = int16 (center +ℤ radius) in
    let near : Bitmap = record {
      words = read_words read (count_words low high) low [];
      min_word = low;
      max_word = high;
    } in
    if is_empty_map near.words && not (liquidity == 0)
    then extend_scan read tick_spacing near
    else near

-- The ticks of a word, from the bit `bit` on.
unfoldable pub read_ticks : (ℤ → ℕ) → ℕ → ℕ → ℕ → ℤ → ℕ → IntMap ℕ → IntMap ℕ
read_ticks read tick_spacing zero bit word_pos bits nets = nets
read_ticks read tick_spacing (suc count) bit word_pos bits nets =
    let tick_idx = int32 ((word_pos *ℤ pos 256 +ℤ pos bit) *ℤ pos tick_spacing) in
    read_ticks read tick_spacing count (bit + 1) word_pos bits
      (if bits / 2 ^ bit % 2 == 1 then insert_int tick_idx (read tick_idx) nets else nets)

unfoldable pub read_all_ticks : (ℤ → ℕ) → ℕ → IntMap ℕ → IntMap ℕ → IntMap ℕ
unfolding read_ticks
read_all_ticks read tick_spacing [] nets = nets
read_all_ticks read tick_spacing ((word_pos, bits) ∷ words) nets =
    read_all_ticks read tick_spacing words (read_ticks read tick_spacing 256 0 word_pos bits nets)

-- The pool of a layout that was not found: it quotes zero.
abbrev pub empty_pool : ℕ → ℕ → ℕ → V3Pool
empty_pool addr fee tick_spacing = record {
  addr = addr;
  fee = fee;
  tick_spacing = tick_spacing;
  sqrt_price = 0;
  tick = pos 0;
  liquidity = 0;
  bitmap_words = [];
  bitmap_min_word = pos 0;
  bitmap_max_word = pos 0;
  tick_liquidity_net = [];
  pre_steps_down = [];
  pre_steps_up = [];
  heavy_gas = false;
}

-- The fee in storage, where the layout has one that is not zero.
unfoldable pub fee_of : Storage → ℕ → Option ℕ → ℕ → ℕ
fee_of storage addr none fee = fee
fee_of storage addr (some slot) fee =
    let storage_fee = storage addr slot % 2 ^ 64 % 2 ^ 24 in
    if ltb 0 storage_fee then storage_fee else fee

module _ (u : Uint256) where
  unfoldable pub pool_at : Hash → Storage → ℕ → ℕ → ℕ → Layout → ℕ → ℤ → V3Pool
  unfolding load_bitmap read_all_ticks fee_of
  pool_at keccak storage addr fee tick_spacing layout sqrt_price tick =
      let liquidity = v3_read_liquidity u storage addr layout.liquidity in
      let b =
        load_bitmap (v3_read_bitmap_word keccak storage addr layout.bitmap) tick tick_spacing
          liquidity in
      record {
        addr = addr;
        fee = fee_of storage addr layout.fee_slot fee;
        tick_spacing = tick_spacing;
        sqrt_price = sqrt_price;
        tick = tick;
        liquidity = liquidity;
        bitmap_words = b.words;
        bitmap_min_word = b.min_word;
        bitmap_max_word = b.max_word;
        tick_liquidity_net =
            read_all_ticks (v3_read_tick_liquidity_net u keccak storage addr layout.ticks)
              tick_spacing b.words [];
        pre_steps_down = [];
        pre_steps_up = [];
        heavy_gas = layout.heavy_gas;
      }

  -- The pool past the layout, which an uninitialized pool has none of.
  unfoldable pub pool_with : Hash → Storage → ℕ → ℕ → ℕ → Option Layout → Option V3Pool
  unfolding pool_at precompute_steps v3_read_slot0_bytes
  pool_with keccak storage addr fee tick_spacing none = some (empty_pool addr fee tick_spacing)
  pool_with keccak storage addr fee tick_spacing (some layout) =
      elim (v3_read_slot0_bytes u storage addr layout.slot0) [
        | none ↦ none
        | some (sqrt_price, tick) ↦ some (
            precompute_steps u
              (pool_at keccak storage addr fee tick_spacing layout sqrt_price tick))
      ]

  -- `newV3Pool`, given the pool's entry in the registry and whether it is a Pharaoh pool, with the
  -- cache of layouts before and after.
  unfoldable pub new_v3_pool :
      Hash → Storage → ℕ → Option (ℕ × ℕ) → Bool → Map Layout → Option V3Pool × Map Layout
  unfolding v3_get_layout_bytes pool_with
  new_v3_pool keccak storage addr none is_pharaoh cache = (none, cache)
  new_v3_pool keccak storage addr (some (fee, tick_spacing)) is_pharaoh cache =
      let (layout, cache') = v3_get_layout_bytes keccak storage addr is_pharaoh cache in
      (pool_with keccak storage addr fee tick_spacing layout, cache')
