-- ===== src/Formulas/V3/Bitmap.antt =====
-- formulas/pool_v3.go, nextInitializedTick: the search of one word of the bitmap for the next tick.
use defi_toolbox_avalanche.Common.{
  ℕ, zero, suc, ◌+◌, ◌-◌, ◌*◌, ◌/◌, ◌%◌, ◌^◌, Bool, true, false, Option, none, some, ◌==◌,
  if◌then◌else◌,
}
use defi_toolbox_avalanche.Common.Int.{ℤ, pos, ◌+ℤ◌, ◌-ℤ◌, ◌*ℤ◌, ltb_ℤ, lookup_int, int32}
use defi_toolbox_avalanche.Uint256.{Uint256}
use defi_toolbox_avalanche.Formulas.V3.{V3Pool, or_zero, v3_position, v3_floor_div}

-- `for b := 0; b < 64; b++`, from the bit `b` on.
unfoldable pub lowest_bit : ℕ → ℕ → ℕ → Option ℕ
lowest_bit zero b limb = none
lowest_bit (suc fuel) b limb =
    let rest = lowest_bit fuel (b + 1) limb in if limb / 2 ^ b % 2 == 1 then some b else rest

-- `for w := 0; w < 4; w++`, from the limb `w` on.
unfoldable pub lowest_from : ℕ → ℕ → ℕ → ℕ
unfolding lowest_bit
lowest_from zero w masked = 0
lowest_from (suc fuel) w masked =
    let rest = lowest_from fuel (w + 1) masked in
    elim (lowest_bit 64 0 (masked / 2 ^ (64 * w) % 2 ^ 64)) [ some b ↦ w * 64 + b | none ↦ rest ]

module _ (u : Uint256) where
  -- The bits of the word at or below `bit_pos`, and those at or above it.
  unfoldable pub masked_down : ℕ → ℕ → ℕ
  masked_down word_bits bit_pos = u.and_of word_bits (u.sub (u.lsh 1 (bit_pos + 1)) 1)

  unfoldable pub masked_up : ℕ → ℕ → ℕ
  masked_up word_bits bit_pos =
      u.and_of word_bits (u.and_of (u.not_of (u.sub (u.lsh 1 bit_pos) 1)) (2 ^ 256 - 1))

  unfoldable pub search_down : V3Pool → ℤ → Option (ℤ × Bool)
  unfolding masked_down v3_position
  search_down p compressed =
      let (word_pos, bit_pos) = v3_position compressed in
      if ltb_ℤ word_pos p.bitmap_min_word
      then none
      else (let masked = masked_down (or_zero (lookup_int word_pos p.bitmap_words)) bit_pos in
          if masked == 0
          then some (int32 ((compressed -ℤ pos bit_pos) *ℤ pos p.tick_spacing), false)
          else (let msb = pos (u.bit_len masked) -ℤ pos 1 in
              some (int32 ((compressed -ℤ (pos bit_pos -ℤ msb)) *ℤ pos p.tick_spacing), true)))

  unfoldable pub search_up : V3Pool → ℤ → Option (ℤ × Bool)
  unfolding masked_up v3_position lowest_from
  search_up p compressed =
      let (word_pos, bit_pos) = v3_position compressed in
      if ltb_ℤ p.bitmap_max_word word_pos
      then none
      else (let masked = masked_up (or_zero (lookup_int word_pos p.bitmap_words)) bit_pos in
          if masked == 0
          then some (int32 ((compressed +ℤ (pos 255 -ℤ pos bit_pos)) *ℤ pos p.tick_spacing), false)
          else (let lsb = lowest_from 4 0 masked in
              some (int32 ((compressed +ℤ (pos lsb -ℤ pos bit_pos)) *ℤ pos p.tick_spacing), true)))

  -- `nextInitializedTick`: the next tick and whether it is initialized; `none` is out of range.
  unfoldable pub next_initialized_tick : V3Pool → ℤ → Bool → Option (ℤ × Bool)
  unfolding search_down search_up v3_floor_div
  next_initialized_tick p tick zero_for_one =
      let compressed = v3_floor_div tick p.tick_spacing in
      if zero_for_one then search_down p compressed else search_up p (compressed +ℤ pos 1)
