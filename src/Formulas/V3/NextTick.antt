-- ===== src/Formulas/V3/NextTick.antt =====
-- formulas/pool_v3.go, nextInitializedTick: the tick that the search of a word gives, with its place in the bitmap.
use defi_toolbox_avalanche.Common.{
  ℕ, suc, ◌-◌, ◌^◌, ◌≤◌, ◌<◌, ◌≡◌, ◌≢◌, ◌∙◌, sym, ap, refl, Bool, true, false, none, some, arith,
  ◌==◌, if◌then◌else◌, Bool-cases, inl, inr, ◌⊎◌,
}
use defi_toolbox_avalanche.Common.Int.{
  ℤ, pos, ◌+ℤ◌, ◌-ℤ◌, ◌*ℤ◌, ltb_ℤ, pos_part, neg_part, int32, lookup_int, int_laws,
}
use defi_toolbox_avalanche.Uint256.{Uint256, IsUint256, word}
use defi_toolbox_avalanche.Formulas.V3.{V3Pool, or_zero, v3_position, v3_floor_div}
use defi_toolbox_avalanche.Formulas.V3.Position.{v3_position_joins}
use defi_toolbox_avalanche.Formulas.V3.Bitmap.{
  lowest_from, masked_down, masked_up, search_down, search_up, next_initialized_tick,
}
use defi_toolbox_avalanche.Formulas.V3.Bits.{bit, IsClear}
use defi_toolbox_avalanche.Formulas.V3.Next.{down_bits, down-IsClear, up_bits, up-IsClear}

-- What the search finds: a tick of the word at hand, the nearest that is initialized, or the last
-- of the word when none is.
unfoldable pub IsNext : V3Pool → ℤ → Bool → ℤ → Bool → Type 0
IsNext p compressed true next initialized =
    let (word_pos, bit_pos) = v3_position compressed in
    let x = or_zero (lookup_int word_pos p.bitmap_words) in
    (j : ℕ) × (next ≡ int32 ((word_pos *ℤ pos 256 +ℤ pos j) *ℤ pos p.tick_spacing))
    × (j ≤ bit_pos)
    × (((initialized ≡ true) × (bit x j ≡ 1) × IsClear x (suc j) (suc bit_pos))
        ⊎ ((initialized ≡ false) × (j ≡ 0) × IsClear x 0 (suc bit_pos)))
IsNext p compressed false next initialized =
    let (word_pos, bit_pos) = v3_position compressed in
    let x = or_zero (lookup_int word_pos p.bitmap_words) in
    (j : ℕ) × (next ≡ int32 ((word_pos *ℤ pos 256 +ℤ pos j) *ℤ pos p.tick_spacing))
    × (bit_pos ≤ j)
    × (j ≤ 255)
    × (((initialized ≡ true) × (bit x j ≡ 1) × IsClear x bit_pos j)
        ⊎ ((initialized ≡ false) × (j ≡ 255) × IsClear x bit_pos 256))

same_pair :
    (found here : ℤ × Bool) → some found ≡ some here → (here.0 ≡ found.0) × (here.1 ≡ found.1)
same_pair found here h =
    let eq : found ≡ here = cc in (sym (ap (λ x. x.0) eq), sym (ap (λ x. x.1) eq))

no_tick : (a : ℤ × Bool) → none ≢ some a
no_tick a h = cc

-- The ticks of the code as positions in the word.
at_start : (c w : ℤ) (b : ℕ) → w +ℤ pos b ≡ c → c -ℤ pos b ≡ w +ℤ pos 0
at_start c w b joins = omega (int_laws, ap pos_part joins, ap neg_part joins)

at_msb :
    (c w : ℤ) (b len : ℕ)
    → w +ℤ pos b ≡ c
    → 0 < len
    → c -ℤ (pos b -ℤ (pos len -ℤ pos 1)) ≡ w +ℤ pos (len - 1)
at_msb c w b len joins p = omega (int_laws, ap pos_part joins, ap neg_part joins)

at_end : (c w : ℤ) (b : ℕ) → w +ℤ pos b ≡ c → c +ℤ (pos 255 -ℤ pos b) ≡ w +ℤ pos 255
at_end c w b joins = omega (int_laws, ap pos_part joins, ap neg_part joins)

at_lsb : (c w : ℤ) (b lsb : ℕ) → w +ℤ pos b ≡ c → c +ℤ (pos lsb -ℤ pos b) ≡ w +ℤ pos lsb
at_lsb c w b lsb joins = omega (int_laws, ap pos_part joins, ap neg_part joins)

-- Every word of the bitmap is one.
abbrev pub WordsFit : V3Pool → Type 0
WordsFit p = (k : ℤ) → or_zero (lookup_int k p.bitmap_words) < word

-- Where the search begins
abbrev pub start_of : ℤ → ℕ → Bool → ℤ
start_of tick tick_spacing zero_for_one =
    if zero_for_one then v3_floor_div tick tick_spacing else v3_floor_div tick tick_spacing +ℤ pos 1

module _ (u : Uint256) (h : IsUint256 u) where
  search_down-IsNext :
      (p : V3Pool) (c next : ℤ) (initialized : Bool)
      → pos_part c < 2 ^ 23
      → neg_part c ≤ 2 ^ 23
      → search_down u p c ≡ some (next, initialized)
      → IsNext p c true next initialized
  unfolding search_down IsNext
  search_down-IsNext p c next initialized up down found =
      let (joins, byte) = v3_position_joins c up down in
      let word_pos = (v3_position c).0 in
      let bit_pos = (v3_position c).1 in
      let x = or_zero (lookup_int word_pos p.bitmap_words) in
      let masked = masked_down u x bit_pos in
      let tick : ℤ → ℤ = λ k. int32 (k *ℤ pos p.tick_spacing) in
      elim (Bool-cases (ltb_ℤ word_pos p.bitmap_min_word)) [
        | inl outside ↦ absurd (no_tick (next, initialized) (rw (search_down, outside) at found))
        | inr inside ↦ elim (Bool-cases (masked == 0)) [
          | inl nothing ↦
              let (eq, kind) =
                same_pair _ (next, initialized) (rw (search_down, inside, nothing) at found) in
              (
                0,
                eq ∙ ap tick (at_start c _ bit_pos joins),
                omega arith,
                inr (kind, refl, down-IsClear u h x bit_pos (omega arith) nothing),
              )
          | inr some_bit ↦
              let (eq, kind) =
                same_pair _ (next, initialized) (rw (search_down, inside, some_bit) at found) in
              let (len, within, set, clear) = down_bits u h x bit_pos (omega arith) some_bit in
              (
                u.bit_len masked - 1,
                eq ∙ ap tick (at_msb c _ bit_pos (u.bit_len masked) joins len),
                within,
                inl (kind, set, clear),
              )
        ]
      ]

  search_up-IsNext :
      (p : V3Pool) (c next : ℤ) (initialized : Bool)
      → pos_part c < 2 ^ 23
      → neg_part c ≤ 2 ^ 23
      → WordsFit p
      → search_up u p c ≡ some (next, initialized)
      → IsNext p c false next initialized
  unfolding search_up IsNext
  search_up-IsNext p c next initialized up down fit found =
      let (joins, byte) = v3_position_joins c up down in
      let word_pos = (v3_position c).0 in
      let bit_pos = (v3_position c).1 in
      let x = or_zero (lookup_int word_pos p.bitmap_words) in
      let masked = masked_up u x bit_pos in
      let tick : ℤ → ℤ = λ k. int32 (k *ℤ pos p.tick_spacing) in
      elim (Bool-cases (ltb_ℤ p.bitmap_max_word word_pos)) [
        | inl outside ↦ absurd (no_tick (next, initialized) (rw (search_up, outside) at found))
        | inr inside ↦ elim (Bool-cases (masked == 0)) [
          | inl nothing ↦
              let (eq, kind) =
                same_pair _ (next, initialized) (rw (search_up, inside, nothing) at found) in
              (
                255,
                eq ∙ ap tick (at_end c _ bit_pos joins),
                omega arith,
                omega arith,
                inr (kind, refl, up-IsClear u h x bit_pos (fit word_pos) (omega arith) nothing),
              )
          | inr some_bit ↦
              let (eq, kind) =
                same_pair _ (next, initialized) (rw (search_up, inside, some_bit) at found) in
              let (within, last, set, clear) =
                up_bits u h x bit_pos (fit word_pos) (omega arith) some_bit in
              (
                lowest_from 4 0 masked,
                eq ∙ ap tick (at_lsb c _ bit_pos (lowest_from 4 0 masked) joins),
                within,
                last,
                inl (kind, set, clear),
              )
        ]
      ]

  -- Where the position of the tick in units of the spacing is between -2^23 and 2^23 and the words
  -- of the bitmap fit in 256 bits, a tick that nextInitializedTick gives is in the word of that
  -- position, on the side of the search. If it is said to be initialized, its bit is set and those
  -- between are not; if not, it is the last of the word and no bit up to it is set.
  pub next_initialized_tick-IsNext :
      (p : V3Pool) (tick next : ℤ) (zero_for_one initialized : Bool)
      → let c = start_of tick p.tick_spacing zero_for_one in
        pos_part c < 2 ^ 23
        → neg_part c ≤ 2 ^ 23
        → WordsFit p
        → next_initialized_tick u p tick zero_for_one ≡ some (next, initialized)
        → IsNext p c zero_for_one next initialized
  unfolding next_initialized_tick
  next_initialized_tick-IsNext p tick next true initialized up down fit found =
      search_down-IsNext p _ next initialized up down found
  next_initialized_tick-IsNext p tick next false initialized up down fit found =
      search_up-IsNext p _ next initialized up down fit found
