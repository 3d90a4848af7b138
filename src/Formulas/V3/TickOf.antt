-- ===== src/Formulas/V3/TickOf.antt =====
-- formulas/shared_u256.go, getTickAtSqrtRatioU256: the tick of a square-root price.
use defi_toolbox_avalanche.Common.{
  ℕ, zero, suc, ◌+◌, ◌-◌, ◌/◌, ◌%◌, ◌^◌, List, [], ◌∷◌, leb, ◌==◌, if◌then◌else◌,
}
use defi_toolbox_avalanche.Common.Int.{ℤ, pos, ◌-ℤ◌, int32, same_int}
use defi_toolbox_avalanche.Uint256.{Uint256}
use defi_toolbox_avalanche.Formulas.TickMath.{get_sqrt_ratio_at_tick_u256_compute, max_uint256}

-- `u256ToInt32`
unfoldable pub u256_to_int32 : Uint256 → ℕ → ℤ
u256_to_int32 u v =
    if v == 0
    then pos 0
    else if v / 2 ^ 255 % 2 == 1
    then int32 (pos 0 -ℤ int32 (pos (u.add (u.sub max_uint256 v) 1 % 2 ^ 64)))
    else int32 (pos (v % 2 ^ 64))

module _ (u : Uint256) where
  -- The loop over the thresholds, on the bit found so far and what is left of the price.
  unfoldable pub find_msb : List ℕ → ℕ → ℕ → ℕ
  find_msb [] msb ratio = msb
  find_msb (bits ∷ thresholds) msb ratio =
      let above = leb (u.lsh 1 bits) ratio in
      find_msb thresholds (if above then msb + bits else msb)
        (if above then u.rsh ratio bits else ratio)

  -- `for i := 63; i >= 50; i--`
  unfoldable pub log_bits : ℕ → ℕ → ℕ → ℕ → ℕ
  log_bits zero i ratio log2 = log2
  log_bits (suc fuel) i ratio log2 =
      let square = u.rsh (u.mul ratio ratio) 127 in
      let f = u.rsh square 128 in
      log_bits fuel (i - 1) (u.rsh square (f % 2 ^ 64)) (u.or_of log2 (u.lsh f i))

  unfoldable pub get_tick_at_sqrt_ratio_u256 : ℕ → ℤ
  unfolding find_msb log_bits u256_to_int32
  get_tick_at_sqrt_ratio_u256 sqrt_price =
      let msb = find_msb (128 ∷ 64 ∷ 32 ∷ 16 ∷ 8 ∷ 4 ∷ 2 ∷ 1 ∷ []) 0 sqrt_price in
      let ratio =
        if leb 128 msb then u.rsh sqrt_price (msb - 127) else u.lsh sqrt_price (127 - msb) in
      let start =
        if leb 128 msb
        then u.lsh (msb - 128) 64
        else u.lsh (u.add (u.sub max_uint256 (128 - msb)) 1) 64 in
      let log2 = log_bits 14 63 ratio start in
      let log_sqrt = u.mul log2 255738958999603826347141 in
      let low =
        u256_to_int32 u (u.rsh (u.sub log_sqrt 3402992956809132418596140100660247210) 128) in
      let high =
        u256_to_int32 u (u.rsh (u.add log_sqrt 291339464771989622907027621153398088495) 128) in
      if same_int low high
      then low
      else if leb (get_sqrt_ratio_at_tick_u256_compute u high) sqrt_price
      then high
      else low
