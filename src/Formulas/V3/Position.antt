-- ===== src/Formulas/V3/Position.antt =====
-- formulas/v3.go, v3FloorDiv and v3Position: a tick in the bitmap.
use native.Mathlib.Nat.{div-add-mod', mod-lt}
use defi_toolbox_avalanche.Common.{
  ℕ, suc, ◌+◌, ◌-◌, ◌*◌, ◌/◌, ◌%◌, ◌^◌, ◌≤◌, ◌<◌, ◌≡◌, true, false, ◌==◌, ltb, zero, arith,
  Bool-cases, inl, inr,
}
use defi_toolbox_avalanche.Common.Int.{
  ℤ, pos, negsuc, ◌+ℤ◌, ◌-ℤ◌, ◌*ℤ◌, pos_part, neg_part, quot, shift_down, low_bits, difference,
  same_int, int16_small,
}
use defi_toolbox_avalanche.Formulas.V3.{v3_position, v3_floor_div}

-- For a tick from -2^23 to 2^23 in units of the spacing, the word of v3Position times 256 plus its
-- bit is the tick, and the bit is below 256.
pub v3_position_joins :
    (compressed : ℤ)
    → pos_part compressed < 2 ^ 23
    → neg_part compressed ≤ 2 ^ 23
    → ((v3_position compressed).0 *ℤ pos 256 +ℤ pos ((v3_position compressed).1) ≡ compressed)
      × ((v3_position compressed).1 < 256)
unfolding v3_position shift_down low_bits ◌*ℤ◌ ◌+ℤ◌ ◌-ℤ◌
v3_position_joins (pos n) up down =
    rw (int16_small (pos (n / 256)) (omega arith) (omega arith)) (ground arith)
v3_position_joins (negsuc n) up down =
    rw (int16_small (negsuc (n / 256)) (omega arith) (omega arith)) (ground arith)

-- A product of a negative quotient.
negative_product : (q b : ℕ) → difference 0 q *ℤ pos b ≡ difference 0 (q * b)
unfolding ◌*ℤ◌
negative_product zero b = grind arith
negative_product (suc q) b = grind arith

floor_exact : (q n b : ℕ) → q * b ≡ suc n → difference 0 q *ℤ pos b +ℤ pos 0 ≡ negsuc n
unfolding ◌+ℤ◌
floor_exact q n b h = rw (negative_product q b, h) (ground arith)

floor_below :
    (q m n b : ℕ)
    → q * b + m ≡ suc n
    → m < b
    → (difference 0 q -ℤ pos 1) *ℤ pos b +ℤ pos (b - m) ≡ negsuc n
unfolding ◌+ℤ◌ ◌-ℤ◌
floor_below q m n b h k =
    let lower : difference 0 q -ℤ pos 1 ≡ difference 0 (suc q) = ground arith in
    let product : suc q * b ≡ q * b + b = grind arith in
    rw (lower, negative_product (suc q) b, product) (ground arith)

floor_up : (n b : ℕ) → pos (n / b) *ℤ pos b +ℤ pos (n % b) ≡ pos n
unfolding ◌*ℤ◌ ◌+ℤ◌
floor_up n b = grind (arith, div-add-mod' n b)

-- For a positive divisor v3FloorDiv rounds down, negative numbers included: the number is the
-- quotient times the divisor plus a rest from 0 to the divisor less one.
v3_floor_div-IsFloor :
    (a : ℤ) (b : ℕ) → 0 < b → (r : ℕ) × (r < b) × (v3_floor_div a b *ℤ pos b +ℤ pos r ≡ a)
unfolding v3_floor_div quot
v3_floor_div-IsFloor (pos n) b h =
    let up : ltb (n + 0) 0 ≡ false = ground arith in rw up (n % b, mod-lt n h, floor_up n b)
v3_floor_div-IsFloor (negsuc n) b h =
    let q = suc n / b in
    let m = suc n % b in
    let down : ltb 0 (0 + suc n) ≡ true = ground arith in
    let parts : q * b + m ≡ suc n = div-add-mod' (suc n) b in
    elim (Bool-cases (m == 0)) [
      | inl exact ↦
          let whole : q * b ≡ suc n = ground arith in
          let same : same_int (difference 0 q *ℤ pos b) (negsuc n) ≡ true =
            rw (negative_product q b, whole) (ground arith) in
          rw (down, same) (0, h, floor_exact q n b whole)
      | inr inexact ↦
          let other : same_int (difference 0 q *ℤ pos b) (negsuc n) ≡ false =
            rw (negative_product q b) (ground arith) in
          rw (down, other) (b - m, ground arith, floor_below q m n b parts (mod-lt (suc n) h))
    ]
