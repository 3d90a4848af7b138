-- ===== src/Formulas/TickMath/Bounds.antt =====
-- The size of the ratio of a tick, before and after the inversion and the rounding.
use native.Mathlib.Nat.{
  mul-le-mul_right, mul-le-mul_left, le_trans, le-div_iff_mul-le, div-lt_iff_lt-mul,
}
use defi_toolbox_avalanche.Common.{
  ℕ, suc, ◌+◌, ◌-◌, ◌*◌, ◌/◌, ◌^◌, ◌≤◌, ◌<◌, ◌≡◌, refl, true, some, List, [], ◌∷◌, arith, ltb,
  if◌then◌else◌,
}
use defi_toolbox_avalanche.Common.Int.{pos, negsuc}
use defi_toolbox_avalanche.Formulas.MulDiv.{◌>>=◌, big_div}
use defi_toolbox_avalanche.Formulas.MulDiv.Ceiling.{big_div-some}
use defi_toolbox_avalanche.Formulas.TickMath.{
  bit_set, first_magic, magics, max_uint256, scale, round_ratio, start_ratio, is_positive,
  get_sqrt_ratio_at_tick,
}

-- Every factor is below one, in units of 2^-128.
abbrev pub AreFactors : List (ℕ × ℕ) → Type 0
AreFactors [] = Unit
AreFactors ((_, magic) ∷ ms) = (magic < 2 ^ 128) × AreFactors ms

pub magics-AreFactors : AreFactors magics
magics-AreFactors = omega arith

-- All factors applied.
scale_all : List (ℕ × ℕ) → ℕ → ℕ
scale_all [] ratio = ratio
scale_all ((_, magic) ∷ ms) ratio = scale_all ms (ratio * magic / 2 ^ 128)

pub factor-le : (r m : ℕ) → m < 2 ^ 128 → r * m / 2 ^ 128 ≤ r
factor-le r m h = let part : r * m ≤ r * 2 ^ 128 = mul-le-mul_left r (omega arith) in omega arith

scaled_mono : (r r' m : ℕ) → r' ≤ r → r' * m / 2 ^ 128 ≤ r * m / 2 ^ 128
scaled_mono r r' m h = let product : r' * m ≤ r * m = mul-le-mul_right m h in omega arith

-- One round of the loop.
abbrev pub scaled : ℕ → ℕ → ℕ → ℕ → ℕ
scaled a bit m r = if bit_set a bit then r * m / 2 ^ 128 else r

pub scaled-le : (a bit m r : ℕ) → m < 2 ^ 128 → scaled a bit m r ≤ r
scaled-le a bit m r h = ground (arith, factor-le r m h)

le-scaled : (a bit m r r' : ℕ) → m < 2 ^ 128 → r' ≤ r → r' * m / 2 ^ 128 ≤ scaled a bit m r
le-scaled a bit m r r' h le = ground (arith, factor-le r m h, scaled_mono r r' m le)

pub scale-le : (ms : List (ℕ × ℕ)) (a r : ℕ) → AreFactors ms → scale ms a r ≤ r
unfolding scale
scale-le [] a r h = omega arith
scale-le ((bit, m) ∷ ms) a r h =
    le_trans (scale-le ms a (scaled a bit m r) h.1) (scaled-le a bit m r h.0)

scale_all-le-scale :
    (ms : List (ℕ × ℕ)) (a r r' : ℕ) → AreFactors ms → r' ≤ r → scale_all ms r' ≤ scale ms a r
unfolding scale scale_all
scale_all-le-scale [] a r r' h le = le
scale_all-le-scale ((bit, m) ∷ ms) a r r' h le =
    scale_all-le-scale ms a (scaled a bit m r) (r' * m / 2 ^ 128) h.1
      (le-scaled a bit m r r' h.0 le)

pub start_ratio_bounds : (a : ℕ) → (first_magic ≤ start_ratio a) × (start_ratio a ≤ 2 ^ 128)
unfolding start_ratio
start_ratio_bounds a = ground arith

least : 2 ^ 52 ≤ scale_all magics first_magic
unfolding scale_all
least = omega arith

pub ratio_bounds :
    (a : ℕ) → (2 ^ 52 ≤ scale magics a (start_ratio a)) × (scale magics a (start_ratio a) ≤ 2 ^ 128)
ratio_bounds a = (
  le_trans least (
      scale_all-le-scale magics a (start_ratio a) first_magic magics-AreFactors
        (start_ratio_bounds a).0),
  le_trans (scale-le magics a (start_ratio a) magics-AreFactors) (start_ratio_bounds a).1,
)

round_bounds :
    (r lo hi : ℕ)
    → lo * 2 ^ 32 < r + 2 ^ 32
    → r ≤ hi * 2 ^ 32
    → (lo ≤ round_ratio r) × (round_ratio r ≤ hi)
unfolding round_ratio
round_bounds r lo hi low high = ground arith

-- The ratio of a positive tick before rounding.
inverse_bounds :
    (r : ℕ)
    → 2 ^ 52 ≤ r
    → r ≤ 2 ^ 128
    → (2 ^ 128 ≤ max_uint256 / r + 1) × (max_uint256 / r ≤ 2 ^ 204)
inverse_bounds r low high =
    let positive : 0 < r = omega arith in
    let scaled_low : 2 ^ 128 * r ≤ 2 ^ 128 * 2 ^ 128 = mul-le-mul_left (2 ^ 128) high in
    let scaled_high : 2 ^ 204 * 2 ^ 52 ≤ 2 ^ 204 * r = mul-le-mul_left (2 ^ 204) low in
    let least_quotient : 2 ^ 128 - 1 ≤ max_uint256 / r =
      (le-div_iff_mul-le positive).1 (omega arith) in
    let below : max_uint256 / r < 2 ^ 204 = (div-lt_iff_lt-mul positive).1 (omega arith) in
    (omega arith, omega arith)

positive_round :
    (n ratio : ℕ)
    → 0 < n
    → 0 < ratio
    → ((if is_positive (pos n) then big_div max_uint256 ratio else some ratio)
        >>= (λ ratio'. some (round_ratio ratio')))
      ≡ some (round_ratio (max_uint256 / ratio))
positive_round n ratio h positive =
    let up : ltb 0 n ≡ true = ground arith in rw (up, big_div-some max_uint256 ratio positive)

-- The square-root price of a positive tick is at least 2^96, which is price 1, and below 2^173.
pub get_sqrt_ratio_at_tick_positive :
    (n : ℕ)
    → 0 < n
    → (r : ℕ) × (get_sqrt_ratio_at_tick (pos n) ≡ some r) × (2 ^ 96 ≤ r) × (r < 2 ^ 173)
unfolding get_sqrt_ratio_at_tick
get_sqrt_ratio_at_tick_positive n h =
    let ratio = scale magics n (start_ratio n) in
    let (low, high) = ratio_bounds n in
    let (least_quotient, greatest_quotient) = inverse_bounds ratio low high in
    let (some_price, top) =
      round_bounds (max_uint256 / ratio) (2 ^ 96) (2 ^ 172) (omega arith) (omega arith) in
    (
      round_ratio (max_uint256 / ratio),
      positive_round n ratio h (omega arith),
      some_price,
      omega arith,
    )

-- The square-root price of a negative tick is at least 1 and at most 2^96.
pub get_sqrt_ratio_at_tick_negative :
    (n : ℕ) → (r : ℕ) × (get_sqrt_ratio_at_tick (negsuc n) ≡ some r) × (0 < r) × (r ≤ 2 ^ 96)
unfolding get_sqrt_ratio_at_tick
get_sqrt_ratio_at_tick_negative n =
    let ratio = scale magics (suc n) (start_ratio (suc n)) in
    let (low, high) = ratio_bounds (suc n) in
    let (some_price, top) = round_bounds ratio 1 (2 ^ 96) (omega arith) (omega arith) in
    (round_ratio ratio, refl, some_price, top)
