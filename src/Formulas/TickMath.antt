-- ===== src/Formulas/TickMath.antt =====
-- formulas/shared.go and formulas/shared_u256.go: the square-root price of a tick, over math/big and
-- over uint256. A tick is an int32; the magnitude of -2^31 is its own bit pattern, so the magnitude
-- of the integer stands for `absTick`.
pub mod Agree
pub mod Bounds
pub mod Cache
use defi_toolbox_avalanche.Common.{
  ℕ, suc, ◌+◌, ◌-◌, ◌*◌, ◌/◌, ◌%◌, ◌^◌, Bool, true, false, Option, none, some, List, [], ◌∷◌, ltb,
  ◌==◌, if◌then◌else◌,
}
use defi_toolbox_avalanche.Common.Int.{ℤ, pos, negsuc, nat_abs}
use defi_toolbox_avalanche.Uint256.{Uint256, word}
use defi_toolbox_avalanche.Formulas.MulDiv.{◌>>=◌, big_div}

-- `absTick & bit != 0`, where `bit` is a power of two.
abbrev pub bit_set : ℕ → ℕ → Bool
bit_set n bit = n / bit % 2 == 1

-- `tick > 0`
abbrev pub is_positive : ℤ → Bool
is_positive (pos n) = ltb 0 n
is_positive (negsuc n) = false

abbrev pub max_uint256 : ℕ
max_uint256 = 2 ^ 256 - 1

-- The ratio for an odd tick.
abbrev pub first_magic : ℕ
first_magic = 0xfffcb933bd6fad37aa2d162d1a594001

-- `magics`: a bit and the factor for it.
abbrev pub magics : List (ℕ × ℕ)
magics =
    (0x2, 0xfff97272373d413259a46990580e213a)
    ∷ (0x4, 0xfff2e50f5f656932ef12357cf3c7fdcc)
    ∷ (0x8, 0xffe5caca7e10e4e61c3624eaa0941cd0)
    ∷ (0x10, 0xffcb9843d60f6159c9db58835c926644)
    ∷ (0x20, 0xff973b41fa98c081472e6896dfb254c0)
    ∷ (0x40, 0xff2ea16466c96a3843ec78b326b52861)
    ∷ (0x80, 0xfe5dee046a99a2a811c461f1969c3053)
    ∷ (0x100, 0xfcbe86c7900a88aedcffc83b479aa3a4)
    ∷ (0x200, 0xf987a7253ac413176f2b074cf7815e54)
    ∷ (0x400, 0xf3392b0822b70005940c7a398e4b70f3)
    ∷ (0x800, 0xe7159475a2c29b7443b29c7fa6e889d9)
    ∷ (0x1000, 0xd097f3bdfd2022b8845ad8f792aa5825)
    ∷ (0x2000, 0xa9f746462d870fdf8a65dc1f90e061e5)
    ∷ (0x4000, 0x70d869a156d2a1b890bb3df62baf32f7)
    ∷ (0x8000, 0x31be135f97d08fd981231505542fcfa6)
    ∷ (0x10000, 0x9aa508b5b7a84e1c677de54f3e99bc9)
    ∷ (0x20000, 0x5d6af8dedb81196699c329225ee604)
    ∷ (0x40000, 0x2216e584f5fa1ea926041bedfe98)
    ∷ (0x80000, 0x48a170391f7dc42444e8fa2)
    ∷ []

-- `for _, m := range magics`
unfoldable pub scale : List (ℕ × ℕ) → ℕ → ℕ → ℕ
scale [] abs_tick ratio = ratio
scale ((bit, magic) ∷ ms) abs_tick ratio =
    scale ms abs_tick (if bit_set abs_tick bit then ratio * magic / 2 ^ 128 else ratio)

-- The ratio shifted right by 32 bits, rounded up.
unfoldable pub round_ratio : ℕ → ℕ
round_ratio ratio = if ratio % 2 ^ 32 == 0 then ratio / 2 ^ 32 else ratio / 2 ^ 32 + 1

unfoldable pub start_ratio : ℕ → ℕ
start_ratio abs_tick = if bit_set abs_tick 0x1 then first_magic else 2 ^ 128

unfoldable pub get_sqrt_ratio_at_tick : ℤ → Option ℕ
get_sqrt_ratio_at_tick tick = do
  let abs_tick = nat_abs tick
  let ratio = scale magics abs_tick (start_ratio abs_tick)
  ratio' ← if is_positive tick then big_div max_uint256 ratio else some ratio
  some (round_ratio ratio')

-- `tickMagicsU256`
abbrev pub tick_magics_u256 : List ℕ
tick_magics_u256 =
    0xfffcb933bd6fad37aa2d162d1a594001 ∷ 0xfff97272373d413259a46990580e213a
    ∷ 0xfff2e50f5f656932ef12357cf3c7fdcc ∷ 0xffe5caca7e10e4e61c3624eaa0941cd0
    ∷ 0xffcb9843d60f6159c9db58835c926644 ∷ 0xff973b41fa98c081472e6896dfb254c0
    ∷ 0xff2ea16466c96a3843ec78b326b52861 ∷ 0xfe5dee046a99a2a811c461f1969c3053
    ∷ 0xfcbe86c7900a88aedcffc83b479aa3a4 ∷ 0xf987a7253ac413176f2b074cf7815e54
    ∷ 0xf3392b0822b70005940c7a398e4b70f3 ∷ 0xe7159475a2c29b7443b29c7fa6e889d9
    ∷ 0xd097f3bdfd2022b8845ad8f792aa5825 ∷ 0xa9f746462d870fdf8a65dc1f90e061e5
    ∷ 0x70d869a156d2a1b890bb3df62baf32f7 ∷ 0x31be135f97d08fd981231505542fcfa6
    ∷ 0x9aa508b5b7a84e1c677de54f3e99bc9 ∷ 0x5d6af8dedb81196699c329225ee604
    ∷ 0x2216e584f5fa1ea926041bedfe98 ∷ 0x48a170391f7dc42444e8fa2 ∷ []

-- `bits`
abbrev pub tick_bits : List ℕ
tick_bits =
    0x1 ∷ 0x2 ∷ 0x4 ∷ 0x8 ∷ 0x10 ∷ 0x20 ∷ 0x40 ∷ 0x80 ∷ 0x100 ∷ 0x200 ∷ 0x400 ∷ 0x800 ∷ 0x1000
    ∷ 0x2000 ∷ 0x4000 ∷ 0x8000 ∷ 0x10000 ∷ 0x20000 ∷ 0x40000 ∷ 0x80000 ∷ []

-- `a[1:]` as the loop reads it, and the first entry of a non-empty array.
abbrev pub rest : List ℕ → List ℕ
rest [] = []
rest (x ∷ xs) = xs

abbrev pub first : List ℕ → ℕ
first [] = 0
first (x ∷ xs) = x

module _ (u : Uint256) where
  -- `for i := 1; i < 20; i++`, over the two arrays from index 1.
  unfoldable pub scale_u256 : List ℕ → List ℕ → ℕ → ℕ → ℕ
  scale_u256 [] ms abs_tick ratio = ratio
  scale_u256 (bit ∷ bits) [] abs_tick ratio = ratio
  scale_u256 (bit ∷ bits) (magic ∷ ms) abs_tick ratio =
      scale_u256 bits ms abs_tick
        (if bit_set abs_tick bit then u.rsh (u.mul ratio magic) 128 else ratio)

  unfoldable pub round_ratio_u256 : ℕ → ℕ
  round_ratio_u256 ratio =
      let rem = u.and_of ratio 0xFFFFFFFF in
      let result = u.rsh ratio 32 in if rem == 0 then result else u.add result 1

  unfoldable pub get_sqrt_ratio_at_tick_u256_compute : ℤ → ℕ
  get_sqrt_ratio_at_tick_u256_compute tick =
      let abs_tick = nat_abs tick in
      let start = if bit_set abs_tick 0x1 then first tick_magics_u256 else u.lsh 1 128 in
      let ratio = scale_u256 (rest tick_bits) (rest tick_magics_u256) abs_tick start in
      round_ratio_u256 (if is_positive tick then u.div max_uint256 ratio else ratio)
