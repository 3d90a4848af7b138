-- ===== src/Uint256/Bits.antt =====
-- A mask of k ones keeps the k lowest bits.
use Prim.Native.Nat.{min, bit_and, digits, bit_and-bitwise}
use native.Mathlib.Nat.{
  mul_assoc, mul-sub, div-lt_iff_lt-mul, div-one, mul-one, div-div-eq-div-mul, pow-succ', pow-suc,
  div-add-mod', mod-lt, mod-eq_of_lt, mul-add-mod_self_right,
}
use defi_toolbox_avalanche.Common.{
  ℕ, zero, suc, ◌+◌, ◌-◌, ◌*◌, ◌/◌, ◌%◌, ◌^◌, ◌≤◌, ◌<◌, ◌≡◌, refl, ◌∙◌, ap, sym, arith, ◌==◌,
  if◌then◌else◌, false, Bool-cases, inl, inr,
}

-- The digits of a conjunction, with more fuel than it needs.
conj : ℕ → ℕ → ℕ → ℕ
conj fuel a b = digits (λ x. zero) min fuel a b

conj_more : (f g a b : ℕ) → a ≤ f → a ≤ g → conj f a b ≡ conj g a b
unfolding conj
conj_more zero zero a b p q = refl
conj_more zero (suc g) zero b p q = refl
conj_more zero (suc g) (suc a) b p q = absurd (omega arith)
conj_more (suc f) zero zero b p q = refl
conj_more (suc f) zero (suc a) b p q = absurd (omega arith)
conj_more (suc f) (suc g) zero b p q = refl
conj_more (suc f) (suc g) (suc a) b p q =
    omega (arith, conj_more f g (suc a / 2) (b / 2) (omega arith) (omega arith))

bit_and-conj : (a b : ℕ) → bit_and a b ≡ conj a a b
unfolding conj
bit_and-conj a b = bit_and-bitwise a b

-- The lowest bit apart from the rest.
bit_and_halve : (a b : ℕ) → bit_and a b ≡ bit_and (a / 2) (b / 2) * 2 + min (a % 2) (b % 2)
unfolding conj
bit_and_halve zero b = omega (arith, bit_and-bitwise 0 b, bit_and-bitwise 0 (b / 2))
bit_and_halve (suc a) b = omega (
  arith,
  bit_and-conj (suc a) b,
  bit_and-conj (suc a / 2) (b / 2),
  conj_more a (suc a / 2) (suc a / 2) (b / 2) (omega arith) (omega arith),
)

bit_and-zero_below : (n a : ℕ) → a ≤ n → bit_and a 0 ≡ 0
bit_and-zero_below n zero h = omega (arith, bit_and-bitwise 0 0)
bit_and-zero_below zero (suc a) h = absurd (omega arith)
bit_and-zero_below (suc n) (suc a) h =
    omega (arith, bit_and_halve (suc a) 0, bit_and-zero_below n (suc a / 2) (omega arith))

-- The remainder by an even number, from the halves.
pub mod_double : (a m : ℕ) → 0 < m → a % (m * 2) ≡ a / 2 % m * 2 + a % 2
mod_double a m h =
    let r = a / 2 % m * 2 + a % 2 in
    let halves : a / 2 / m * m + a / 2 % m ≡ a / 2 = div-add-mod' (a / 2) m in
    let small : a / 2 % m < m = mod-lt (a / 2) h in
    let whole : a ≡ a / 2 / m * (m * 2) + r = omega arith in
    ap (λ z. z % (m * 2)) whole
    ∙ mul-add-mod_self_right (a / 2 / m) (m * 2) r
    ∙ mod-eq_of_lt (omega arith)

pub two_pow_pos : (k : ℕ) → 0 < 2 ^ k
two_pow_pos zero = omega arith
two_pow_pos (suc k) = omega (arith, pow-suc 2 k, two_pow_pos k)

pub bit_and-mask : (a k : ℕ) → bit_and a (2 ^ k - 1) ≡ a % 2 ^ k
bit_and-mask a zero = omega (arith, bit_and-zero_below a a (omega arith))
bit_and-mask a (suc k) =
    let ones : 2 ^ suc k - 1 ≡ (2 ^ k - 1) * 2 + 1 = omega (arith, pow-suc 2 k, two_pow_pos k) in
    let half : (2 ^ suc k - 1) / 2 ≡ 2 ^ k - 1 = omega arith in
    let odd : (2 ^ suc k - 1) % 2 ≡ 1 = omega arith in
    omega (
      arith,
      bit_and_halve a (2 ^ suc k - 1),
      ap (bit_and (a / 2)) half,
      bit_and-mask (a / 2) k,
      mod_double a (2 ^ k) (two_pow_pos k),
      ap (λ m. a % m) (pow-suc 2 k),
    )

double_pow : (x k : ℕ) → x * 2 ^ suc k ≡ x * 2 ^ k * 2
double_pow x k = ap (λ z. x * z) (pow-suc 2 k) ∙ sym (mul_assoc x (2 ^ k) 2)

pow_pred : (n : ℕ) → 0 < n → 2 ^ n ≡ 2 ^ (n - 1) * 2
pow_pred zero p = absurd (omega arith)
pow_pred (suc n) p = pow-suc 2 n ∙ ap (λ m. 2 ^ m * 2) (omega arith)

bit_and_high_base : (j a : ℕ) → bit_and a ((2 ^ j - 1) * 1) ≡ a / 1 % 2 ^ j * 1
bit_and_high_base j a =
    rw (div-one a) (omega (arith, ap (bit_and a) (mul-one (2 ^ j - 1)), bit_and-mask a j))

-- The digits above the k lowest.
bit_and_high : (k j a : ℕ) → bit_and a ((2 ^ j - 1) * 2 ^ k) ≡ a / 2 ^ k % 2 ^ j * 2 ^ k
bit_and_high zero j a = bit_and_high_base j a
bit_and_high (suc k) j a =
    let m = (2 ^ j - 1) * 2 ^ k in
    let mask : (2 ^ j - 1) * 2 ^ suc k ≡ m * 2 = double_pow (2 ^ j - 1) k in
    let quarter : a / 2 ^ suc k ≡ a / 2 / 2 ^ k =
      sym (div-div-eq-div-mul a 2 (2 ^ k) ∙ ap (λ d. a / d) (sym (pow-succ' 2 k))) in
    let half : (m * 2) / 2 ≡ m = omega arith in
    let even : (m * 2) % 2 ≡ 0 = omega arith in
    let low : min (a % 2) 0 ≡ 0 = ground arith in
    rw (mask, bit_and_halve a (m * 2), half, even, bit_and_high k j (a / 2), quarter, low)
      (omega (arith, double_pow (a / 2 / 2 ^ k % 2 ^ j) k))

-- The bits that a number has: its length in binary.
bits_from : ℕ → ℕ → ℕ
bits_from zero a = 0
bits_from (suc fuel) a = let rest = bits_from fuel (a / 2) in if a == 0 then 0 else suc rest

unfoldable pub bits : ℕ → ℕ
unfolding bits_from
bits a = bits_from a a

bits_from-zero : (fuel : ℕ) → bits_from fuel 0 ≡ 0
unfolding bits_from
bits_from-zero zero = refl
bits_from-zero (suc fuel) = refl

one_more :
    (n a : ℕ)
    → 0 < n
    → 2 ^ (n - 1) ≤ a / 2
    → a / 2 < 2 ^ n
    → (0 < suc n) × (2 ^ (suc n - 1) ≤ a) × (a < 2 ^ suc n)
one_more n a pos low high =
    let same : 2 ^ (suc n - 1) ≡ 2 ^ n = ap (λ m. 2 ^ m) (omega arith) in
    (omega arith, omega (arith, pow_pred n pos, same), omega (arith, pow-suc 2 n))

bits_from_lem :
    (fuel a : ℕ)
    → a ≤ fuel
    → 0 < a
    → (0 < bits_from fuel a) × (2 ^ (bits_from fuel a - 1) ≤ a) × (a < 2 ^ bits_from fuel a)
unfolding bits_from
bits_from_lem zero a h p = absurd (omega arith)
bits_from_lem (suc fuel) a h p =
    let some_bit : (a == 0) ≡ false = ground arith in
    elim (Bool-cases (a / 2 == 0)) [
      | inl one ↦
          let none : bits_from fuel (a / 2) ≡ 0 =
            ap (bits_from fuel) (ground arith) ∙ bits_from-zero fuel in
          rw (some_bit, none) (omega arith, omega arith, ground arith)
      | inr more ↦
          let n = bits_from fuel (a / 2) in
          let (pos, low, high) : (0 < n) × (2 ^ (n - 1) ≤ a / 2) × (a / 2 < 2 ^ n) =
            bits_from_lem fuel (a / 2) (omega arith) (ground arith) in
          rw some_bit (one_more n a pos low high)
    ]

pub bits_lem : (a : ℕ) → 0 < a → (0 < bits a) × (2 ^ (bits a - 1) ≤ a) × (a < 2 ^ bits a)
unfolding bits
bits_lem a p = bits_from_lem a a (omega arith) p

pub two_pow-add : (j k : ℕ) → 2 ^ (j + k) ≡ 2 ^ j * 2 ^ k
two_pow-add j zero = ap (λ m. 2 ^ m) (omega arith) ∙ sym (mul-one (2 ^ j))
two_pow-add j (suc k) =
    ap (λ m. 2 ^ m) (omega arith)
    ∙ pow-suc 2 (j + k)
    ∙ ap (λ z. z * 2) (two_pow-add j k)
    ∙ mul_assoc (2 ^ j) (2 ^ k) 2
    ∙ ap (λ z. 2 ^ j * z) (sym (pow-suc 2 k))

-- A word of n bits without its k lowest.
pub bit_and-high_mask :
    (a n k : ℕ) → a < 2 ^ n → k ≤ n → bit_and a (2 ^ n - 1 - (2 ^ k - 1)) ≡ a / 2 ^ k * 2 ^ k
bit_and-high_mask a n k small h =
    let j = n - k in
    let split : 2 ^ n ≡ 2 ^ j * 2 ^ k = ap (λ m. 2 ^ m) (omega arith) ∙ two_pow-add j k in
    let mask : 2 ^ n - 1 - (2 ^ k - 1) ≡ (2 ^ j - 1) * 2 ^ k =
      omega (arith, mul-sub (2 ^ k) (2 ^ j) 1, two_pow_pos k, split) in
    let top : a / 2 ^ k < 2 ^ j = (div-lt_iff_lt-mul (two_pow_pos k)).1 (omega arith) in
    rw (mask, bit_and_high k j a) (ap (λ q. q * 2 ^ k) (mod-eq_of_lt top))
