-- ===== src/Formulas/V3/Next.antt =====
-- formulas/pool_v3.go, nextInitializedTick: the tick that the search of a word gives.
use native.Mathlib.Nat.{
  mod-lt, div-lt_iff_lt-mul, le-div_iff_mul-le, mul_assoc, pow-le-pow_right, pow-suc, div-eq_of_lt,
  zero-div, div-add-mod', mul-div_left, div-div-eq-div-mul,
}
use mathlib.Core.Path.{subst}
use defi_toolbox_avalanche.Common.{
  ℕ, suc, ◌+◌, ◌-◌, ◌*◌, ◌/◌, ◌%◌, ◌^◌, ◌≤◌, ◌<◌, ◌≡◌, ◌∙◌, sym, ap, true, false, arith, ltb, ◌==◌,
  Bool-cases, inl, inr,
}
use defi_toolbox_avalanche.Uint256.{Uint256, IsUint256, word}
use defi_toolbox_avalanche.Uint256.Bits.{two_pow_pos, two_pow-add}
use defi_toolbox_avalanche.Formulas.V3.Bitmap.{lowest_from, masked_down, masked_up}
use defi_toolbox_avalanche.Formulas.V3.Bits.{bit, IsClear, bit-mod, all_clear, lowest_from_lem}

-- The highest bit of a number that is not 0.
top_at : (m l : ℕ) → 2 ^ l ≤ m → m < 2 ^ suc l → (bit m l ≡ 1) × ((i : ℕ) → l < i → bit m i ≡ 0)
top_at m l low high =
    let some_quotient : 1 ≤ m / 2 ^ l = (le-div_iff_mul-le (two_pow_pos l)).1 (omega arith) in
    let small : m / 2 ^ l < 2 =
      (div-lt_iff_lt-mul (two_pow_pos l)).1 (omega (arith, pow-suc 2 l)) in
    (
      omega arith,
      λ i above.
          let bound : 2 ^ suc l ≤ 2 ^ i = pow-le-pow_right (omega arith) above in
          ap (λ q. q % 2) (div-eq_of_lt (omega arith)),
    )

top_bit :
    (m len : ℕ)
    → 0 < len
    → 2 ^ (len - 1) ≤ m
    → m < 2 ^ len
    → (bit m (len - 1) ≡ 1) × ((i : ℕ) → len - 1 < i → bit m i ≡ 0)
top_bit m len p low high = top_at m (len - 1) low (subst (λ k. m < 2 ^ k) (omega arith) high)

exponent_le : (j b m : ℕ) → 2 ^ j ≤ m → m < 2 ^ (b + 1) → j ≤ b
exponent_le j b m low high = elim (Bool-cases (ltb b j)) [
  | inl above ↦
      let bound : 2 ^ (b + 1) ≤ 2 ^ j = pow-le-pow_right (omega arith) (ground arith) in
      absurd (omega arith)
  | inr within ↦ ground arith
]

-- A bit that is set is below the bits of the number.
set_bit_lt : (m n r : ℕ) → m < 2 ^ n → bit m r ≡ 1 → r < n
set_bit_lt m n r small set = elim (Bool-cases (ltb r n)) [
  | inl below ↦ ground arith
  | inr above ↦
      let bound : 2 ^ n ≤ 2 ^ r = pow-le-pow_right (omega arith) (ground arith) in
      let none_left : bit m r ≡ 0 = ap (λ q. q % 2) (div-eq_of_lt (omega arith)) in
      absurd (omega arith)
]

-- The bits at and above b of a number without its b lowest bits, and those below.
bit-high : (x b i : ℕ) → b ≤ i → bit (x / 2 ^ b * 2 ^ b) i ≡ bit x i
bit-high x b i h =
    let d = i - b in
    let split : 2 ^ i ≡ 2 ^ b * 2 ^ d = ap (λ k. 2 ^ k) (omega arith) ∙ two_pow-add b d in
    ap (λ q. q % 2)
      (ap (λ z. (x / 2 ^ b * 2 ^ b) / z) split
        ∙ sym (div-div-eq-div-mul (x / 2 ^ b * 2 ^ b) (2 ^ b) (2 ^ d))
        ∙ ap (λ z. z / 2 ^ d) (mul-div_left (x / 2 ^ b) (two_pow_pos b))
        ∙ div-div-eq-div-mul x (2 ^ b) (2 ^ d)
        ∙ ap (λ z. x / z) (sym split))

bit-low : (q b i : ℕ) → i < b → bit (q * 2 ^ b) i ≡ 0
bit-low q b i h =
    let d = b - (i + 1) in
    let split : 2 ^ b ≡ 2 ^ d * 2 * 2 ^ i =
      ap (λ k. 2 ^ k) (omega arith) ∙ two_pow-add (suc d) i ∙ ap (λ z. z * 2 ^ i) (pow-suc 2 d) in
    let shifted : q * 2 ^ b / 2 ^ i ≡ q * 2 ^ d * 2 =
      ap (λ z. q * z / 2 ^ i) split
      ∙ ap (λ z. z / 2 ^ i)
          (sym (mul_assoc q (2 ^ d * 2) (2 ^ i))
            ∙ ap (λ z. z * 2 ^ i) (sym (mul_assoc q (2 ^ d) 2)))
      ∙ mul-div_left (q * 2 ^ d * 2) (two_pow_pos i) in
    omega (arith, shifted)

set_from : (q b r : ℕ) → bit (q * 2 ^ b) r ≡ 1 → b ≤ r
set_from q b r set = elim (Bool-cases (ltb r b)) [
  | inl below ↦ let unset = bit-low q b r (ground arith) in absurd (omega arith)
  | inr above ↦ ground arith
]

module _ (u : Uint256) (h : IsUint256 u) where
  two_pow_fits : (k : ℕ) → k ≤ 255 → 2 ^ k ≤ 2 ^ 255
  two_pow_fits k small = pow-le-pow_right (omega arith) small

  mask256 : u.sub (u.lsh 1 256) 1 ≡ 2 ^ 256 - 1
  mask256 =
      let none_left : u.lsh 1 256 ≡ 0 = h.lsh_lem 1 256 ∙ omega arith in
      rw none_left (h.sub_lem 0 1 (omega arith) (omega arith) ∙ omega arith)

  mask_of : (k : ℕ) → k ≤ 256 → u.sub (u.lsh 1 k) 1 ≡ 2 ^ k - 1
  mask_of k small = elim (Bool-cases (k == 256)) [
    | inl whole ↦
        let eq : k ≡ 256 = ground arith in
        subst (λ k. u.sub (u.lsh 1 k) 1 ≡ 2 ^ k - 1) (sym eq) mask256
    | inr part ↦
        let bound = two_pow_fits k (ground arith) in
        let shifted : u.lsh 1 k ≡ 2 ^ k = h.lsh_lem 1 k ∙ omega arith in
        rw shifted (h.sub_lem (2 ^ k) 1 (omega arith) (omega arith) ∙ omega (arith, two_pow_pos k))
  ]

  masked_down_lem : (x b : ℕ) → b ≤ 255 → masked_down u x b ≡ x % 2 ^ (b + 1)
  unfolding masked_down
  masked_down_lem x b small =
      rw (masked_down, mask_of (b + 1) (omega arith)) (h.and_of-mask x (b + 1))

  masked_up_lem : (x b : ℕ) → x < word → b ≤ 255 → masked_up u x b ≡ x / 2 ^ b * 2 ^ b
  unfolding masked_up
  masked_up_lem x b hx small =
      let bound = two_pow_fits b small in
      let inverse : u.not_of (2 ^ b - 1) ≡ word - 1 - (2 ^ b - 1) =
        h.not_of_lem (2 ^ b - 1) (omega arith) in
      let kept : u.and_of (u.not_of (2 ^ b - 1)) (2 ^ 256 - 1) ≡ u.not_of (2 ^ b - 1) =
        h.and_of-mask (u.not_of (2 ^ b - 1)) 256 ∙ omega (arith, inverse) in
      rw (masked_up, mask_of b (omega arith), kept) (h.and_of-not_of x b hx (omega arith))

  -- The bits of a word that the search down finds.
  pub down_bits :
      (x b : ℕ)
      → b ≤ 255
      → ((masked_down u x b == 0) ≡ false)
      → let j = u.bit_len (masked_down u x b) - 1 in
        (0 < u.bit_len (masked_down u x b)) × (j ≤ b) × (bit x j ≡ 1) × IsClear x (suc j) (suc b)
  down_bits x b small some_bit =
      let m = x % 2 ^ (b + 1) in
      let j = u.bit_len m - 1 in
      let masked = masked_down_lem x b small in
      let positive : 0 < m = (let shown = rw masked at some_bit in ground arith) in
      let (len, low, high) = h.bit_len_lem m positive in
      let (set, none_above) = top_bit m (u.bit_len m) len low high in
      let inside : j ≤ b = exponent_le j b m low (mod-lt x (two_pow_pos (b + 1))) in
      rw masked (
        len,
        inside,
        sym (bit-mod (b + 1) x j (omega arith)) ∙ set,
        λ i from to. sym (bit-mod (b + 1) x i (omega arith)) ∙ none_above i from,
      )

  pub down-IsClear : (x b : ℕ) → b ≤ 255 → ((masked_down u x b == 0) ≡ true) → IsClear x 0 (suc b)
  down-IsClear x b small no_bit i from to =
      let m = x % 2 ^ (b + 1) in
      let zero_m : m ≡ 0 = (let shown = rw (masked_down_lem x b small) at no_bit in ground arith) in
      sym (bit-mod (b + 1) x i (omega arith))
      ∙ ap (λ z. bit z i) zero_m
      ∙ ap (λ q. q % 2) (zero-div (2 ^ i))

  -- The bits of a word that the search up finds.
  pub up_bits :
      (x b : ℕ)
      → x < word
      → b ≤ 255
      → ((masked_up u x b == 0) ≡ false)
      → let j = lowest_from 4 0 (masked_up u x b) in
        (b ≤ j) × (j ≤ 255) × (bit x j ≡ 1) × IsClear x b j
  up_bits x b hx small some_bit =
      let y = x / 2 ^ b * 2 ^ b in
      let masked = masked_up_lem x b hx small in
      let positive : 0 < y = (let shown = rw masked at some_bit in ground arith) in
      let below : y < 2 ^ 256 = omega (arith, div-add-mod' x (2 ^ b)) in
      rw masked (elim (lowest_from_lem 4 0 y) [
        | inl clear ↦
            absurd
              (let nothing = all_clear 256 y below (λ i from to. clear i from to) in omega arith)
        | inr (set, _, clear) ↦
            let r = lowest_from 4 0 y in
            let from_b : b ≤ r = set_from (x / 2 ^ b) b r set in
            let to_255 = set_bit_lt y 256 r below set in
            (
              from_b,
              omega arith,
              sym (bit-high x b r from_b) ∙ set,
              λ i from to. sym (bit-high x b i from) ∙ clear i (omega arith) to,
            )
      ])

  pub up-IsClear :
      (x b : ℕ) → x < word → b ≤ 255 → ((masked_up u x b == 0) ≡ true) → IsClear x b 256
  up-IsClear x b hx small no_bit i from to =
      let y = x / 2 ^ b * 2 ^ b in
      let zero_y : y ≡ 0 =
        (let shown = rw (masked_up_lem x b hx small) at no_bit in ground arith) in
      sym (bit-high x b i from) ∙ ap (λ z. bit z i) zero_y ∙ ap (λ q. q % 2) (zero-div (2 ^ i))
