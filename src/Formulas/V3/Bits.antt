-- ===== src/Formulas/V3/Bits.antt =====
-- formulas/pool_v3.go, nextInitializedTick: single bits of a word of the bitmap.
use native.Mathlib.Nat.{div-one, pow-suc, pow-succ', div-div-eq-div-mul}
use defi_toolbox_avalanche.Common.{
  ℕ, zero, suc, ◌+◌, ◌-◌, ◌*◌, ◌/◌, ◌%◌, ◌^◌, ◌≤◌, ◌<◌, ◌≡◌, ◌∙◌, sym, ap, refl, none, some, arith,
  ltb, ◌==◌, Bool-cases, inl, inr, ◌⊎◌,
}
use defi_toolbox_avalanche.Uint256.Bits.{mod_double, two_pow_pos, two_pow-add}
use defi_toolbox_avalanche.Formulas.V3.Bitmap.{lowest_bit, lowest_from}

-- The bit of a number at a position.
abbrev pub bit : ℕ → ℕ → ℕ
bit n i = n / 2 ^ i % 2

-- Every bit from one position up to before another is 0.
abbrev pub IsClear : ℕ → ℕ → ℕ → Type 0
IsClear n from to = (i : ℕ) → from ≤ i → i < to → bit n i ≡ 0

bit-zero : (n : ℕ) → bit n 0 ≡ n % 2
bit-zero n = ap (λ q. q % 2) (div-one n)

-- The lower bit of the half is the next bit.
bit-suc : (n i : ℕ) → bit n (suc i) ≡ bit (n / 2) i
bit-suc n i =
    ap (λ q. q % 2) (ap (λ d. n / d) (pow-succ' 2 i) ∙ sym (div-div-eq-div-mul n 2 (2 ^ i)))

halves : (k n : ℕ) → n % 2 ^ suc k ≡ n / 2 % 2 ^ k * 2 + n % 2
halves k n = ap (λ m. n % m) (pow-suc 2 k) ∙ mod_double n (2 ^ k) (two_pow_pos k)

-- The bits below k of the remainder by 2^k.
pub bit-mod : (k n i : ℕ) → i < k → bit (n % 2 ^ k) i ≡ bit n i
bit-mod zero n i h = absurd (omega arith)
bit-mod (suc k) n zero h =
    bit-zero (n % 2 ^ suc k) ∙ (rw (halves k n) (omega arith)) ∙ sym (bit-zero n)
bit-mod (suc k) n (suc i) h =
    bit-suc (n % 2 ^ suc k) i
    ∙ ap (λ m. bit m i) (rw (halves k n) (omega arith))
    ∙ bit-mod k (n / 2) i (omega arith)
    ∙ sym (bit-suc n i)

-- A number below 2^k whose bits are all 0.
pub all_clear : (k n : ℕ) → n < 2 ^ k → IsClear n 0 k → n ≡ 0
all_clear zero n small clear = omega arith
all_clear (suc k) n small clear =
    let half : n / 2 ≡ 0 =
      all_clear k (n / 2) (omega (arith, pow-suc 2 k))
        (λ i from to. sym (bit-suc n i) ∙ clear (suc i) (omega arith) (omega arith)) in
    let low : bit n 0 ≡ 0 = clear 0 (omega arith) (omega arith) in omega (arith, bit-zero n)

IsClear-from : (n from to : ℕ) → bit n from ≡ 0 → IsClear n (from + 1) to → IsClear n from to
IsClear-from n from to first clear i least most = elim (Bool-cases (i == from)) [
  | inl same ↦ let eq : i ≡ from = ground arith in ap (bit n) eq ∙ first
  | inr other ↦ clear i (ground arith) most
]

joined : (n from mid to : ℕ) → IsClear n from mid → IsClear n mid to → IsClear n from to
joined n from mid to low high i least most = elim (Bool-cases (ltb i mid)) [
  | inl below ↦ low i least (ground arith)
  | inr above ↦ high i (ground arith) most
]

-- The first bit found.
lowest_bit_lem :
    (fuel b limb : ℕ)
    → ((lowest_bit fuel b limb ≡ none) × IsClear limb b (b + fuel))
      ⊎ ((r : ℕ) × (lowest_bit fuel b limb ≡ some r)
          × (b ≤ r)
          × (r < b + fuel)
          × (bit limb r ≡ 1)
          × IsClear limb b r)
unfolding lowest_bit
lowest_bit_lem zero b limb = inl (refl, λ i from to. absurd (omega arith))
lowest_bit_lem (suc fuel) b limb = elim (Bool-cases (limb / 2 ^ b % 2 == 1)) [
  | inl set ↦
      rw (lowest_bit, set)
        (inr (b, refl, omega arith, omega arith, ground arith, λ i from to. absurd (omega arith)))
  | inr unset ↦
      let zero_bit : bit limb b ≡ 0 = ground arith in
      elim (lowest_bit_lem fuel (b + 1) limb) [
        | inl (missing, clear) ↦
            rw (lowest_bit, unset, missing)
              (inl (
                refl,
                λ i from to.
                    IsClear-from limb b (b + suc fuel) zero_bit (λ j f t. clear j f (omega arith)) i
                      from to,
              ))
        | inr (r, found, from, to, set, clear) ↦
            rw (lowest_bit, unset, found)
              (inr (r, refl, omega arith, omega arith, set, IsClear-from limb b r zero_bit clear))
      ]
]

-- The bits of the limb w.
limb-bit : (w n i : ℕ) → i < 64 → bit (n / 2 ^ (64 * w) % 2 ^ 64) i ≡ bit n (64 * w + i)
limb-bit w n i h =
    bit-mod 64 (n / 2 ^ (64 * w)) i h
    ∙ ap (λ q. q % 2)
        (div-div-eq-div-mul n (2 ^ (64 * w)) (2 ^ i)
          ∙ ap (λ d. n / d) (sym (two_pow-add (64 * w) i)))

limb-IsClear :
    (w n r : ℕ)
    → IsClear (n / 2 ^ (64 * w) % 2 ^ 64) 0 r
    → r ≤ 64
    → (top : ℕ) → top ≡ 64 * w + r
    → IsClear n (64 * w) top
limb-IsClear w n r clear small top eq i from to =
    ap (bit n) (omega arith)
    ∙ sym (limb-bit w n (i - 64 * w) (omega arith))
    ∙ clear (i - 64 * w) (omega arith) (omega arith)

-- The first bit found, from the limb w on.
pub lowest_from_lem :
    (fuel w n : ℕ)
    → IsClear n (64 * w) (64 * (w + fuel))
      ⊎ ((bit n (lowest_from fuel w n) ≡ 1)
          × (64 * w ≤ lowest_from fuel w n)
          × IsClear n (64 * w) (lowest_from fuel w n))
unfolding lowest_from
lowest_from_lem zero w n = inl (λ i from to. absurd (omega arith))
lowest_from_lem (suc fuel) w n =
    let limb = n / 2 ^ (64 * w) % 2 ^ 64 in
    elim (lowest_bit_lem 64 0 limb) [
      | inl (missing, clear) ↦
          let here : IsClear n (64 * w) (64 * (w + 1)) =
            limb-IsClear w n 64 clear (omega arith) (64 * (w + 1)) (omega arith) in
          elim (lowest_from_lem fuel (w + 1) n) [
            | inl later ↦ inl (
                joined n (64 * w) (64 * (w + 1)) (64 * (w + suc fuel)) here
                  (λ i from to. later i from (omega arith)))
            | inr (set, least, later) ↦
                rw (lowest_from, missing)
                  (inr (
                    set,
                    omega arith,
                    joined n (64 * w) (64 * (w + 1)) (lowest_from fuel (w + 1) n) here later,
                  ))
          ]
      | inr (r, found, from, to, set, clear) ↦
          rw (lowest_from, found)
            (inr (
              ap (bit n) (omega arith) ∙ sym (limb-bit w n r to) ∙ set,
              omega arith,
              limb-IsClear w n r clear (omega arith) (w * 64 + r) (omega arith),
            ))
    ]
