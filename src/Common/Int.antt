-- ===== src/Common/Int.antt =====
-- Signed integers over the native numbers, and Go's operations on them. Sums and orders go through the
-- two parts of an integer, which are numbers.
use Prim.Native.Nat.{ℕ, suc, ◌+◌, ◌-◌, ◌*◌, ◌/◌, ◌%◌, ◌^◌, ◌≤◌, ◌<◌}
use mathlib.Core.Path.{◌≡◌}
use mathlib.Core.Bool.{Bool, true, false}
use mathlib.Core.List.{List, [], ◌∷◌}
use mathlib.Core.Option.{Option, none, some}
use native.Mathlib.Omega.{arith}
use defi_toolbox_avalanche.Common.Tests.{ltb, leb, ◌==◌, if◌then◌else◌}

-- `negsuc n` is -(n + 1).
pub data ℤ : Type 0 where
  pos : ℕ → ℤ
  negsuc : ℕ → ℤ

-- The magnitude.
abbrev pub nat_abs : ℤ → ℕ
nat_abs (pos n) = n
nat_abs (negsuc n) = suc n

abbrev pub pos_part : ℤ → ℕ
pos_part (pos n) = n
pos_part (negsuc n) = 0

abbrev pub neg_part : ℤ → ℕ
neg_part (pos n) = 0
neg_part (negsuc n) = suc n

-- The difference of two numbers.
abbrev pub difference : ℕ → ℕ → ℤ
difference a b = if leb b a then pos (a - b) else negsuc (b - a - 1)

infixl 65 ◌+ℤ◌ ◌-ℤ◌
infixl 70 ◌*ℤ◌
infix 50 ◌≤ℤ◌
unfoldable pub ◌+ℤ◌ : ℤ → ℤ → ℤ
a +ℤ b = difference (pos_part a + pos_part b) (neg_part a + neg_part b)

unfoldable pub ◌-ℤ◌ : ℤ → ℤ → ℤ
a -ℤ b = difference (pos_part a + neg_part b) (neg_part a + pos_part b)

unfoldable pub ◌*ℤ◌ : ℤ → ℤ → ℤ
a *ℤ b =
    difference (pos_part a * pos_part b + neg_part a * neg_part b)
      (pos_part a * neg_part b + neg_part a * pos_part b)

abbrev pub ◌≤ℤ◌ : ℤ → ℤ → Type 0
a ≤ℤ b = pos_part a + neg_part b ≤ pos_part b + neg_part a

abbrev pub ltb_ℤ : ℤ → ℤ → Bool
ltb_ℤ a b = ltb (pos_part a + neg_part b) (pos_part b + neg_part a)

abbrev pub same_int : ℤ → ℤ → Bool
same_int (pos m) (pos n) = m == n
same_int (negsuc m) (negsuc n) = m == n
same_int (pos m) (negsuc n) = false
same_int (negsuc m) (pos n) = false

-- `a / b`, which truncates, for a positive b.
unfoldable pub quot : ℤ → ℕ → ℤ
quot (pos n) b = pos (n / b)
quot (negsuc n) b = difference 0 (suc n / b)

-- `a >> k`, by 2^k = b.
unfoldable pub shift_down : ℤ → ℕ → ℤ
shift_down (pos n) b = pos (n / b)
shift_down (negsuc n) b = negsuc (n / b)

-- The low bits of two's complement: the remainder by b = 2^w.
unfoldable pub low_bits : ℤ → ℕ → ℕ
low_bits (pos n) b = n % b
low_bits (negsuc n) b = b - 1 - n % b

-- What w bits mean as a signed number, with b = 2^w.
unfoldable pub signed : ℕ → ℕ → ℤ
signed n b = if ltb n (b / 2) then pos n else negsuc (b - 1 - n)

-- `int16(a)` and `int32(a)`
unfoldable pub int16 : ℤ → ℤ
unfolding signed low_bits
int16 a = signed (low_bits a (2 ^ 16)) (2 ^ 16)

unfoldable pub int32 : ℤ → ℤ
unfolding signed low_bits
int32 a = signed (low_bits a (2 ^ 32)) (2 ^ 32)

-- Go's maps keyed by signed integers.
abbrev pub IntMap {ℓ} : Type ℓ → Type ℓ
IntMap V = List (ℤ × V)

module _ {ℓ} {V : Type ℓ} where
  abbrev pub lookup_int : ℤ → IntMap V → Option V
  lookup_int k [] = none
  lookup_int k ((j, v) ∷ m) = if same_int k j then some v else lookup_int k m

  abbrev pub insert_int : ℤ → V → IntMap V → IntMap V
  insert_int k v [] = (k, v) ∷ []
  insert_int k v ((j, w) ∷ m) = if same_int k j then (k, v) ∷ m else (j, w) ∷ insert_int k v m

pub same_int-eq : (s t : ℤ) → same_int s t ≡ true → s ≡ t
same_int-eq (pos m) (pos n) h = ground arith
same_int-eq (negsuc m) (negsuc n) h = ground arith
same_int-eq (pos m) (negsuc n) h = ground arith
same_int-eq (negsuc m) (pos n) h = ground arith

-- Sixteen bits hold what is from -2^15 to 2^15 - 1.
pub int16_small : (a : ℤ) → pos_part a < 2 ^ 15 → neg_part a ≤ 2 ^ 15 → int16 a ≡ a
unfolding int16 signed low_bits
int16_small (pos n) up down = ground arith
int16_small (negsuc n) up down = ground arith

pub int32_small : (a : ℤ) → pos_part a < 2 ^ 31 → neg_part a ≤ 2 ^ 31 → int32 a ≡ a
unfolding int32 signed low_bits
int32_small (pos n) up down = ground arith
int32_small (negsuc n) up down = ground arith

-- One lemma for each operation lets `omega` work with the operations shut, at any depth.
pub +ℤ_parts :
    (a b : ℤ)
    → pos_part (a +ℤ b) + neg_part a + neg_part b ≡ neg_part (a +ℤ b) + pos_part a + pos_part b
unfolding ◌+ℤ◌
+ℤ_parts a b = ground arith

pub -ℤ_parts :
    (a b : ℤ)
    → pos_part (a -ℤ b) + neg_part a + pos_part b ≡ neg_part (a -ℤ b) + pos_part a + neg_part b
unfolding ◌-ℤ◌
-ℤ_parts a b = ground arith

pub eq_of_parts : (a b : ℤ) → pos_part a + neg_part b ≡ pos_part b + neg_part a → a ≡ b
eq_of_parts a b h = ground arith

pub ruleset int_laws = (arith, +ℤ_parts, -ℤ_parts, eq_of_parts)
