-- ===== src/Common/Bytes.antt =====
-- Big-endian words of 32 bytes, written and read.
use Prim.Native.Nat.{ℕ, zero, suc, ◌+◌, ◌*◌, ◌/◌, ◌%◌, ◌^◌, ◌<◌}
use native.Mathlib.Nat.{
  pow-suc, div-add-mod', mod-lt, mod-eq_of_lt, mul-add-mod_self_right, mul_assoc,
}
use mathlib.Core.Path.{◌≡◌, refl, sym, ap, ◌∙◌}
use mathlib.Core.List.{List, [], ◌∷◌, ◌++◌}
use native.Mathlib.Omega.{arith}
use defi_toolbox_avalanche.Common.Lists.{length, take, take-append}

-- The n low bytes of a number, the highest first, before the bytes that follow them.
unfoldable pub low_bytes : ℕ → ℕ → List ℕ → List ℕ
low_bytes zero n after = after
low_bytes (suc count) n after = low_bytes count (n / 256) ((n % 256) ∷ after)

unfoldable pub word_bytes : ℕ → List ℕ → List ℕ
unfolding low_bytes
word_bytes n after = low_bytes 32 n after

unfoldable pub words_bytes : List ℕ → List ℕ → List ℕ
unfolding word_bytes
words_bytes [] after = after
words_bytes (n ∷ ns) after = word_bytes n (words_bytes ns after)

abbrev pub drop : ℕ → List ℕ → List ℕ
drop zero bs = bs
drop (suc n) [] = []
drop (suc n) (b ∷ bs) = drop n bs

abbrev pub from_bytes : ℕ → List ℕ → ℕ
from_bytes acc [] = acc
from_bytes acc (b ∷ bs) = from_bytes (acc * 256 + b) bs

unfoldable pub read_word : List ℕ → ℕ
read_word bs = from_bytes 0 (take 32 bs)

unfoldable pub read_words : ℕ → List ℕ → List ℕ
unfolding read_word
read_words zero bs = []
read_words (suc n) bs = read_word bs ∷ read_words n (drop 32 bs)

-- A byte string that stands after its length.
unfoldable pub read_bytes : List ℕ → List ℕ
unfolding read_word
read_bytes bs = take (read_word bs) (drop 32 bs)

pub drop_at : (m n : ℕ) (bs : List ℕ) → m ≡ n → drop m bs ≡ drop n bs
drop_at m n bs eq = ap (λ k. drop k bs) eq

drop-nil : (n : ℕ) → drop n [] ≡ []
drop-nil zero = refl
drop-nil (suc n) = refl

pub drop-drop : (m n : ℕ) (bs : List ℕ) → drop (m + n) bs ≡ drop n (drop m bs)
drop-drop zero n bs = drop_at (0 + n) n bs (omega arith)
drop-drop (suc m) n [] = drop-nil (suc m + n) ∙ sym (drop-nil n)
drop-drop (suc m) n (b ∷ bs) =
    drop_at (suc m + n) (suc (m + n)) (b ∷ bs) (omega arith) ∙ drop-drop m n bs

pub drop-append : (xs ys : List ℕ) → drop (length xs) (xs ++ ys) ≡ ys
drop-append [] ys = refl
drop-append (x ∷ xs) ys = drop-append xs ys

drop-low_bytes :
    (count k n : ℕ) (after : List ℕ) → drop (count + k) (low_bytes count n after) ≡ drop k after
unfolding low_bytes
drop-low_bytes zero k n after = ap (λ j. drop j after) (omega arith)
drop-low_bytes (suc count) k n after =
    ap (λ j. drop j (low_bytes count (n / 256) ((n % 256) ∷ after))) (omega arith)
    ∙ drop-low_bytes count (suc k) (n / 256) ((n % 256) ∷ after)

pub drop-word_bytes : (k n : ℕ) (after : List ℕ) → drop (32 + k) (word_bytes n after) ≡ drop k after
unfolding word_bytes
drop-word_bytes k n after = drop-low_bytes 32 k n after

pub drop-words_bytes :
    (ns : List ℕ) (k : ℕ) (after : List ℕ)
    → drop (length ns * 32 + k) (words_bytes ns after) ≡ drop k after
unfolding words_bytes
drop-words_bytes [] k after = ap (λ j. drop j after) (omega arith)
drop-words_bytes (n ∷ ns) k after =
    drop_at (suc (length ns) * 32 + k) (32 + (length ns * 32 + k))
      (word_bytes n (words_bytes ns after)) (omega arith)
    ∙ drop-word_bytes (length ns * 32 + k) n (words_bytes ns after)
    ∙ drop-words_bytes ns k after

-- Reading as many bytes as were written.
mod_bytes : (n m : ℕ) → 0 < m → n % (m * 256) ≡ n / 256 % m * 256 + n % 256
mod_bytes n m pos =
    let r = n / 256 % m * 256 + n % 256 in
    let halves : n / 256 / m * m + n / 256 % m ≡ n / 256 = div-add-mod' (n / 256) m in
    let small : n / 256 % m < m = mod-lt (n / 256) pos in
    let whole : n ≡ n / 256 / m * (m * 256) + r = omega arith in
    ap (λ z. z % (m * 256)) whole
    ∙ mul-add-mod_self_right (n / 256 / m) (m * 256) r
    ∙ mod-eq_of_lt (omega arith)

pow_bytes_pos : (n : ℕ) → 0 < 256 ^ n
pow_bytes_pos zero = omega arith
pow_bytes_pos (suc n) = omega (arith, pow-suc 256 n, pow_bytes_pos n)

one_more_byte :
    (count acc n : ℕ)
    → (acc * 256 ^ count + n / 256 % 256 ^ count) * 256 + n % 256
      ≡ acc * 256 ^ suc count + n % 256 ^ suc count
one_more_byte count acc n = rw (pow-suc 256 count) (
    omega (arith, mod_bytes n (256 ^ count) (pow_bytes_pos count), mul_assoc acc (256 ^ count) 256))

from-low_bytes :
    (count acc n rest : ℕ) (after : List ℕ)
    → from_bytes acc (take (count + rest) (low_bytes count n after))
      ≡ from_bytes (acc * 256 ^ count + n % 256 ^ count) (take rest after)
unfolding low_bytes
from-low_bytes zero acc n rest after =
    ap (λ k. from_bytes acc (take k after)) (omega arith)
    ∙ ap (λ a. from_bytes a (take rest after)) (omega arith)
from-low_bytes (suc count) acc n rest after =
    ap (λ k. from_bytes acc (take k (low_bytes count (n / 256) ((n % 256) ∷ after)))) (omega arith)
    ∙ from-low_bytes count acc (n / 256) (suc rest) ((n % 256) ∷ after)
    ∙ ap (λ a. from_bytes a (take rest after)) (one_more_byte count acc n)

whole_word : (n : ℕ) → n < 2 ^ 256 → 0 * 256 ^ 32 + n % 256 ^ 32 ≡ n
whole_word n small = omega arith

pub read-word_bytes : (n : ℕ) (after : List ℕ) → n < 2 ^ 256 → read_word (word_bytes n after) ≡ n
unfolding read_word word_bytes
read-word_bytes n after small = from-low_bytes 32 0 n 0 after ∙ whole_word n small

-- Every number is a word.
abbrev pub AllWords : List ℕ → Type 0
AllWords [] = Unit
AllWords (n ∷ ns) = (n < 2 ^ 256) × AllWords ns

pub read-words_bytes :
    (ns : List ℕ) (after : List ℕ)
    → AllWords ns
    → read_words (length ns) (words_bytes ns after) ≡ ns
unfolding read_words words_bytes
read-words_bytes [] after small = refl
read-words_bytes (n ∷ ns) after (small, rest) =
    rw (read-word_bytes n (words_bytes ns after) small, drop-word_bytes 0 n (words_bytes ns after))
      (ap (◌∷◌ n) (read-words_bytes ns after rest))

pub read_bytes-word_bytes :
    (bs after : List ℕ)
    → length bs < 2 ^ 256
    → read_bytes (word_bytes (length bs) (bs ++ after)) ≡ bs
unfolding read_bytes
read_bytes-word_bytes bs after small =
    rw
      (read-word_bytes (length bs) (bs ++ after) small, drop-word_bytes 0 (length bs) (bs ++ after))
      (take-append bs after)
