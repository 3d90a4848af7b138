-- ===== src/Uint256.antt =====
-- The interface of github.com/holiman/uint256, which the code calls for its 256-bit words. A word is
-- the number that it stands for. Each law is what that package documents of one method; the
-- operations are arguments of every definition that calls them.
pub mod Bits
pub mod Concrete
use defi_toolbox_avalanche.Common.{ℕ, ◌+◌, ◌-◌, ◌*◌, ◌/◌, ◌%◌, ◌^◌, ◌≤◌, ◌<◌, ◌≡◌, Bool, leb}

-- The number of words.
abbrev pub word : ℕ
word = 2 ^ 256

pub record Uint256 : Type 0 where
  pub add : ℕ → ℕ → ℕ
  pub sub : ℕ → ℕ → ℕ
  pub mul : ℕ → ℕ → ℕ
  pub div : ℕ → ℕ → ℕ
  pub mod_of : ℕ → ℕ → ℕ
  pub and_of : ℕ → ℕ → ℕ
  pub or_of : ℕ → ℕ → ℕ
  pub not_of : ℕ → ℕ
  pub lsh : ℕ → ℕ → ℕ
  pub rsh : ℕ → ℕ → ℕ
  -- `MulDivOverflow`: the low word of the quotient, and whether it does not fit
  pub mul_div : ℕ → ℕ → ℕ → ℕ
  pub mul_div_overflow : ℕ → ℕ → ℕ → Bool
  -- `MulOverflow`: whether the product does not fit
  pub mul_overflow : ℕ → ℕ → Bool
  -- `BitLen`
  pub bit_len : ℕ → ℕ

-- What the package documents, for words `a`, `b` and `c`.
pub record IsUint256 (u : Uint256) : Type 0 where
  pub add_lem : (a b : ℕ) → u.add a b ≡ (a + b) % word
  pub sub_lem : (a b : ℕ) → a < word → b < word → u.sub a b ≡ (a + word - b) % word
  pub sub_fits : (a b : ℕ) → u.sub a b < word
  pub mul_lem : (a b : ℕ) → u.mul a b ≡ a * b % word
  pub div_lem : (a b : ℕ) → u.div a b ≡ a / b
  pub mod_of-zero : (a : ℕ) → u.mod_of a 0 ≡ 0
  pub mod_of_lem : (a b : ℕ) → 0 < b → u.mod_of a b ≡ a % b
  pub and_of-mask : (a k : ℕ) → u.and_of a (2 ^ k - 1) ≡ a % 2 ^ k
  pub lsh_lem : (a k : ℕ) → u.lsh a k ≡ a * 2 ^ k % word
  pub rsh_lem : (a k : ℕ) → u.rsh a k ≡ a / 2 ^ k
  pub mul_div_lem : (a b c : ℕ) → u.mul_div a b c ≡ a * b / c % word
  pub mul_div_overflow_lem : (a b c : ℕ) → u.mul_div_overflow a b c ≡ leb word (a * b / c)
  pub mul_overflow_lem : (a b : ℕ) → u.mul_overflow a b ≡ leb word (a * b)
  pub not_of_lem : (a : ℕ) → a < word → u.not_of a ≡ word - 1 - a
  pub and_of-not_of :
      (a k : ℕ) → a < word → k ≤ 256 → u.and_of a (u.not_of (2 ^ k - 1)) ≡ a / 2 ^ k * 2 ^ k
  pub bit_len_lem :
      (a : ℕ) → 0 < a → (0 < u.bit_len a) × (2 ^ (u.bit_len a - 1) ≤ a) × (a < 2 ^ u.bit_len a)
