-- ===== src/Uint256/Concrete.antt =====
-- Words that wrap at 2 ^ 256: an instance of the interface, at which examples run.
use defi_toolbox_avalanche.Common.{
  ℕ, ◌+◌, ◌-◌, ◌*◌, ◌/◌, ◌%◌, ◌^◌, ◌<◌, ◌≡◌, refl, leb, ◌==◌, if◌then◌else◌, arith,
}
use Prim.Native.Nat.{bit_and, bit_or}
use defi_toolbox_avalanche.Uint256.Bits.{bit_and-mask, bit_and-high_mask, bits, bits_lem}
use defi_toolbox_avalanche.Uint256.{word, Uint256, IsUint256}

abbrev pub wrapping : Uint256
wrapping = record {
  add = λ a b. (a + b) % word;
  sub = λ a b. (a + word - b) % word;
  mul = λ a b. a * b % word;
  div = λ a b. a / b;
  mod_of = λ a b. if b == 0 then 0 else a % b;
  and_of = bit_and;
  or_of = bit_or;
  not_of = λ a. word - 1 - a;
  lsh = λ a k. a * 2 ^ k % word;
  rsh = λ a k. a / 2 ^ k;
  mul_div = λ a b c. a * b / c % word;
  mul_div_overflow = λ a b c. leb word (a * b / c);
  mul_overflow = λ a b. leb word (a * b);
  bit_len = bits;
}

wrapping_mod : (a b : ℕ) → 0 < b → (if b == 0 then 0 else a % b) ≡ a % b
wrapping_mod a b h = ground arith

pub wrapping-IsUint256 : IsUint256 wrapping
wrapping-IsUint256 = record {
  add_lem = λ a b. refl;
  sub_lem = λ a b ha hb. refl;
  sub_fits = λ a b. omega arith;
  mul_lem = λ a b. refl;
  div_lem = λ a b. refl;
  mod_of-zero = λ a. refl;
  mod_of_lem = wrapping_mod;
  and_of-mask = bit_and-mask;
  lsh_lem = λ a k. refl;
  rsh_lem = λ a k. refl;
  mul_div_lem = λ a b c. refl;
  mul_div_overflow_lem = λ a b c. refl;
  mul_overflow_lem = λ a b. refl;
  not_of_lem = λ a ha. refl;
  and_of-not_of = λ a k ha hk. bit_and-high_mask a 256 k ha hk;
  bit_len_lem = bits_lem;
}
