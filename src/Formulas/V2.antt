-- ===== src/Formulas/V2.antt =====
-- formulas/pool_v2.go and formulas/v2.go: a constant-product pool. An address is a number. A storage
-- read is an argument, and so is the EVM call of a token's balanceOf, whose result is none where the
-- call fails or returns less than 32 bytes.
pub mod Monotone
pub mod Quote
use defi_toolbox_avalanche.Common.{
  ℕ, ◌+◌, ◌*◌, ◌/◌, ◌%◌, ◌^◌, Bool, true, false, not, ◌&&◌, ◌||◌, Option, none, some, List, [], ◌∷◌,
  ltb, ◌==◌, if◌then◌else◌,
}
use defi_toolbox_avalanche.Uint256.{Uint256}

-- A nil `factor` is none.
pub record V2Pool : Type 0 where
  pub addr : ℕ
  pub reserve0 : ℕ
  pub reserve1 : ℕ
  pub factor : Option ℕ
  pub balance0 : ℕ
  pub balance1 : ℕ
  pub dead_dir0 : Bool
  pub dead_dir1 : Bool

-- `factor` and `tenK`
abbrev pub default_factor : ℕ
default_factor = 9970

abbrev pub ten_k : ℕ
ten_k = 10000

abbrev pub reserves_slot : ℕ
reserves_slot = 8

abbrev pub fraxswap_reserves_slot : ℕ
fraxswap_reserves_slot = 28

abbrev pub fraxswap_fee_slot : ℕ
fraxswap_fee_slot = 24

abbrev pub broken_tokens : List ℕ
broken_tokens =
    0x704eae6d452ca63ce479c59727177c5f3ba0d90c ∷ 0x4596ab7aab0362f743ae934792b827febfe3a3e3 ∷ []

abbrev pub input_dead_tokens : List ℕ
input_dead_tokens =
    0xe80772eaf6e2e18b651f160bc9158b2a5cafca65 ∷ 0xf7d9281e8e363584973f946201b82ba72c965d27
    ∷ 0xb2a85c5ecea99187a977ac34303b80acbddfa208 ∷ 0x90842eb834cfd2a1db0b1512b254a18e4d396215
    ∷ 0x440abbf18c54b2782a4917b80a1746d3a2c2cce1 ∷ 0x6e7f5c0b9f4432716bdd0a77a3601291b9d9e985
    ∷ 0x1f1fe1ef06ab30a791d6357fdf0a7361b39b1537 ∷ 0xf16f18c155ef8fc46f980b23868d208db59cad9c
    ∷ 0xba515304d8153c4b162dc79f867e152df9c127eb ∷ 0x556b959d952085405e7c630bc45a34ace73854eb
    ∷ 0xa3d68b74bf0528fdd07263c60d6488749044914b ∷ 0x32f0c28be6a6ac5d3b471278b77f6971a3141348
    ∷ 0x27f6c8289550fce67f6b50bed1f519966afe5287 ∷ 0x6c6f910a79639dcc94b4feef59ff507c2e843929
    ∷ 0x74e422837e88c00c998b63293dfecebb7d6680fc ∷ 0x77146784315ba81904d654466968e3a7c196d1f3
    ∷ 0xb57b25851fe2311cc3fe511c8f10e868932e0680 ∷ 0x0442ac2450dc0b2b56d7320afad0b63b1ff8b0d0
    ∷ 0xfb8a29e67eff2f8ec633771b572b08b7e69c57b4 ∷ []

abbrev pub listed : ℕ → List ℕ → Bool
listed token [] = false
listed token (t ∷ tokens) = (token == t) || listed token tokens

abbrev pub dead_input : ℕ → Bool
dead_input token = listed token broken_tokens || listed token input_dead_tokens

unfoldable pub set_dead_dirs : ℕ → ℕ → V2Pool → V2Pool
set_dead_dirs token0 token1 p = record p {
  dead_dir0 = if dead_input token0 then true else p.dead_dir0;
  dead_dir1 = if dead_input token1 then true else p.dead_dir1;
}

abbrev or_keep : Option ℕ → ℕ → ℕ
or_keep none old = old
or_keep (some balance) old = balance

-- `caller` gives the balance of an account in a token; a nil caller is none.
unfoldable pub set_token_balances : Option (ℕ → ℕ → Option ℕ) → ℕ → ℕ → V2Pool → V2Pool
set_token_balances none token0 token1 p = p
set_token_balances (some balance_of) token0 token1 p = record p {
  balance0 = or_keep (balance_of token0 p.addr) p.balance0;
  balance1 = or_keep (balance_of token1 p.addr) p.balance1;
}

-- `data[18:32]` and `data[4:18]` of the 32 bytes
abbrev pub low_reserve : ℕ → ℕ
low_reserve raw = raw % 2 ^ 112

abbrev pub high_reserve : ℕ → ℕ
high_reserve raw = raw / 2 ^ 112 % 2 ^ 112

module _ (reader : ℕ → ℕ → ℕ) where
  unfoldable pub new_v2_pool_with_slot : ℕ → ℕ → Option ℕ → Option V2Pool
  new_v2_pool_with_slot addr slot fee_factor =
      let raw = reader addr slot in
      if (low_reserve raw == 0) || (high_reserve raw == 0)
      then none
      else some (record {
        addr = addr;
        reserve0 = low_reserve raw;
        reserve1 = high_reserve raw;
        factor = fee_factor;
        balance0 = 0;
        balance1 = 0;
        dead_dir0 = false;
        dead_dir1 = false;
      })

  unfoldable pub new_v2_pool : ℕ → Option V2Pool
  new_v2_pool addr = new_v2_pool_with_slot addr reserves_slot (some default_factor)

  unfoldable pub new_hurricane_pool : ℕ → Option V2Pool
  new_hurricane_pool addr = none

  unfoldable pub new_fraxswap_pool : ℕ → Option V2Pool
  new_fraxswap_pool addr =
      let fee_val = reader addr fraxswap_fee_slot in
      if (fee_val == 0) || ltb ten_k fee_val
      then none
      else new_v2_pool_with_slot addr fraxswap_reserves_slot (some fee_val)

abbrev pub fee_of : V2Pool → ℕ
fee_of p = elim p.factor [ none ↦ default_factor | some f ↦ f ]

module _ (u : Uint256) where
  -- The quote from the reserves, before the balance is looked at.
  unfoldable pub amount_out : ℕ → ℕ → ℕ → ℕ → ℕ
  amount_out amount_in f reserve_in reserve_out =
      let num = u.mul (u.mul amount_in f) reserve_out in
      let den = u.add (u.mul reserve_in ten_k) (u.mul amount_in f) in
      if den == 0 then 0 else u.div num den

  abbrev pub quote_from : ℕ → ℕ → ℕ → ℕ → ℕ → ℕ
  quote_from amount_in f reserve_in reserve_out balance_out =
      let result = amount_out amount_in f reserve_in reserve_out in
      if not (balance_out == 0) && ltb balance_out result then 0 else result

  unfoldable pub quote : V2Pool → ℕ → ℕ → ℕ → ℕ
  quote p amount_in token_in token_out =
      let zero_for_one = ltb token_in token_out in
      if zero_for_one && p.dead_dir0
      then 0
      else if not zero_for_one && p.dead_dir1
      then 0
      else if zero_for_one
      then quote_from amount_in (fee_of p) p.reserve0 p.reserve1 p.balance1
      else quote_from amount_in (fee_of p) p.reserve1 p.reserve0 p.balance0
