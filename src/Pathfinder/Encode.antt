-- ===== src/Pathfinder/Encode.antt =====
-- pathfinder/encode.go: the calldata of the router. A buffer that is filled from front to back is the
-- list of its bytes, and the slices of pools, kinds and extra data, which have one entry for each call,
-- are one list. An address is a number below 2^160. The bytes that encodeV4ExtraData makes of a text are an argument.
pub mod Decode
pub mod RoundTrip
pub mod Whole
pub mod Squished
use defi_toolbox_avalanche.Common.{
  ℕ, zero, suc, ◌+◌, ◌-◌, ◌*◌, ◌/◌, ◌%◌, ◌^◌, Bool, true, false, not, ◌&&◌, Option, none, some,
  List, [], ◌∷◌, ◌++◌, map, length, ltb, ◌==◌, if◌then◌else◌,
}
use defi_toolbox_avalanche.Common.Bytes.{word_bytes, words_bytes}
use defi_toolbox_avalanche.Pathfinder.Route.{RouteStep, Leg}

-- One entry of the parallel slices `poolAddrs`, `poolTypes`, `extraDatas` and `amounts`.
pub record SwapCall : Type 0 where
  pub pool : ℕ
  pub pool_type : ℕ
  pub extra_data : List ℕ
  pub amount : ℕ

abbrev is_empty : List ℕ → Bool
is_empty [] = true
is_empty (_ ∷ _) = false

abbrev pub zeros : ℕ → List ℕ → List ℕ
zeros zero after = after
zeros (suc n) after = 0 ∷ zeros n after

abbrev pub v4_pool_manager : ℕ
v4_pool_manager = 0x06380C0e0912312B5150364B9DC4542BA0DbBc85

-- keccak256("swap(address[],uint8[],address[],uint256[],bytes[],int256)")[:4]
abbrev pub swap_selector : List ℕ
swap_selector = 0xf3 ∷ 0xb1 ∷ 0xb2 ∷ 0x3a ∷ []

-- keccak256("debugSwapSingle(address,uint8,address,address,uint256,bytes)")[:4]
abbrev pub debug_swap_single_selector : List ℕ
debug_swap_single_selector = 0x51 ∷ 0xe1 ∷ 0x6d ∷ 0x05 ∷ []

-- `amounts[i] = uint256.NewInt(0)`
abbrev no_amount : SwapCall → SwapCall
no_amount c = record c { amount = 0 }

-- The length rounded up to whole words, and with the word of the length before it.
unfoldable pub padded : ℕ → ℕ
padded len = (len + 31) / 32 * 32

unfoldable pub extra_size : List ℕ → ℕ
unfolding padded
extra_size ed = if ltb 0 (length ed) then 32 + padded (length ed) else 32

-- `extraDataSize`
unfoldable pub extra_data_size : List (List ℕ) → ℕ
unfolding extra_size
extra_data_size [] = 0
extra_data_size (ed ∷ eds) = extra_size ed + extra_data_size eds

-- `writeWordU64`, for each of a slice.
abbrev pub to_u64 : ℕ → ℕ
to_u64 n = n % 2 ^ 64

-- A slice of words after its length.
unfoldable pub array_bytes : List ℕ → List ℕ → List ℕ
array_bytes ns after = word_bytes (to_u64 (length ns)) (words_bytes ns after)

-- The offsets of the extra data, from the cursor on.
unfoldable pub extra_offsets : ℕ → List (List ℕ) → List ℕ
unfolding extra_size
extra_offsets cursor [] = []
extra_offsets cursor (ed ∷ eds) = to_u64 cursor ∷ extra_offsets (cursor + extra_size ed) eds

-- The extra data, each after its length and filled up to whole words.
unfoldable pub extra_bytes : List (List ℕ) → List ℕ → List ℕ
unfolding padded
extra_bytes [] after = after
extra_bytes (ed ∷ eds) after =
    word_bytes (to_u64 (length ed))
      (ed ++ zeros (padded (length ed) - length ed) (extra_bytes eds after))

abbrev pub opt_list : Option ℕ → List ℕ
opt_list none = []
opt_list (some n) = n ∷ []

abbrev pub head_words : Option ℕ → ℕ
head_words none = 5
head_words (some _) = 6

-- The offsets of the five slices.
pub record Offsets : Type 0 where
  pub pools_off : ℕ
  pub types_off : ℕ
  pub tokens_off : ℕ
  pub amounts_off : ℕ
  pub extras_off : ℕ

unfoldable pub offsets_of : ℕ → ℕ → ℕ → Offsets
offsets_of head_size n n_token_pairs =
    let pools_off = head_size in
    let types_off = pools_off + (32 + n * 32) in
    let tokens_off = types_off + (32 + n * 32) in
    let amounts_off = tokens_off + (32 + n_token_pairs * 32) in
    record {
      pools_off = pools_off;
      types_off = types_off;
      tokens_off = tokens_off;
      amounts_off = amounts_off;
      extras_off = amounts_off + (32 + n * 32);
    }

module _ (encode_v4_extra_data : List ℕ → List ℕ) where
  abbrev pub is_v4 : SwapCall → Bool
  is_v4 c = (c.pool_type == 9) && not (is_empty c.extra_data)

  abbrev pub address_of : SwapCall → ℕ
  address_of c = if is_v4 c then v4_pool_manager else c.pool

  abbrev pub encoded_extra : SwapCall → List ℕ
  encoded_extra c = if is_v4 c then encode_v4_extra_data c.extra_data else []

  -- The calldata past the selector.
  unfoldable pub encode_payload : List SwapCall → List ℕ → Option ℕ → List ℕ
  unfolding offsets_of array_bytes extra_offsets extra_bytes
  encode_payload calls token_pairs min_output =
      let n = length calls in
      let extras = map encoded_extra calls in
      let o = offsets_of (head_words min_output * 32) n (length token_pairs) in
      words_bytes
        (to_u64 o.pools_off
          ∷ to_u64 o.types_off
          ∷ to_u64 o.tokens_off
          ∷ to_u64 o.amounts_off
          ∷ to_u64 o.extras_off
          ∷ opt_list min_output)
        (array_bytes (map address_of calls) (
          array_bytes (map (λ c. to_u64 c.pool_type) calls) (
            array_bytes token_pairs (
              array_bytes (map (λ c. c.amount) calls) (
                word_bytes (to_u64 n)
                  (words_bytes (extra_offsets (n * 32) extras) (extra_bytes extras [])))))))

  -- `encodeSwapRaw`
  unfoldable pub encode_swap_raw : List ℕ → List SwapCall → List ℕ → Option ℕ → List ℕ
  unfolding encode_payload
  encode_swap_raw selector calls token_pairs min_output =
      selector ++ encode_payload calls token_pairs min_output

  -- The amount goes into the first call; a list without calls panics, which is `none`.
  unfoldable pub encode_swap_multi_inner :
      List ℕ → List SwapCall → List ℕ → ℕ → Option ℕ → Option (List ℕ)
  unfolding encode_payload
  encode_swap_multi_inner selector [] token_pairs amount_in min_output = none
  encode_swap_multi_inner selector (c ∷ calls) token_pairs amount_in min_output = some (
      selector
      ++ encode_payload (record c { amount = amount_in } ∷ map no_amount calls) token_pairs
          min_output)

  unfoldable pub encode_swap_multi : List SwapCall → List ℕ → ℕ → Option ℕ → Option (List ℕ)
  unfolding encode_swap_multi_inner
  encode_swap_multi = encode_swap_multi_inner swap_selector

  abbrev pub leg_call : Leg → SwapCall
  leg_call l = record {
    pool = l.step.pool;
    pool_type = l.step.pool_type;
    extra_data = l.step.extra_data;
    amount = l.amount;
  }

  abbrev pub leg_tokens : List Leg → List ℕ
  leg_tokens [] = []
  leg_tokens (l ∷ legs) = l.step.token_in ∷ l.step.token_out ∷ leg_tokens legs

  -- `encodeMergedSteps`
  unfoldable pub encode_merged_steps : List Leg → Option ℕ → List ℕ
  unfolding encode_swap_raw
  encode_merged_steps legs min_output =
      encode_swap_raw swap_selector (map leg_call legs) (leg_tokens legs) min_output

-- `encodeSwapSingleInner`
unfoldable pub encode_swap_single_inner : ℕ → ℕ → ℕ → ℕ → ℕ → List ℕ → List ℕ
unfolding padded
encode_swap_single_inner pool pool_type token_in token_out amount_in extra =
    debug_swap_single_selector
    ++ words_bytes
        (pool
          ∷ to_u64 pool_type
          ∷ token_in
          ∷ token_out
          ∷ amount_in
          ∷ 192
          ∷ to_u64 (length extra)
          ∷ [])
        (extra ++ zeros (padded (length extra) - length extra) [])

-- `EncodeSwapSingle`
unfoldable pub encode_swap_single : ℕ → ℕ → ℕ → ℕ → ℕ → List ℕ
unfolding encode_swap_single_inner
encode_swap_single pool pool_type token_in token_out amount_in =
    encode_swap_single_inner pool pool_type token_in token_out amount_in []

-- `EncodeSwapSingleWithExtra`
unfoldable pub encode_swap_single_with_extra :
    (List ℕ → List ℕ) → ℕ → ℕ → ℕ → ℕ → ℕ → List ℕ → List ℕ
unfolding encode_swap_single_inner
encode_swap_single_with_extra encode_v4 pool pool_type token_in token_out amount_in extra_data =
    if (pool_type == 9) && not (is_empty extra_data)
    then encode_swap_single_inner v4_pool_manager pool_type token_in token_out amount_in
        (encode_v4 extra_data)
    else encode_swap_single_inner pool pool_type token_in token_out amount_in []
