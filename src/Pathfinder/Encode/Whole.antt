-- ===== src/Pathfinder/Encode/Whole.antt =====
-- pathfinder/encode.go, encodeSwapMultiInner and encodeSwapRaw: all that the router reads.
use native.Mathlib.Nat.{mod-eq_of_lt}
use defi_toolbox_avalanche.Common.{
  ℕ, ◌+◌, ◌*◌, ◌^◌, ◌<◌, ◌≡◌, ◌∙◌, sym, ap, refl, Option, none, some, List, [], ◌∷◌, map, length,
  get_elem?, arith,
}
use defi_toolbox_avalanche.Common.Bytes.{
  word_bytes, words_bytes, drop, drop_at, drop-words_bytes, AllWords,
}
use defi_toolbox_avalanche.Pathfinder.Encode.{
  SwapCall, extra_data_size, to_u64, array_bytes, extra_offsets, extra_bytes, opt_list, head_words,
  offsets_of, address_of, encoded_extra, encode_payload,
}
use defi_toolbox_avalanche.Pathfinder.Encode.Decode.{head_word, read_array, read_bytes_array}
use defi_toolbox_avalanche.Pathfinder.Encode.RoundTrip.{
  read_array_at, next_section, head_word-words_bytes, length-map, types-AllWords,
  read_bytes_array_at,
}

head_count :
    (a b c d e : ℕ) (min_output : Option ℕ)
    → head_words min_output * 32 ≡ length (a ∷ b ∷ c ∷ d ∷ e ∷ opt_list min_output) * 32 + 0
head_count a b c d e none = omega arith
head_count a b c d e (some m) = omega arith

head_back :
    (i : ℕ) (heads after : List ℕ) (off : ℕ)
    → get_elem? heads i ≡ some (to_u64 off)
    → off < 2 ^ 64
    → head_word i (words_bytes heads after) ≡ off
head_back i heads after off found small =
    head_word-words_bytes i heads after (to_u64 off) found (omega arith) ∙ mod-eq_of_lt small

min_found :
    (min_output : Option ℕ) (m : ℕ)
    → min_output ≡ some m
    → get_elem? (opt_list min_output) 0 ≡ some m
min_found none m is_min = is_min
min_found (some n) m is_min = is_min

min_small :
    (min_output : Option ℕ) (m : ℕ)
    → min_output ≡ some m
    → AllWords (opt_list min_output)
    → m < 2 ^ 256
min_small none m is_min small = absurd (ground arith)
min_small (some n) m is_min (small, _) = let eq : n ≡ m = ground arith in omega arith

module _ (encode_v4 : List ℕ → List ℕ) where
  -- What the router reads are the arguments of the call.
  pub record IsReadBack (calls : List SwapCall) (token_pairs : List ℕ) (min_output : Option ℕ)
      (payload : List ℕ) : Type 0 where
    pub pools_back : read_array 0 payload ≡ map (address_of encode_v4) calls
    pub types_back : read_array 1 payload ≡ map (λ c. to_u64 c.pool_type) calls
    pub tokens_back : read_array 2 payload ≡ token_pairs
    pub amounts_back : read_array 3 payload ≡ map (λ c. c.amount) calls
    pub extras_back : read_bytes_array 4 payload ≡ map (encoded_extra encode_v4) calls
    pub min_back : (n : ℕ) → min_output ≡ some n → head_word 5 payload ≡ n

  -- `4+totalPayload`
  unfoldable pub total_size : List SwapCall → List ℕ → Option ℕ → ℕ
  total_size calls token_pairs min_output =
      4
      + (offsets_of (head_words min_output * 32) (length calls) (length token_pairs)).extras_off
      + (32 + length calls * 32)
      + extra_data_size (map (encoded_extra encode_v4) calls)

  -- For addresses, tokens, amounts and a minimum below 2^256 and calldata of less than 2^64 bytes,
  -- a reader of the Solidity ABI gets back from the calldata of swap() the pools, with the pool
  -- manager in place of V4 pools, the kinds, the tokens, the amounts, the extra data and the
  -- minimum that were encoded.
  pub encode_payload-IsReadBack :
      (calls : List SwapCall) (token_pairs : List ℕ) (min_output : Option ℕ)
      → AllWords (map (address_of encode_v4) calls)
      → AllWords token_pairs
      → AllWords (map (λ c. c.amount) calls)
      → AllWords (opt_list min_output)
      → total_size calls token_pairs min_output < 2 ^ 64
      → IsReadBack calls token_pairs min_output
          (encode_payload encode_v4 calls token_pairs min_output)
  unfolding encode_payload total_size offsets_of
  encode_payload-IsReadBack calls token_pairs min_output pools tokens amounts min small =
      let n = length calls in
      let o = offsets_of (head_words min_output * 32) n (length token_pairs) in
      let heads =
        to_u64 o.pools_off
        ∷ to_u64 o.types_off
        ∷ to_u64 o.tokens_off
        ∷ to_u64 o.amounts_off
        ∷ to_u64 o.extras_off
        ∷ opt_list min_output in
      let addresses = map (address_of encode_v4) calls in
      let types = map (λ (c : SwapCall). to_u64 c.pool_type) calls in
      let values = map (λ (c : SwapCall). c.amount) calls in
      let extras = map (encoded_extra encode_v4) calls in
      let s5 =
        word_bytes (to_u64 n)
          (words_bytes (extra_offsets (n * 32) extras) (extra_bytes extras [])) in
      let s4 = array_bytes values s5 in
      let s3 = array_bytes token_pairs s4 in
      let s2 = array_bytes types s3 in
      let s1 = array_bytes addresses s2 in
      let payload = words_bytes heads s1 in
      let at1 : drop o.pools_off payload ≡ s1 =
        drop_at o.pools_off (length heads * 32 + 0) payload (
          head_count (to_u64 o.pools_off) (to_u64 o.types_off) (to_u64 o.tokens_off)
            (to_u64 o.amounts_off) (to_u64 o.extras_off) min_output)
        ∙ drop-words_bytes heads 0 s1 in
      let at2 : drop o.types_off payload ≡ s2 =
        next_section o.pools_off n payload addresses s2 at1
          (length-map (address_of encode_v4) calls) in
      let at3 : drop o.tokens_off payload ≡ s3 =
        next_section o.types_off n payload types s3 at2 (length-map _ calls) in
      let at4 : drop o.amounts_off payload ≡ s4 =
        next_section o.tokens_off (length token_pairs) payload token_pairs s4 at3 refl in
      let at5 : drop o.extras_off payload ≡ s5 =
        next_section o.amounts_off n payload values s5 at4 (length-map _ calls) in
      let all : length extras ≡ n = length-map (encoded_extra encode_v4) calls in
      let last_section : drop o.extras_off payload
          ≡ word_bytes (to_u64 (length extras))
              (words_bytes (extra_offsets (length extras * 32) extras) (extra_bytes extras [])) =
        at5
        ∙ ap
            (λ k.
              word_bytes (to_u64 k)
                (words_bytes (extra_offsets (k * 32) extras) (extra_bytes extras [])))
            (sym all) in
      let pairs : length token_pairs < 2 ^ 64 = omega arith in
      let (count1, count2, count3) : (length addresses < 2 ^ 64)
          × (length types < 2 ^ 64)
          × (length values < 2 ^ 64) =
        (
          omega (arith, length-map (address_of encode_v4) calls),
          omega (arith, length-map (λ (c : SwapCall). to_u64 c.pool_type) calls),
          omega (arith, length-map (λ (c : SwapCall). c.amount) calls),
        ) in
      record {
        pools_back =
            read_array_at 0 o.pools_off payload addresses s2
              (head_back 0 heads s1 o.pools_off refl (omega arith)) at1 pools count1;
        types_back =
            read_array_at 1 o.types_off payload types s3
              (head_back 1 heads s1 o.types_off refl (omega arith)) at2 (types-AllWords calls)
              count2;
        tokens_back =
            read_array_at 2 o.tokens_off payload token_pairs s4
              (head_back 2 heads s1 o.tokens_off refl (omega arith)) at3 tokens pairs;
        amounts_back =
            read_array_at 3 o.amounts_off payload values s5
              (head_back 3 heads s1 o.amounts_off refl (omega arith)) at4 amounts count3;
        extras_back =
            read_bytes_array_at o.extras_off payload extras
              (head_back 4 heads s1 o.extras_off refl (omega arith)) last_section
              (omega (arith, all));
        min_back = λ m is_min.
            head_word-words_bytes 5 heads s1 m (min_found min_output m is_min)
              (min_small min_output m is_min min);
      }
