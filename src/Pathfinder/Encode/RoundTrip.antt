-- ===== src/Pathfinder/Encode/RoundTrip.antt =====
-- pathfinder/encode.go: the calldata of swap() as the router reads it.
use native.Mathlib.Nat.{mod-eq_of_lt}
use defi_toolbox_avalanche.Common.{
  ℕ, zero, suc, ◌+◌, ◌-◌, ◌*◌, ◌^◌, ◌<◌, ◌≡◌, ◌∙◌, sym, ap, refl, some, List, [], ◌∷◌, ◌++◌, map,
  length, get_elem?, arith,
}
use defi_toolbox_avalanche.Common.Bytes.{
  word_bytes, words_bytes, drop, drop_at, drop-drop, drop-append, drop-word_bytes, drop-words_bytes,
  read_word, read_bytes, read-word_bytes, read-words_bytes, read_bytes-word_bytes, AllWords,
}
use defi_toolbox_avalanche.Pathfinder.Encode.{
  SwapCall, zeros, padded, extra_size, extra_data_size, to_u64, array_bytes, extra_offsets,
  extra_bytes,
}
use defi_toolbox_avalanche.Pathfinder.Encode.Decode.{head_word, read_array, read_bytes_array}

-- An array at an offset.
pub read_array_at :
    (i off : ℕ) (payload ns after : List ℕ)
    → head_word i payload ≡ off
    → drop off payload ≡ array_bytes ns after
    → AllWords ns
    → length ns < 2 ^ 64
    → read_array i payload ≡ ns
unfolding read_array array_bytes
read_array_at i off payload ns after head at small short =
    let count : read_word (array_bytes ns after) ≡ length ns =
      read-word_bytes (to_u64 (length ns)) (words_bytes ns after) (omega arith)
      ∙ mod-eq_of_lt short in
    let rest : drop 32 (array_bytes ns after) ≡ words_bytes ns after =
      drop-word_bytes 0 (to_u64 (length ns)) (words_bytes ns after) in
    rw (head, at, count, rest) (read-words_bytes ns after small)

-- Past an array.
drop-array_bytes :
    (ns after : List ℕ) (k : ℕ)
    → drop (32 + length ns * 32 + k) (array_bytes ns after) ≡ drop k after
unfolding array_bytes
drop-array_bytes ns after k =
    ap (λ j. drop j (array_bytes ns after)) (omega arith)
    ∙ drop-word_bytes (length ns * 32 + k) (to_u64 (length ns)) (words_bytes ns after)
    ∙ drop-words_bytes ns k after

drop-zeros : (n k : ℕ) (after : List ℕ) → drop (n + k) (zeros n after) ≡ drop k after
drop-zeros zero k after = drop_at (0 + k) k after (omega arith)
drop-zeros (suc n) k after =
    drop_at (suc n + k) (suc (n + k)) (zeros (suc n) after) (omega arith) ∙ drop-zeros n k after

-- Past a byte string and its filling.
drop-extra_bytes :
    (ed : List ℕ) (eds : List (List ℕ)) (after : List ℕ)
    → drop (extra_size ed) (extra_bytes (ed ∷ eds) after) ≡ extra_bytes eds after
unfolding extra_bytes extra_size padded
drop-extra_bytes ed eds after =
    let len = length ed in
    let fill = padded len - len in
    let rest = ed ++ zeros fill (extra_bytes eds after) in
    let size : extra_size ed ≡ 32 + (len + (fill + 0)) = ground arith in
    ap (λ j. drop j (extra_bytes (ed ∷ eds) after)) size
    ∙ drop-word_bytes (len + (fill + 0)) (to_u64 len) rest
    ∙ drop-drop len (fill + 0) rest
    ∙ ap (drop (fill + 0)) (drop-append ed (zeros fill (extra_bytes eds after)))
    ∙ drop-zeros fill 0 (extra_bytes eds after)

fits : (ed : List ℕ) → extra_size ed < 2 ^ 64 → length ed < 2 ^ 64
unfolding extra_size padded
fits ed small = ground arith

read_first :
    (ed : List ℕ) (eds : List (List ℕ))
    → length ed < 2 ^ 64
    → read_bytes (extra_bytes (ed ∷ eds) []) ≡ ed
unfolding extra_bytes
read_first ed eds short =
    let len : to_u64 (length ed) ≡ length ed = mod-eq_of_lt short in
    rw len (
      read_bytes-word_bytes ed (zeros (padded (length ed) - length ed) (extra_bytes eds []))
        (omega arith))

-- The byte strings at the offsets, where the first offset is that of the first.
read_extras :
    (eds : List (List ℕ)) (cursor : ℕ) (body : List ℕ)
    → drop cursor body ≡ extra_bytes eds []
    → cursor + extra_data_size eds < 2 ^ 64
    → map (λ offset. read_bytes (drop offset body)) (extra_offsets cursor eds) ≡ eds
unfolding extra_offsets extra_data_size
read_extras [] cursor body at small = refl
read_extras (ed ∷ eds) cursor body at small =
    let here : to_u64 cursor ≡ cursor = mod-eq_of_lt (omega arith) in
    let first : read_bytes (drop cursor body) ≡ ed =
      ap read_bytes at ∙ read_first ed eds (fits ed (omega arith)) in
    let next : drop (cursor + extra_size ed) body ≡ extra_bytes eds [] =
      drop-drop cursor (extra_size ed) body
      ∙ ap (drop (extra_size ed)) at
      ∙ drop-extra_bytes ed eds [] in
    let rest : map (λ offset. read_bytes (drop offset body))
          (extra_offsets (cursor + extra_size ed) eds)
        ≡ eds =
      read_extras eds (cursor + extra_size ed) body next (omega arith) in
    rw (here, first, rest) refl

drop-words_bytes_at :
    (i : ℕ) (ns after : List ℕ) (n : ℕ)
    → get_elem? ns i ≡ some n
    → (rest : List ℕ) × (drop (i * 32) (words_bytes ns after) ≡ word_bytes n rest)
unfolding words_bytes
drop-words_bytes_at i [] after n found = absurd (ground arith)
drop-words_bytes_at zero (m ∷ ns) after n found =
    let eq : m ≡ n = ground arith in
    (
      words_bytes ns after,
      drop_at (0 * 32) 0 (word_bytes m (words_bytes ns after)) (omega arith)
          ∙ ap (λ k. word_bytes k (words_bytes ns after)) eq,
    )
drop-words_bytes_at (suc i) (m ∷ ns) after n found =
    let (rest, there) = drop-words_bytes_at i ns after n found in
    (
      rest,
      drop_at (suc i * 32) (32 + i * 32) (word_bytes m (words_bytes ns after)) (omega arith)
          ∙ drop-word_bytes (i * 32) m (words_bytes ns after)
          ∙ there,
    )

pub head_word-words_bytes :
    (i : ℕ) (ns after : List ℕ) (n : ℕ)
    → get_elem? ns i ≡ some n
    → n < 2 ^ 256
    → head_word i (words_bytes ns after) ≡ n
unfolding head_word
head_word-words_bytes i ns after n found small =
    let (rest, there) = drop-words_bytes_at i ns after n found in
    ap read_word there ∙ read-word_bytes n rest small

-- From an array to what follows it.
pub next_section :
    (off n : ℕ) (payload ns after : List ℕ)
    → drop off payload ≡ array_bytes ns after
    → length ns ≡ n
    → drop (off + (32 + n * 32)) payload ≡ after
next_section off n payload ns after at count =
    drop_at (off + (32 + n * 32)) (off + (32 + length ns * 32 + 0)) payload (omega arith)
    ∙ drop-drop off (32 + length ns * 32 + 0) payload
    ∙ ap (drop (32 + length ns * 32 + 0)) at
    ∙ drop-array_bytes ns after 0

pub length-map : {A B : Type 0} (f : A → B) (xs : List A) → length (map f xs) ≡ length xs
length-map f [] = refl
length-map f (x ∷ xs) = ap suc (length-map f xs)

length-extra_offsets :
    (cursor : ℕ) (eds : List (List ℕ)) → length (extra_offsets cursor eds) ≡ length eds
unfolding extra_offsets
length-extra_offsets cursor [] = refl
length-extra_offsets cursor (ed ∷ eds) = ap suc (length-extra_offsets (cursor + extra_size ed) eds)

extra_offsets-AllWords : (cursor : ℕ) (eds : List (List ℕ)) → AllWords (extra_offsets cursor eds)
unfolding extra_offsets
extra_offsets-AllWords cursor [] = tt
extra_offsets-AllWords cursor (ed ∷ eds) =
    (omega arith, extra_offsets-AllWords (cursor + extra_size ed) eds)

pub types-AllWords : (calls : List SwapCall) → AllWords (map (λ c. to_u64 c.pool_type) calls)
types-AllWords [] = tt
types-AllWords (c ∷ calls) = (omega arith, types-AllWords calls)

-- The sections of the payload.
pub read_bytes_array_at :
    (off : ℕ) (payload : List ℕ) (eds : List (List ℕ))
    → head_word 4 payload ≡ off
    → drop off payload
      ≡ word_bytes
          (to_u64 (length eds))
          (words_bytes (extra_offsets (length eds * 32) eds) (extra_bytes eds []))
    → length eds * 32 + extra_data_size eds < 2 ^ 64
    → read_bytes_array 4 payload ≡ eds
unfolding read_bytes_array
read_bytes_array_at off payload eds head at small =
    let offsets = extra_offsets (length eds * 32) eds in
    let body = words_bytes offsets (extra_bytes eds []) in
    let n : length offsets ≡ length eds = length-extra_offsets (length eds * 32) eds in
    let count : read_word (word_bytes (to_u64 (length eds)) body) ≡ length offsets =
      read-word_bytes (to_u64 (length eds)) body (omega arith)
      ∙ mod-eq_of_lt (omega arith)
      ∙ sym n in
    let rest : drop 32 (word_bytes (to_u64 (length eds)) body) ≡ body =
      drop-word_bytes 0 (to_u64 (length eds)) body in
    let past : drop (length eds * 32) body ≡ extra_bytes eds [] =
      drop_at (length eds * 32) (length offsets * 32 + 0) body (omega arith)
      ∙ drop-words_bytes offsets 0 (extra_bytes eds []) in
    rw
      (
        head,
        at,
        count,
        rest,
        read-words_bytes offsets (extra_bytes eds [])
            (extra_offsets-AllWords (length eds * 32) eds),
      )
      (read_extras eds (length eds * 32) body past small)
