-- ===== src/Pathfinder/Encode/Decode.antt =====
-- The Solidity ABI of the router's swap(), past the selector: what a call reads from the calldata that
-- pathfinder/encode.go writes.
use defi_toolbox_avalanche.Common.{ℕ, ◌*◌, List, map}
use defi_toolbox_avalanche.Common.Bytes.{drop, read_word, read_words, read_bytes}

-- The word of the head at a position.
unfoldable pub head_word : ℕ → List ℕ → ℕ
head_word i payload = read_word (drop (i * 32) payload)

-- The dynamic array whose offset stands at a position of the head.
unfoldable pub read_array : ℕ → List ℕ → List ℕ
unfolding head_word
read_array i payload =
    let at = drop (head_word i payload) payload in read_words (read_word at) (drop 32 at)

-- The array of byte strings, whose offsets count from the end of its length.
unfoldable pub read_bytes_array : ℕ → List ℕ → List (List ℕ)
unfolding head_word
read_bytes_array i payload =
    let at = drop (head_word i payload) payload in
    let body = drop 32 at in
    map (λ offset. read_bytes (drop offset body)) (read_words (read_word at) body)
