-- ===== src/Statedb/Immutable/Merge.antt =====
-- What a merge of maps answers: the merged map's entry where it has one.
use defi_toolbox_avalanche.Common.{
  ℕ, ◌≡◌, ◌≢◌, refl, ap, ◌∙◌, Option, none, some, List, [], ◌∷◌, arith, ltb, length, if◌then◌else◌,
  Map, lookup, insert, lookup-insert,
}
use defi_toolbox_avalanche.Statedb.Nested.{inner, lookup₂}
use defi_toolbox_avalanche.Statedb.Immutable.{
  ImmutableState, BlockDiff, merge, merge₂, merge_code_hash, apply_diff_in_place,
}

-- No key stands twice.
abbrev pub IsMap {ℓ} : {V : Type ℓ} → Map V → Type ℓ
IsMap [] = Unit
IsMap ((k, v) ∷ m) = (lookup k m ≡ none) × IsMap m

abbrev pub IsMap₂ : Map (Map ℕ) → Type 0
IsMap₂ [] = Unit
IsMap₂ ((k, m) ∷ ms) = (lookup k ms ≡ none) × IsMap m × IsMap₂ ms

-- The first of two answers.
infixr 60 ◌or_else◌
abbrev pub ◌or_else◌ {ℓ} : {A : Type ℓ} → Option A → Option A → Option A
(some a) or_else o = some a
none or_else o = o

pub lookup-merge {ℓ} :
    {V : Type ℓ} (k : ℕ) (src dst : Map V)
    → IsMap src
    → lookup k (merge src dst) ≡ lookup k src or_else lookup k dst
lookup-merge k [] dst h = refl
lookup-merge k ((j, v) ∷ src) dst h =
    ground (arith, lookup-merge k src (insert j v dst) h.1, lookup-insert k j v dst, h.0)

pub lookup₂-merge₂ :
    (a k : ℕ) (src dst : Map (Map ℕ))
    → IsMap₂ src
    → lookup₂ a k (merge₂ src dst) ≡ lookup₂ a k src or_else lookup₂ a k dst
unfolding lookup₂
lookup₂-merge₂ a k [] dst h = refl
lookup₂-merge₂ a k ((b, slots) ∷ src) dst h = ground (
  arith,
  lookup₂-merge₂ a k src (insert b (merge slots (inner (lookup b dst))) dst) h.2,
  lookup-insert a b (merge slots (inner (lookup b dst))) dst,
  lookup-merge k slots (inner (lookup b dst)) h.1,
  h.0,
)

module _ (keccak : List ℕ → ℕ) where
  -- Where no key stands twice in a map of the diff or the backfill, after ApplyDiffInPlace every
  -- slot, balance and nonce is that of the diff, else that of the backfill, else what it was, and
  -- every code is that of the backfill, else what it was: a stale backfill value never hides a
  -- change of the block.
  pub apply_diff_in_place_reads :
      (diff : BlockDiff) (bf_storage : Map (Map ℕ)) (bf_code : Map (List ℕ))
      (bf_balance bf_nonce : Map ℕ) (s : ImmutableState) (a k : ℕ)
      → IsMap₂ diff.storage
      → IsMap diff.balance
      → IsMap diff.nonce
      → IsMap₂ bf_storage
      → IsMap bf_code
      → IsMap bf_balance
      → IsMap bf_nonce
      → let s' = apply_diff_in_place keccak diff bf_storage bf_code bf_balance bf_nonce s in
        (lookup₂ a k s'.storage
          ≡ lookup₂ a k diff.storage or_else lookup₂ a k bf_storage or_else lookup₂ a k s.storage)
        × (lookup a s'.balance
            ≡ lookup a diff.balance or_else lookup a bf_balance or_else lookup a s.balance)
        × (lookup a s'.nonce
            ≡ lookup a diff.nonce or_else lookup a bf_nonce or_else lookup a s.nonce)
        × (lookup a s'.code ≡ lookup a bf_code or_else lookup a s.code)
  unfolding apply_diff_in_place
  apply_diff_in_place_reads diff bf_storage bf_code bf_balance bf_nonce s a k ds db dn bs bc bb bn =
      (
        lookup₂-merge₂ a k diff.storage (merge₂ bf_storage s.storage) ds
            ∙ ap (λ o. lookup₂ a k diff.storage or_else o)
                (lookup₂-merge₂ a k bf_storage s.storage bs),
        lookup-merge a diff.balance (merge bf_balance s.balance) db
            ∙ ap (λ o. lookup a diff.balance or_else o) (lookup-merge a bf_balance s.balance bb),
        lookup-merge a diff.nonce (merge bf_nonce s.nonce) dn
            ∙ ap (λ o. lookup a diff.nonce or_else o) (lookup-merge a bf_nonce s.nonce bn),
        lookup-merge a bf_code s.code bc,
      )

  -- The hashes agree with the code.
  abbrev pub IsHashed : Map (List ℕ) → Map ℕ → Type 0
  IsHashed code hashes =
      (a : ℕ) (c : List ℕ) → lookup a code ≡ some c → c ≢ [] → lookup a hashes ≡ some (keccak c)

  lookup-merge_code_hash :
      (a : ℕ) (src : Map (List ℕ)) (dst : Map ℕ)
      → IsMap src
      → lookup a (merge_code_hash keccak src dst) ≡ (elim (lookup a src) [
        | none ↦ lookup a dst
        | some c ↦ if ltb 0 (length c) then some (keccak c) else lookup a dst
      ])
  lookup-merge_code_hash a [] dst h = refl
  lookup-merge_code_hash a ((b, []) ∷ src) dst h =
      ground (arith, lookup-merge_code_hash a src dst h.1, h.0)
  lookup-merge_code_hash a ((b, c ∷ cs) ∷ src) dst h = ground (
    arith,
    lookup-merge_code_hash a src (insert b (keccak (c ∷ cs)) dst) h.1,
    lookup-insert a b (keccak (c ∷ cs)) dst,
    h.0,
  )

  -- Where every code that is not empty has its hash beside it, and no key stands twice in the
  -- backfilled code, the same holds after ApplyDiffInPlace.
  pub apply_diff_in_place-IsHashed :
      (diff : BlockDiff) (bf_storage : Map (Map ℕ)) (bf_code : Map (List ℕ))
      (bf_balance bf_nonce : Map ℕ) (s : ImmutableState)
      → IsMap bf_code
      → IsHashed s.code s.code_hash
      → let s' = apply_diff_in_place keccak diff bf_storage bf_code bf_balance bf_nonce s in
        IsHashed s'.code s'.code_hash
  unfolding apply_diff_in_place
  apply_diff_in_place-IsHashed diff bf_storage bf_code bf_balance bf_nonce s h old a [] found full =
      absurd (full refl)
  apply_diff_in_place-IsHashed diff bf_storage bf_code bf_balance bf_nonce s h old a (x ∷ c) found
        full =
      ground (
        arith,
        lookup-merge_code_hash a bf_code s.code_hash h,
        lookup-merge a bf_code s.code h,
        old a (x ∷ c),
      )
