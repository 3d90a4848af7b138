-- ===== src/Statedb/Immutable.antt =====
-- statedb/immutable.go: the state of one block, and the diff that takes it to the next. A Go map is
-- an association list in which no key stands twice; code is a list of bytes; keccak256, which is not
-- part of the repository, is the argument `keccak`.
pub mod Merge
use defi_toolbox_avalanche.Common.{
  ℕ, ◌<◌, Bool, true, false, Option, none, some, List, [], ◌∷◌, length, ltb, if◌then◌else◌, Map,
  lookup, insert,
}
use defi_toolbox_avalanche.Statedb.Nested.{inner, lookup₂, put₂}

pub record ImmutableState : Type 0 where
  pub block_num : ℕ
  pub block_time : ℕ
  pub storage : Map (Map ℕ)
  pub code : Map (List ℕ)
  pub code_hash : Map ℕ
  pub balance : Map ℕ
  pub nonce : Map ℕ

pub record BlockDiff : Type 0 where
  pub block_num : ℕ
  pub block_time : ℕ
  pub storage : Map (Map ℕ)
  pub balance : Map ℕ
  pub nonce : Map ℕ

unfoldable pub new_immutable_state : ℕ → ℕ → ImmutableState
new_immutable_state block_num block_time = record {
  block_num = block_num;
  block_time = block_time;
  storage = [];
  code = [];
  code_hash = [];
  balance = [];
  nonce = [];
}

-- `GetStorage`: `none` is (zero, false).
unfoldable pub get_storage : ImmutableState → ℕ → ℕ → Option ℕ
get_storage s addr slot = lookup₂ addr slot s.storage

unfoldable pub has_storage_slot : ImmutableState → ℕ → ℕ → Bool
has_storage_slot s addr slot = elim (lookup₂ addr slot s.storage) [ none ↦ false | some _ ↦ true ]

unfoldable pub set_storage : ImmutableState → ℕ → ℕ → ℕ → ImmutableState
set_storage s addr slot value = record s { storage = put₂ addr slot value s.storage }

-- `for k, v := range src { dst[k] = v }`
abbrev pub merge {ℓ} : {V : Type ℓ} → Map V → Map V → Map V
merge [] dst = dst
merge ((k, v) ∷ src) dst = merge src (insert k v dst)

-- `for addr, slots := range src { if dst[addr] == nil { dst[addr] = make(…) }; … }`
abbrev pub merge₂ : Map (Map ℕ) → Map (Map ℕ) → Map (Map ℕ)
merge₂ [] dst = dst
merge₂ ((addr, slots) ∷ src) dst =
    merge₂ src (insert addr (merge slots (inner (lookup addr dst))) dst)

module _ (keccak : List ℕ → ℕ) where
  unfoldable pub set_account : ImmutableState → ℕ → Option ℕ → ℕ → List ℕ → ImmutableState
  set_account s addr balance nonce code = record s {
    balance = elim balance [ none ↦ s.balance | some b ↦ insert addr b s.balance ];
    nonce = insert addr nonce s.nonce;
    code = if ltb 0 (length code) then insert addr code s.code else s.code;
    code_hash = if ltb 0 (length code) then insert addr (keccak code) s.code_hash else s.code_hash;
  }

  -- The hashes of the code that is not empty.
  abbrev pub merge_code_hash : Map (List ℕ) → Map ℕ → Map ℕ
  merge_code_hash [] dst = dst
  merge_code_hash ((addr, code) ∷ src) dst =
      merge_code_hash src (if ltb 0 (length code) then insert addr (keccak code) dst else dst)

  unfoldable pub apply_diff_in_place :
      BlockDiff → Map (Map ℕ) → Map (List ℕ) → Map ℕ → Map ℕ → ImmutableState → ImmutableState
  apply_diff_in_place diff bf_storage bf_code bf_balance bf_nonce s = record {
    block_num = diff.block_num;
    block_time = diff.block_time;
    storage = merge₂ diff.storage (merge₂ bf_storage s.storage);
    code = merge bf_code s.code;
    code_hash = merge_code_hash bf_code s.code_hash;
    balance = merge diff.balance (merge bf_balance s.balance);
    nonce = merge diff.nonce (merge bf_nonce s.nonce);
  }
