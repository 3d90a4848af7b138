-- ===== src/Statedb/StateDb.antt =====
-- statedb/statedb.go: the state of the latest block over a backfill of fetched values. The locks
-- make each method one step. The pointer to the immutable state changes only in SetImmutable, which
-- is not modelled, so a snapshot need not hold it. A fetcher is the network or another StateDB; it is
-- an argument, with the answers that it gives meanwhile.
pub mod Layers
use defi_toolbox_avalanche.Common.{
  ℕ, suc, ◌+◌, ◌-◌, ◌%◌, ◌^◌, Bool, true, false, Option, none, some, List, [], ◌∷◌, ◌++◌, length,
  ltb, ◌==◌, if◌then◌else◌, Map, lookup, insert, erase,
}
use defi_toolbox_avalanche.Uint256.{Uint256}
use defi_toolbox_avalanche.Statedb.Nested.{lookup₂, put₂}
use defi_toolbox_avalanche.Statedb.CallState.Ops.{Fetched, ok, failed}
use defi_toolbox_avalanche.Statedb.Immutable.{
  ImmutableState, BlockDiff, new_immutable_state, apply_diff_in_place,
}

-- `Fetcher`
pub record Fetcher : Type 0 where
  pub fetch_storage : ℕ → ℕ → Fetched ℕ
  pub fetch_balance : ℕ → Fetched ℕ
  pub fetch_nonce : ℕ → Fetched ℕ
  pub fetch_code : ℕ → Fetched (List ℕ)

pub record StateSnapshot : Type 0 where
  pub id : ℕ
  pub refund : ℕ

pub record StateDb : Type 0 where
  pub immutable : ImmutableState
  pub bf_storage : Map (Map ℕ)
  pub bf_code : Map (List ℕ)
  pub bf_code_hash : Map ℕ
  pub bf_balance : Map ℕ
  pub bf_nonce : Map ℕ
  pub refund : ℕ
  pub snapshots : List StateSnapshot
  pub snap_id : ℕ

unfoldable pub new_state_db : StateDb
unfolding new_immutable_state
new_state_db = record {
  immutable = new_immutable_state 0 0;
  bf_storage = [];
  bf_code = [];
  bf_code_hash = [];
  bf_balance = [];
  bf_nonce = [];
  refund = 0;
  snapshots = [];
  snap_id = 0;
}

-- A value of the block, else of the backfill, else fetched and kept; with no fetcher, the zero value.
abbrev pub through :
    {A : Type 0}
    → Option A
    → Option A
    → Option (Fetched A)
    → A
    → (A → StateDb)
    → StateDb
    → Fetched A × StateDb
through (some v) backfill fetch zero_value keep s = (ok v, s)
through none (some v) fetch zero_value keep s = (ok v, s)
through none none none zero_value keep s = (ok zero_value, s)
through none none (some (ok v)) zero_value keep s = (ok v, keep v)
through none none (some (failed e)) zero_value keep s = (failed e, s)

abbrev pub ask : {A : Type 0} → Option Fetcher → (Fetcher → Fetched A) → Option (Fetched A)
ask none question = none
ask (some f) question = some (question f)

unfoldable pub set_state : ℕ → ℕ → ℕ → StateDb → StateDb
set_state addr key value s = record s { bf_storage = put₂ addr key value s.bf_storage }

unfoldable pub set_nonce : ℕ → ℕ → StateDb → StateDb
set_nonce addr n s = record s { bf_nonce = insert addr n s.bf_nonce }

-- `Snapshot` counts from 1.
unfoldable pub snapshot : StateDb → ℕ × StateDb
snapshot s =
    let id = s.snap_id + 1 in
    (
      id,
      record s {
        snap_id = id;
        snapshots = s.snapshots ++ record { id = id; refund = s.refund } ∷ [];
      },
    )

-- The last snapshot with the id, and those before it.
abbrev pub find_snapshot : ℕ → List StateSnapshot → Option (StateSnapshot × List StateSnapshot)
find_snapshot id [] = none
find_snapshot id (x ∷ xs) = elim (find_snapshot id xs) [
  | some (y, before) ↦ some (y, x ∷ before)
  | none ↦ if x.id == id then some (x, []) else none
]

unfoldable pub revert_to_snapshot : ℕ → StateDb → StateDb
revert_to_snapshot id s = elim (find_snapshot id s.snapshots) [
  | none ↦ s
  | some (snap, before) ↦ record s { refund = snap.refund; snapshots = before }
]

-- GetNonce and GetBalance drop the error: its value is zero.
abbrev pub or_zero : Fetched ℕ × StateDb → ℕ × StateDb
or_zero (ok v, s) = (v, s)
or_zero (failed _, s) = (0, s)

module _ (keccak : List ℕ → ℕ) where
  unfoldable pub set_code : ℕ → List ℕ → StateDb → StateDb
  set_code addr code s = record s {
    bf_code = insert addr code s.bf_code;
    bf_code_hash =
        if ltb 0 (length code)
        then insert addr (keccak code) s.bf_code_hash
        else erase addr s.bf_code_hash;
  }

  unfoldable pub set_account : ℕ → Option ℕ → ℕ → List ℕ → StateDb → StateDb
  set_account addr balance nonce code s = record s {
    bf_balance = elim balance [ none ↦ s.bf_balance | some b ↦ insert addr b s.bf_balance ];
    bf_nonce = insert addr nonce s.bf_nonce;
    bf_code = if ltb 0 (length code) then insert addr code s.bf_code else s.bf_code;
    bf_code_hash =
        if ltb 0 (length code) then insert addr (keccak code) s.bf_code_hash else s.bf_code_hash;
  }

  -- `ApplyBlockDiff`: the backfill is merged and cleared.
  unfoldable pub apply_block_diff : BlockDiff → StateDb → StateDb
  unfolding apply_diff_in_place
  apply_block_diff diff s = record s {
    immutable =
        apply_diff_in_place keccak diff s.bf_storage s.bf_code s.bf_balance s.bf_nonce s.immutable;
    bf_storage = [];
    bf_code = [];
    bf_code_hash = [];
    bf_balance = [];
    bf_nonce = [];
  }

module _ (keccak : List ℕ → ℕ) (fetcher : Option Fetcher) where
  unfoldable pub get_storage_with_err : ℕ → ℕ → StateDb → Fetched ℕ × StateDb
  get_storage_with_err addr key s =
      through (lookup₂ addr key s.immutable.storage) (lookup₂ addr key s.bf_storage)
        (ask fetcher (λ f. f.fetch_storage addr key)) 0
        (λ v. record s { bf_storage = put₂ addr key v s.bf_storage }) s

  unfoldable pub get_balance_with_err : ℕ → StateDb → Fetched ℕ × StateDb
  get_balance_with_err addr s =
      through (lookup addr s.immutable.balance) (lookup addr s.bf_balance)
        (ask fetcher (λ f. f.fetch_balance addr)) 0
        (λ v. record s { bf_balance = insert addr v s.bf_balance }) s

  unfoldable pub get_code_with_err : ℕ → StateDb → Fetched (List ℕ) × StateDb
  get_code_with_err addr s =
      through (lookup addr s.immutable.code) (lookup addr s.bf_code)
        (ask fetcher (λ f. f.fetch_code addr)) []
        (λ code. record s {
          bf_code = insert addr code s.bf_code;
          bf_code_hash =
              if ltb 0 (length code)
              then insert addr (keccak code) s.bf_code_hash
              else s.bf_code_hash;
        })
        s

  unfoldable pub get_nonce : ℕ → StateDb → ℕ × StateDb
  get_nonce addr s = or_zero (
      through (lookup addr s.immutable.nonce) (lookup addr s.bf_nonce)
        (ask fetcher (λ f. f.fetch_nonce addr)) 0
        (λ v. record s { bf_nonce = insert addr v s.bf_nonce }) s)

  unfoldable pub sub_balance : Uint256 → ℕ → ℕ → StateDb → StateDb
  unfolding get_balance_with_err
  sub_balance u addr amount s =
      let (bal, s') = or_zero (get_balance_with_err addr s) in
      record s' { bf_balance = insert addr (u.sub bal amount) s'.bf_balance }

  unfoldable pub add_balance : Uint256 → ℕ → ℕ → StateDb → StateDb
  unfolding get_balance_with_err
  add_balance u addr amount s =
      let (bal, s') = or_zero (get_balance_with_err addr s) in
      record s' { bf_balance = insert addr (u.add bal amount) s'.bf_balance }
