-- ===== src/Tests/Statedb.antt =====
-- Examples for statedb/.
use defi_toolbox_avalanche.Common.{
  ◌&&◌, ◌==◌, if◌then◌else◌, ℕ, ◌+◌, ◌≡◌, ◌≢◌, refl, ◌||◌, Option, none, some, List, [], ◌∷◌, arith,
  ◌==◌, if◌then◌else◌, Map, lookup,
}
use defi_toolbox_avalanche.Uint256.Concrete.{wrapping}
use defi_toolbox_avalanche.Statedb.Nested.{lookup₂, put₂}
use defi_toolbox_avalanche.Statedb.CallState.Overlay.{IsValid}
use defi_toolbox_avalanche.Statedb.CallState.Ops.{
  ok, failed, BaseState, CallState, new_call_state, slot_in_access_list, snapshot,
  revert_to_snapshot,
}
use defi_toolbox_avalanche.Statedb.CallState.Calls.{Call}
use defi_toolbox_avalanche.Statedb.CallState.Runs.{run, revert_to_snapshot-run}
use defi_toolbox_avalanche.Statedb.CallState.Session.{
  AccessTuple, reset, prepare, among, names_addr, names_slot, is_dest, prepare-IsValid,
  reset-IsTidy, slot_in_access_list-prepare,
}
use defi_toolbox_avalanche.Statedb.Immutable.{
  ImmutableState, BlockDiff, new_immutable_state, get_storage, apply_diff_in_place,
}
use defi_toolbox_avalanche.Statedb.Immutable.Merge.{
  ◌or_else◌, IsHashed, apply_diff_in_place_reads, apply_diff_in_place-IsHashed,
}
use defi_toolbox_avalanche.Statedb.FastCache.{
  get_state as cached, build_fast_cache, get_state-build_fast_cache,
}
use defi_toolbox_avalanche.Statedb.StateDb.{
  Fetcher, StateDb, new_state_db, set_state as set_state_db, snapshot as snapshot_db,
  revert_to_snapshot as revert_db, apply_block_diff, get_storage_with_err,
}
use defi_toolbox_avalanche.Statedb.StateDb.Layers.{
  get_storage_with_err_stable, get_storage_with_err-apply_block_diff, revert_to_snapshot-keeps,
  get_storage_with_err-set_state, or_value,
}

-- A node that holds 5 in each slot, a balance of 100, and fails for the account 9.
abbrev node : BaseState
node = record {
  get_storage_with_err = λ a k. if a == 9 then failed 1 else ok 5;
  get_balance_with_err = λ a. ok 100;
  get_code_with_err = λ a. ok [];
  get_nonce = λ a. 0;
}

abbrev start : CallState
unfolding new_call_state
start = prepare 1 2 (some 3) (4 ∷ []) [] (reset new_call_state)

start-IsValid : IsValid start.overlay
unfolding new_call_state
start-IsValid =
    prepare-IsValid 1 2 (some 3) (4 ∷ []) [] (reset new_call_state) (reset-IsTidy new_call_state)

-- A nested snapshot that is reverted, and changes of every kind.
abbrev calls : List Call
calls =
    Call.set_state 3 7 8
    ∷ Call.get_state 9 1
    ∷ Call.snapshot
    ∷ Call.set_state 3 7 9
    ∷ Call.add_log 11
    ∷ Call.add_slot_to_access_list 5 6
    ∷ Call.add_slot_to_access_list 5 7
    ∷ Call.add_refund 10
    ∷ Call.sub_balance 3 1
    ∷ Call.set_transient_state 3 1 2
    ∷ Call.revert_to_snapshot 1
    ∷ Call.add_balance 3 1
    ∷ []

revert_to_snapshot-run_example :
    (s' : CallState) × (run wrapping node calls (snapshot start).1 ≡ some s')
    × IsValid s'.overlay
    × (revert_to_snapshot (snapshot start).0 s' ≡ some (record start { last_err = s'.last_err }))
unfolding new_call_state prepare reset
revert_to_snapshot-run_example =
    revert_to_snapshot-run wrapping node start calls start-IsValid (omega arith)

abbrev accesses : List AccessTuple
accesses = record { address = 6; storage_keys = 1 ∷ 2 ∷ [] } ∷ []

prepare-IsValid_example : IsValid (prepare 1 2 (some 3) (4 ∷ []) accesses (reset start)).overlay
unfolding new_call_state
prepare-IsValid_example =
    prepare-IsValid 1 2 (some 3) (4 ∷ []) accesses (reset start) (reset-IsTidy start)

slot_in_access_list-prepare_example :
    slot_in_access_list 6 2 (prepare 1 2 (some 3) (4 ∷ []) accesses start) ≡ (
      names_addr 6 accesses || (among 6 (4 ∷ []) || ((6 == 2) || (is_dest 6 (some 3) || (6 == 1)))),
      names_slot 6 2 accesses,
    )
unfolding new_call_state
slot_in_access_list-prepare_example =
    slot_in_access_list-prepare 1 2 (some 3) (4 ∷ []) accesses start 6 2

abbrev block : BlockDiff
block = record {
  block_num = 8;
  block_time = 80;
  storage = (3, (7, 70) ∷ []) ∷ [];
  balance = (3, 30) ∷ [];
  nonce = [];
}

abbrev backfill : Map (Map ℕ)
backfill = (3, (7, 69) ∷ (8, 80) ∷ []) ∷ []

abbrev sum_hash : List ℕ → ℕ
sum_hash [] = 1
sum_hash (b ∷ bytes) = b + sum_hash bytes

apply_diff_in_place_reads_example :
    let s = new_immutable_state 7 70 in
    let s' = apply_diff_in_place sum_hash block backfill ((5, 1 ∷ []) ∷ []) [] [] s in
    (lookup₂ 3 7 s'.storage
      ≡ lookup₂ 3 7 block.storage or_else lookup₂ 3 7 backfill or_else lookup₂ 3 7 s.storage)
    × (lookup 3 s'.balance ≡ lookup 3 block.balance or_else lookup 3 [] or_else lookup 3 s.balance)
    × (lookup 3 s'.nonce ≡ lookup 3 block.nonce or_else lookup 3 [] or_else lookup 3 s.nonce)
    × (lookup 3 s'.code ≡ lookup 3 ((5, 1 ∷ []) ∷ []) or_else lookup 3 s.code)
apply_diff_in_place_reads_example =
    apply_diff_in_place_reads sum_hash block backfill ((5, 1 ∷ []) ∷ []) [] []
      (new_immutable_state 7 70) 3 7 (refl, (refl, tt), tt) (refl, tt) tt
      (refl, (refl, (refl, tt)), tt) (refl, tt) tt tt

empty-IsHashed : IsHashed sum_hash [] []
empty-IsHashed a c found full = ground arith

apply_diff_in_place-IsHashed_example :
    let s' =
      apply_diff_in_place sum_hash block backfill
        ((5, 1 ∷ []) ∷ [])
        []
        []
        (new_immutable_state 7 70) in
    IsHashed sum_hash s'.code s'.code_hash
unfolding new_immutable_state
apply_diff_in_place-IsHashed_example =
    apply_diff_in_place-IsHashed sum_hash block backfill ((5, 1 ∷ []) ∷ []) [] []
      (new_immutable_state 7 70) (refl, tt) empty-IsHashed

abbrev held_block : ImmutableState
unfolding new_immutable_state
held_block = record (new_immutable_state 7 70) { storage = backfill }

get_state-build_fast_cache_example :
    cached (build_fast_cache held_block) 3 8 ≡ get_storage held_block 3 8
unfolding new_immutable_state
get_state-build_fast_cache_example =
    get_state-build_fast_cache held_block 3 8 (omega arith) (omega arith)
      (refl, (refl, (refl, tt)), tt)

abbrev remote : Option Fetcher
remote = some (record {
  fetch_storage = λ a k. ok 5;
  fetch_balance = λ a. ok 100;
  fetch_nonce = λ a. ok 1;
  fetch_code = λ a. failed 2;
})

remote_given : remote ≢ none
remote_given e = ground arith

abbrev after_read : StateDb
unfolding new_state_db new_immutable_state get_storage_with_err lookup₂ put₂
after_read = (get_storage_with_err sum_hash remote 3 7 new_state_db).1

get_storage_with_err_stable_example :
    get_storage_with_err sum_hash none 3 7 after_read ≡ (ok 5, after_read)
unfolding new_state_db new_immutable_state get_storage_with_err lookup₂ put₂
get_storage_with_err_stable_example =
    get_storage_with_err_stable sum_hash remote none 3 7 5 new_state_db after_read remote_given refl

get_storage_with_err-apply_block_diff_example :
    (get_storage_with_err sum_hash remote 3 7 (apply_block_diff sum_hash block after_read)).0
    ≡ ok 70
unfolding new_state_db new_immutable_state get_storage_with_err lookup₂ put₂
get_storage_with_err-apply_block_diff_example =
    get_storage_with_err-apply_block_diff sum_hash remote block 3 7 70 after_read
      (refl, (refl, tt), tt) (refl, (refl, tt), tt) refl

revert_to_snapshot-keeps_example :
    let (id, taken) = snapshot_db new_state_db in
    (get_storage_with_err sum_hash remote 3 7 (revert_db id (set_state_db 3 7 6 taken))).0 ≡ ok 6
unfolding new_state_db new_immutable_state lookup₂
revert_to_snapshot-keeps_example = revert_to_snapshot-keeps sum_hash remote 3 7 6 new_state_db refl

abbrev after_block : StateDb
unfolding new_state_db new_immutable_state
after_block = record new_state_db { immutable = held_block }

get_storage_with_err-set_state_example :
    (get_storage_with_err sum_hash remote 3 7 (set_state_db 3 7 6 after_block)).0 ≡ (
      if (3 == 3) && (7 == 7)
      then ok (or_value 6 (lookup₂ 3 7 after_block.immutable.storage))
      else (get_storage_with_err sum_hash remote 3 7 after_block).0)
get_storage_with_err-set_state_example =
    get_storage_with_err-set_state sum_hash remote 3 7 6 3 7 after_block
