-- ===== src/Statedb/CallState/Session.antt =====
-- statedb/callstate.go: Reset and Prepare, between EVM calls and before a transaction.
use mathlib.Core.Path.{subst}
use defi_toolbox_avalanche.Common.{
  lookup-insert_self, insert_same, ℕ, ◌≡◌, refl, Bool, true, false, ◌||◌, ◌&&◌, Option, none, some,
  List, [], ◌∷◌, arith, ◌==◌, Map, insert, lookup, lookup-insert,
}
use defi_toolbox_avalanche.Statedb.Nested.{lookup₂, put₂, IsTidy, lookup₂-put₂}
use defi_toolbox_avalanche.Statedb.CallState.Overlay.{IsAccessList, IsValid}
use defi_toolbox_avalanche.Statedb.CallState.Ops.{CallState, flag, slot_in_access_list}
use defi_toolbox_avalanche.Statedb.CallState.Access.{insert-IsAccessList, put₂-IsAccessList}

-- One entry of a transaction's access list.
pub record AccessTuple : Type 0 where
  pub address : ℕ
  pub storage_keys : List ℕ

abbrev pub AccessMaps : Type 0
AccessMaps = Map Bool × Map (Map Bool)

-- `Reset` keeps what Prepare replaces.
unfoldable pub reset : CallState → CallState
reset s =
    let o = s.overlay in
    record {
      overlay = record o { storage_overrides = []; balance_overrides = []; refund = 0; logs = [] };
      journal = [];
      snapshots = [];
      last_err = none;
    }

abbrev pub mark_all : List ℕ → Map Bool → Map Bool
mark_all [] m = m
mark_all (a ∷ rest) m = mark_all rest (insert a true m)

abbrev pub mark_slots : ℕ → List ℕ → Map (Map Bool) → Map (Map Bool)
mark_slots a [] m = m
mark_slots a (k ∷ ks) m = mark_slots a ks (put₂ a k true m)

abbrev pub mark_accesses : List AccessTuple → AccessMaps → AccessMaps
mark_accesses [] m = m
mark_accesses (el ∷ els) (addrs, slots) =
    mark_accesses els (insert el.address true addrs, mark_slots el.address el.storage_keys slots)

abbrev pub mark_dest : Option ℕ → Map Bool → Map Bool
mark_dest none m = m
mark_dest (some a) m = insert a true m

-- `Prepare`; the fork's rules are not read.
unfoldable pub prepare : ℕ → ℕ → Option ℕ → List ℕ → List AccessTuple → CallState → CallState
prepare sender coinbase dest precompiles tx_accesses s =
    let named = insert coinbase true (mark_dest dest (insert sender true [])) in
    let (addrs, slots) = mark_accesses tx_accesses (mark_all precompiles named, []) in
    let o = s.overlay in
    record s {
      overlay = record o { transient = []; accessed_addrs = addrs; accessed_slots = slots };
    }

-- Whether an address, or a slot under it, is named.
abbrev pub among : ℕ → List ℕ → Bool
among a [] = false
among a (b ∷ bs) = (a == b) || among a bs

abbrev pub names_addr : ℕ → List AccessTuple → Bool
names_addr a [] = false
names_addr a (el ∷ els) = (a == el.address) || names_addr a els

abbrev pub names_slot : ℕ → ℕ → List AccessTuple → Bool
names_slot a k [] = false
names_slot a k (el ∷ els) = ((a == el.address) && among k el.storage_keys) || names_slot a k els

abbrev pub is_dest : ℕ → Option ℕ → Bool
is_dest a none = false
is_dest a (some b) = a == b

empty-IsAccessList : IsAccessList [] []
unfolding lookup₂
empty-IsAccessList = record {
  tidy = λ a e. cc;
  addrs_true = λ a e. cc;
  slots_true = λ a k e. cc;
  under_addrs = λ a k e. absurd (e refl);
}

mark_all-IsAccessList :
    (names : List ℕ) (m : Map Bool) (slots : Map (Map Bool))
    → IsAccessList m slots
    → IsAccessList (mark_all names m) slots
mark_all-IsAccessList [] m slots h = h
mark_all-IsAccessList (a ∷ rest) m slots h =
    mark_all-IsAccessList rest (insert a true m) slots (insert-IsAccessList a m slots h)

-- A slot under a recorded address is recorded.
put₂-IsAccessList_old :
    (a k : ℕ) (m : Map Bool) (slots : Map (Map Bool))
    → lookup a m ≡ some true
    → IsAccessList m slots
    → IsAccessList m (put₂ a k true slots)
put₂-IsAccessList_old a k m slots old h =
    subst (λ x. IsAccessList x (put₂ a k true slots)) (insert_same a true m old)
      (put₂-IsAccessList a k m slots h)

mark_slots-IsAccessList :
    (a : ℕ) (ks : List ℕ) (m : Map Bool) (slots : Map (Map Bool))
    → lookup a m ≡ some true
    → IsAccessList m slots
    → IsAccessList m (mark_slots a ks slots)
mark_slots-IsAccessList a [] m slots old h = h
mark_slots-IsAccessList a (k ∷ ks) m slots old h =
    mark_slots-IsAccessList a ks m (put₂ a k true slots) old
      (put₂-IsAccessList_old a k m slots old h)

mark_accesses-IsAccessList :
    (els : List AccessTuple) (addrs : Map Bool) (slots : Map (Map Bool))
    → IsAccessList addrs slots
    → IsAccessList (mark_accesses els (addrs, slots)).0 (mark_accesses els (addrs, slots)).1
mark_accesses-IsAccessList [] addrs slots h = h
mark_accesses-IsAccessList (el ∷ els) addrs slots h =
    mark_accesses-IsAccessList els (insert el.address true addrs)
      (mark_slots el.address el.storage_keys slots)
      (mark_slots-IsAccessList el.address el.storage_keys (insert el.address true addrs) slots
        (lookup-insert_self el.address true addrs) (insert-IsAccessList el.address addrs slots h))

mark_dest-IsAccessList :
    (dest : Option ℕ) (m : Map Bool) (slots : Map (Map Bool))
    → IsAccessList m slots
    → IsAccessList (mark_dest dest m) slots
mark_dest-IsAccessList none m slots h = h
mark_dest-IsAccessList (some a) m slots h = insert-IsAccessList a m slots h

-- Where no inner map of the storage overrides is empty, Prepare leaves a valid overlay: no inner
-- map of the overrides or of the transient storage is empty, and every slot of the access list is
-- under an address of it.
pub prepare-IsValid :
    (sender coinbase : ℕ) (dest : Option ℕ) (precompiles : List ℕ) (els : List AccessTuple)
    (s : CallState)
    → IsTidy s.overlay.storage_overrides
    → IsValid (prepare sender coinbase dest precompiles els s).overlay
unfolding prepare
prepare-IsValid sender coinbase dest precompiles els s h = (
  h,
  (λ a e. cc),
  mark_accesses-IsAccessList els _ [] (
      mark_all-IsAccessList precompiles _ [] (
        insert-IsAccessList coinbase _ [] (
          mark_dest-IsAccessList dest _ [] (insert-IsAccessList sender [] [] empty-IsAccessList)))),
)

-- A new or a reset state has no storage overrides at all.
pub reset-IsTidy : (s : CallState) → IsTidy (reset s).overlay.storage_overrides
unfolding reset
reset-IsTidy s a e = cc

lookup-mark_all :
    (a : ℕ) (names : List ℕ) (m : Map Bool)
    → flag (lookup a (mark_all names m)) ≡ (among a names || flag (lookup a m))
lookup-mark_all a [] m = refl
lookup-mark_all a (b ∷ bs) m =
    ground (arith, lookup-mark_all a bs (insert b true m), lookup-insert a b true m)

lookup-mark_slots :
    (a b k : ℕ) (ks : List ℕ) (m : Map (Map Bool))
    → flag (lookup₂ b k (mark_slots a ks m)) ≡ (((b == a) && among k ks) || flag (lookup₂ b k m))
lookup-mark_slots a b k [] m = ground arith
lookup-mark_slots a b k (j ∷ js) m =
    ground (arith, lookup-mark_slots a b k js (put₂ a j true m), lookup₂-put₂ a b j k true m)

lookup-mark_accesses :
    (a : ℕ) (els : List AccessTuple) (m : AccessMaps)
    → flag (lookup a (mark_accesses els m).0) ≡ (names_addr a els || flag (lookup a m.0))
lookup-mark_accesses a [] m = refl
lookup-mark_accesses a (el ∷ els) m = ground (
  arith,
  lookup-mark_accesses a els
      (insert el.address true m.0, mark_slots el.address el.storage_keys m.1),
  lookup-insert a el.address true m.0,
)

lookup₂-mark_accesses :
    (a k : ℕ) (els : List AccessTuple) (m : AccessMaps)
    → flag (lookup₂ a k (mark_accesses els m).1) ≡ (names_slot a k els || flag (lookup₂ a k m.1))
lookup₂-mark_accesses a k [] m = refl
lookup₂-mark_accesses a k (el ∷ els) m = ground (
  arith,
  lookup₂-mark_accesses a k els
      (insert el.address true m.0, mark_slots el.address el.storage_keys m.1),
  lookup-mark_slots el.address a k el.storage_keys m.1,
)

-- After Prepare an address is in the access list exactly when it is the sender, the destination,
-- the coinbase, a precompile or named by the transaction's access list, and a slot exactly when
-- that list names it; what was there before is gone.
pub slot_in_access_list-prepare :
    (sender coinbase : ℕ) (dest : Option ℕ) (precompiles : List ℕ) (els : List AccessTuple)
    (s : CallState) (a k : ℕ)
    → slot_in_access_list a k (prepare sender coinbase dest precompiles els s) ≡ (
      names_addr a els
          || (among a precompiles || ((a == coinbase) || (is_dest a dest || (a == sender)))),
      names_slot a k els,
    )
unfolding slot_in_access_list prepare lookup₂
slot_in_access_list-prepare sender coinbase none precompiles els s a k =
    let start = insert coinbase true (insert sender true []) in
    ground (
      arith,
      lookup-mark_accesses a els (mark_all precompiles start, []),
      lookup₂-mark_accesses a k els (mark_all precompiles start, []),
      lookup-mark_all a precompiles start,
      lookup-insert a coinbase true (insert sender true []),
    )
slot_in_access_list-prepare sender coinbase (some d) precompiles els s a k =
    let start = insert coinbase true (insert d true (insert sender true [])) in
    ground (
      arith,
      lookup-mark_accesses a els (mark_all precompiles start, []),
      lookup₂-mark_accesses a k els (mark_all precompiles start, []),
      lookup-mark_all a precompiles start,
      lookup-insert a coinbase true (insert d true (insert sender true [])),
      lookup-insert a d true (insert sender true []),
    )
