-- ===== src/Statedb/CallState/Access.antt =====
-- statedb/callstate.go: the access list and its journal entries.
use defi_toolbox_avalanche.Common.{
  ℕ, ◌≡◌, ◌≢◌, refl, inl, inr, Bool, true, false, Option, none, some, arith, Bool-cases, Map,
  lookup, insert, lookup-insert, erase-insert, insert_same,
}
use defi_toolbox_avalanche.Statedb.Nested.{
  lookup₂, put₂, put₂-IsTidy, delete₂-put₂, put₂_same, lookup₂-put₂,
}
use defi_toolbox_avalanche.Statedb.CallState.Overlay.{
  Overlay, access_list_slot, revert, IsAccessList, IsValid,
}
use defi_toolbox_avalanche.Statedb.CallState.Ops.{
  CallState, flag, add_address_to_access_list, add_slot_to_access_list,
}
use defi_toolbox_avalanche.Statedb.CallState.Undo.{Recorded, recorded}

pub insert-IsAccessList :
    (a : ℕ) (addrs : Map Bool) (slots : Map (Map Bool))
    → IsAccessList addrs slots
    → IsAccessList (insert a true addrs) slots
insert-IsAccessList a addrs slots h = record {
  tidy = h.tidy;
  addrs_true = λ b e. ground (arith, lookup-insert b a true addrs, h.addrs_true b);
  slots_true = h.slots_true;
  under_addrs = λ b k e. ground (arith, lookup-insert b a true addrs, h.under_addrs b k e);
}

pub put₂-IsAccessList :
    (a k : ℕ) (addrs : Map Bool) (slots : Map (Map Bool))
    → IsAccessList addrs slots
    → IsAccessList (insert a true addrs) (put₂ a k true slots)
put₂-IsAccessList a k addrs slots h = record {
  tidy = put₂-IsTidy a k true slots h.tidy;
  addrs_true = λ b e. ground (arith, lookup-insert b a true addrs, h.addrs_true b);
  slots_true = λ b j e. ground (arith, lookup₂-put₂ a b k j true slots, h.slots_true b j);
  under_addrs = λ b j e.
      ground
        (arith, lookup-insert b a true addrs, lookup₂-put₂ a b k j true slots, h.under_addrs b j);
}

-- A flag that only ever holds `true` is absent where it reads `false`.
flag-false : (o : Option Bool) → o ≢ some false → flag o ≡ false → o ≡ none
flag-false none h e = refl
flag-false (some true) h e = cc
flag-false (some false) h e = absurd (h refl)

flag-true : (o : Option Bool) → flag o ≡ true → o ≡ some true
flag-true none e = cc
flag-true (some b) e = cc

pub add_address_to_access_list-Recorded :
    (a : ℕ) (s : CallState) → IsValid s.overlay → Recorded s (add_address_to_access_list a s)
unfolding add_address_to_access_list revert
add_address_to_access_list-Recorded a s h =
    let addrs = s.overlay.accessed_addrs in
    elim (Bool-cases (flag (lookup a addrs))) [
      | inl old ↦
          rw (old, insert_same a true addrs (flag-true _ old))
            (record { valid = h; snapshots_same = refl; entry = inl (refl, refl) })
      | inr new ↦ rw new (
          recorded s _ _ (h.0, h.1, insert-IsAccessList a addrs s.overlay.accessed_slots h.2)
            (rw (erase-insert a true addrs (flag-false _ (h.2.addrs_true a) new))))
    ]

undo_slot :
    (a k : ℕ) (o : Overlay) (had_addr : Bool)
    → IsAccessList o.accessed_addrs o.accessed_slots
    → flag (lookup₂ a k o.accessed_slots) ≡ false
    → flag (lookup a o.accessed_addrs) ≡ had_addr
    → revert (access_list_slot a k had_addr) (record o {
      accessed_addrs = insert a true o.accessed_addrs;
      accessed_slots = put₂ a k true o.accessed_slots;
    })
      ≡ some o
unfolding revert
undo_slot a k o true h new e = rw (
  delete₂-put₂ a k true o.accessed_slots h.tidy (flag-false _ (h.slots_true a k) new),
  insert_same a true o.accessed_addrs (flag-true _ e),
)
undo_slot a k o false h new e = rw (
  delete₂-put₂ a k true o.accessed_slots h.tidy (flag-false _ (h.slots_true a k) new),
  erase-insert a true o.accessed_addrs (flag-false _ (h.addrs_true a) e),
)

pub add_slot_to_access_list-Recorded :
    (a k : ℕ) (s : CallState) → IsValid s.overlay → Recorded s (add_slot_to_access_list a k s)
unfolding add_slot_to_access_list
add_slot_to_access_list-Recorded a k s h =
    let addrs = s.overlay.accessed_addrs in
    let slots = s.overlay.accessed_slots in
    elim (Bool-cases (flag (lookup₂ a k slots))) [
      | inl old ↦
          rw
            (
              old,
              put₂_same a k true slots (flag-true _ old),
              insert_same a true addrs (h.2.under_addrs a k (slot_present _ old)),
            )
            (record { valid = h; snapshots_same = refl; entry = inl (refl, refl) })
      | inr new ↦ rw new (
          recorded s _ _ (h.0, h.1, put₂-IsAccessList a k addrs slots h.2)
            (undo_slot a k s.overlay _ h.2 new refl))
    ]
  where
    slot_present : (o : Option Bool) → flag o ≡ true → o ≢ none
    slot_present none e p = cc
    slot_present (some b) e p = cc
