-- ===== src/Statedb/CallState/Ops.antt =====
-- statedb/callstate.go: the methods of CallState that the EVM calls. The base state answers a read
-- with a value or with the error of a fetch.
use defi_toolbox_avalanche.Common.{
  ℕ, ◌+◌, ◌-◌, ◌%◌, ◌^◌, Bool, true, false, ◌&&◌, Option, none, some, List, [], ◌∷◌, ◌++◌, length,
  take, get_elem?, ltb, ◌==◌, if◌then◌else◌, lookup, insert,
}
use defi_toolbox_avalanche.Uint256.{Uint256}
use defi_toolbox_avalanche.Statedb.Nested.{lookup₂, put₂}
use defi_toolbox_avalanche.Statedb.CallState.Overlay.{
  Overlay, JournalEntry, storage_change, balance_change, refund_change, access_list_addr,
  access_list_slot, transient_change, log_change, undo_until,
}

-- The answer of the base state; an error is a number.
pub data Fetched (A : Type 0) : Type 0 where
  ok : A → Fetched A
  failed : ℕ → Fetched A

pub record BaseState : Type 0 where
  pub get_storage_with_err : ℕ → ℕ → Fetched ℕ
  pub get_balance_with_err : ℕ → Fetched ℕ
  pub get_code_with_err : ℕ → Fetched (List ℕ)
  pub get_nonce : ℕ → ℕ

pub record CallState : Type 0 where
  pub overlay : Overlay
  pub journal : List JournalEntry
  pub snapshots : List ℕ
  pub last_err : Option ℕ

abbrev pub empty_overlay : Overlay
empty_overlay = record {
  storage_overrides = [];
  balance_overrides = [];
  transient = [];
  accessed_addrs = [];
  accessed_slots = [];
  refund = 0;
  logs = [];
}

unfoldable pub new_call_state : CallState
new_call_state = record { overlay = empty_overlay; journal = []; snapshots = []; last_err = none }

-- `Err`
unfoldable pub err : CallState → Option ℕ × CallState
err s = (s.last_err, record s { last_err = none })

-- A read that may fail: the error is kept, and the value is the zero value.
abbrev pub note_err : {A : Type 0} → A → Fetched A → CallState → A × CallState
note_err zero_value (ok v) s = (v, s)
note_err zero_value (failed e) s = (zero_value, record s { last_err = some e })

-- `m[k]` of a map to bool
abbrev pub flag : Option Bool → Bool
flag none = false
flag (some b) = b

-- A change of the overlay that is entered in the journal.
abbrev pub record_change : JournalEntry → Overlay → CallState → CallState
record_change e o s = record s { overlay = o; journal = e ∷ s.journal }

module _ (u : Uint256) (base : BaseState) where
  unfoldable pub get_state : ℕ → ℕ → CallState → ℕ × CallState
  get_state addr key s = elim (lookup₂ addr key s.overlay.storage_overrides) [
    | some v ↦ (v, s)
    | none ↦ note_err 0 (base.get_storage_with_err addr key) s
  ]

  unfoldable pub get_balance : ℕ → CallState → ℕ × CallState
  get_balance addr s = elim (lookup addr s.overlay.balance_overrides) [
    | some v ↦ (v, s)
    | none ↦ note_err 0 (base.get_balance_with_err addr) s
  ]

  unfoldable pub get_code : ℕ → CallState → List ℕ × CallState
  get_code addr s = note_err [] (base.get_code_with_err addr) s

  unfoldable pub get_code_size : ℕ → CallState → ℕ × CallState
  get_code_size addr s = let (code, s') = get_code addr s in (length code, s')

  abbrev pub set_balance : ℕ → (ℕ → ℕ) → CallState → CallState
  set_balance addr change s =
      let e = balance_change addr (lookup addr s.overlay.balance_overrides) in
      let (bal, s') = get_balance addr s in
      let o = s'.overlay in
      record_change e
        (record o { balance_overrides = insert addr (change bal) o.balance_overrides }) s'

  unfoldable pub sub_balance : ℕ → ℕ → CallState → CallState
  unfolding get_balance
  sub_balance addr amount = set_balance addr (λ bal. u.sub bal amount)

  unfoldable pub add_balance : ℕ → ℕ → CallState → CallState
  unfolding get_balance
  add_balance addr amount = set_balance addr (λ bal. u.add bal amount)

  -- `Exist`: the sign that uint256 gives a word of which the top bit is set is negative
  unfoldable pub exist : ℕ → CallState → Bool × CallState
  exist addr s =
      let (size, s') = get_code_size addr s in
      if ltb 0 size
      then (true, s')
      else let (bal, s'') = get_balance addr s' in (ltb 0 bal && ltb bal (2 ^ 255), s'')

  -- `Empty`: `&&` reads the code only of an account with no balance and no nonce
  unfoldable pub is_empty_account : ℕ → CallState → Bool × CallState
  is_empty_account addr s =
      let (bal, s') = get_balance addr s in
      if (bal == 0) && (base.get_nonce addr == 0)
      then (let (size, s'') = get_code_size addr s' in (size == 0, s''))
      else (false, s')

unfoldable pub set_state : ℕ → ℕ → ℕ → CallState → CallState
set_state addr key value s =
    let o = s.overlay in
    record_change (storage_change addr key (lookup₂ addr key o.storage_overrides))
      (record o { storage_overrides = put₂ addr key value o.storage_overrides }) s

unfoldable pub self_destruct : ℕ → CallState → CallState
self_destruct addr s =
    let o = s.overlay in
    record_change (balance_change addr (lookup addr o.balance_overrides))
      (record o { balance_overrides = insert addr 0 o.balance_overrides }) s

-- The refund counter is a uint64.
abbrev pub set_refund : ℕ → CallState → CallState
set_refund r s =
    record_change (refund_change s.overlay.refund) (record (s.overlay) { refund = r }) s

unfoldable pub add_refund : ℕ → CallState → CallState
add_refund gas s = set_refund ((s.overlay.refund + gas) % 2 ^ 64) s

unfoldable pub sub_refund : ℕ → CallState → CallState
sub_refund gas s = set_refund ((s.overlay.refund + 2 ^ 64 - gas) % 2 ^ 64) s

-- `slots[key]` of a missing key is the zero hash
unfoldable pub get_transient_state : ℕ → ℕ → CallState → ℕ
get_transient_state addr key s = elim (lookup₂ addr key s.overlay.transient) [
  | some v ↦ v
  | none ↦ 0
]

unfoldable pub set_transient_state : ℕ → ℕ → ℕ → CallState → CallState
set_transient_state addr key value s =
    let o = s.overlay in
    record_change (transient_change addr key (lookup₂ addr key o.transient))
      (record o { transient = put₂ addr key value o.transient }) s

unfoldable pub address_in_access_list : ℕ → CallState → Bool
address_in_access_list addr s = flag (lookup addr s.overlay.accessed_addrs)

unfoldable pub slot_in_access_list : ℕ → ℕ → CallState → Bool × Bool
unfolding address_in_access_list
slot_in_access_list addr slot s =
    (address_in_access_list addr s, flag (lookup₂ addr slot s.overlay.accessed_slots))

unfoldable pub add_address_to_access_list : ℕ → CallState → CallState
unfolding address_in_access_list
add_address_to_access_list addr s =
    let o = s.overlay in
    let o' = record o { accessed_addrs = insert addr true o.accessed_addrs } in
    if address_in_access_list addr s
    then record s { overlay = o' }
    else record_change (access_list_addr addr) o' s

unfoldable pub add_slot_to_access_list : ℕ → ℕ → CallState → CallState
unfolding slot_in_access_list address_in_access_list
add_slot_to_access_list addr slot s =
    let o = s.overlay in
    let (had_addr, had_slot) = slot_in_access_list addr slot s in
    let o' = record o {
      accessed_addrs = insert addr true o.accessed_addrs;
      accessed_slots = put₂ addr slot true o.accessed_slots;
    } in
    if had_slot
    then record s { overlay = o' }
    else record_change (access_list_slot addr slot had_addr) o' s

unfoldable pub add_log : ℕ → CallState → CallState
add_log entry s =
    let o = s.overlay in
    record_change (log_change (length o.logs)) (record o { logs = o.logs ++ entry ∷ [] }) s

-- The new snapshot's id, and the state.
unfoldable pub snapshot : CallState → ℕ × CallState
snapshot s = (length s.snapshots, record s { snapshots = s.snapshots ++ length s.journal ∷ [] })

-- An unknown id panics; so is a target beyond the journal counted, which no snapshot holds.
unfoldable pub revert_to_snapshot : ℕ → CallState → Option CallState
unfolding undo_until
revert_to_snapshot id s = elim (get_elem? s.snapshots id) [
  | none ↦ none
  | some target ↦
      if ltb (length s.journal) target then none else elim (undo_until target s.journal s.overlay) [
        | none ↦ none
        | some (journal, o) ↦
            some (record s { overlay = o; journal = journal; snapshots = take id s.snapshots })
      ]
]
