-- ===== src/Statedb/CallState/Overlay.antt =====
-- statedb/callstate.go: the fields of CallState that the journal can undo, and the journal entries.
-- A panic of the Go code is `none`.
use defi_toolbox_avalanche.Common.{
  ℕ, ◌≡◌, ◌≢◌, Bool, true, false, Option, none, some, List, [], ◌∷◌, length, take, leb,
  if◌then◌else◌, Map, lookup, insert, erase,
}
use defi_toolbox_avalanche.Statedb.Nested.{restore₂, delete₂, lookup₂, IsTidy}

pub record Overlay : Type 0 where
  pub storage_overrides : Map (Map ℕ)
  pub balance_overrides : Map ℕ
  pub transient : Map (Map ℕ)
  pub accessed_addrs : Map Bool
  pub accessed_slots : Map (Map Bool)
  pub refund : ℕ
  pub logs : List ℕ

-- `prev` and `had` are the old value, if there was one.
pub data JournalEntry : Type 0 where
  storage_change : ℕ → ℕ → Option ℕ → JournalEntry
  balance_change : ℕ → Option ℕ → JournalEntry
  refund_change : ℕ → JournalEntry
  access_list_addr : ℕ → JournalEntry
  access_list_slot : ℕ → ℕ → Bool → JournalEntry
  transient_change : ℕ → ℕ → Option ℕ → JournalEntry
  log_change : ℕ → JournalEntry

abbrev pub map_option : {A B : Type 0} → (A → B) → Option A → Option B
map_option f none = none
map_option f (some a) = some (f a)

-- The methods `revert`. A slice expression past the length is a panic.
unfoldable pub revert : JournalEntry → Overlay → Option Overlay
unfolding restore₂ delete₂
revert (storage_change addr key none) o =
    some (record o { storage_overrides = delete₂ addr key o.storage_overrides })
revert (storage_change addr key (some prev)) o =
    map_option (λ m. record o { storage_overrides = m })
      (restore₂ addr key prev o.storage_overrides)
revert (balance_change addr none) o =
    some (record o { balance_overrides = erase addr o.balance_overrides })
revert (balance_change addr (some prev)) o =
    some (record o { balance_overrides = insert addr prev o.balance_overrides })
revert (refund_change prev) o = some (record o { refund = prev })
revert (access_list_addr addr) o = some (record o { accessed_addrs = erase addr o.accessed_addrs })
revert (access_list_slot addr slot had_addr) o = some (record o {
  accessed_slots = delete₂ addr slot o.accessed_slots;
  accessed_addrs = if had_addr then o.accessed_addrs else erase addr o.accessed_addrs;
})
revert (transient_change addr key none) o =
    some (record o { transient = delete₂ addr key o.transient })
revert (transient_change addr key (some prev)) o =
    map_option (λ m. record o { transient = m }) (restore₂ addr key prev o.transient)
revert (log_change prev_len) o =
    if leb prev_len (length o.logs) then some (record o { logs = take prev_len o.logs }) else none

-- The loop of RevertToSnapshot: the entries at `target` and later are reverted, the last one first.
-- The index of an entry is the number of those below it.
unfoldable pub undo_until : ℕ → List JournalEntry → Overlay → Option (List JournalEntry × Overlay)
undo_until target [] o = some ([], o)
undo_until target (e ∷ journal) o =
    if leb target (length journal)
    then elim (revert e o) [ none ↦ none | some o' ↦ undo_until target journal o' ]
    else some (e ∷ journal, o)

-- A recorded access is `true`, and a slot is recorded only under a recorded address.
pub record IsAccessList (addrs : Map Bool) (slots : Map (Map Bool)) : Type 0 where
  pub tidy : IsTidy slots
  pub addrs_true : (a : ℕ) → lookup a addrs ≢ some false
  pub slots_true : (a k : ℕ) → lookup₂ a k slots ≢ some false
  pub under_addrs : (a k : ℕ) → lookup₂ a k slots ≢ none → lookup a addrs ≡ some true

-- What every reachable overlay satisfies.
abbrev pub IsValid : Overlay → Type 0
IsValid o =
    IsTidy o.storage_overrides × IsTidy o.transient × IsAccessList o.accessed_addrs o.accessed_slots
