-- ===== src/Statedb/CallState/Calls.antt =====
-- The calls that the EVM makes of a CallState between two snapshots, as data.
use defi_toolbox_avalanche.Common.{ℕ, ◌+◌, ◌≤◌, ◌<◌, List, [], ◌∷◌}

pub data Call : Type 0 where
  get_state : ℕ → ℕ → Call
  get_balance get_code exist empty : ℕ → Call
  err : Call
  set_state set_transient_state : ℕ → ℕ → ℕ → Call
  sub_balance add_balance : ℕ → ℕ → Call
  self_destruct add_refund sub_refund add_log : ℕ → Call
  add_address_to_access_list : ℕ → Call
  add_slot_to_access_list : ℕ → ℕ → Call
  snapshot : Call
  revert_to_snapshot : ℕ → Call

-- With `depth` snapshots held, the calls revert only to snapshots that are still held, and to none
-- with an id below `lo`.
abbrev pub Nests : ℕ → ℕ → List Call → Type 0
Nests lo depth [] = Unit
Nests lo depth (Call.snapshot ∷ calls) = Nests lo (depth + 1) calls
Nests lo depth (Call.revert_to_snapshot id ∷ calls) = (lo ≤ id) × (id < depth) × Nests lo id calls
Nests lo depth (_ ∷ calls) = Nests lo depth calls
