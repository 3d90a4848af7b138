-- ===== src/Statedb/CallState/Runs.antt =====
-- Runs of calls on a CallState, and what a snapshot guards against.
use mathlib.Core.Path.{subst}
use defi_toolbox_avalanche.Common.{
  ◌+◌, ◌≡◌, refl, sym, Option, none, some, List, [], ◌∷◌, length, length-append,
}
use defi_toolbox_avalanche.Uint256.{Uint256}
use defi_toolbox_avalanche.Statedb.CallState.Overlay.{IsValid}
use defi_toolbox_avalanche.Statedb.CallState.Ops.{
  BaseState, CallState, err, get_state, get_balance, get_code, exist, is_empty_account, sub_balance,
  add_balance, set_state, self_destruct, add_refund, sub_refund, set_transient_state,
  add_address_to_access_list, add_slot_to_access_list, add_log, snapshot, revert_to_snapshot,
}
use defi_toolbox_avalanche.Statedb.CallState.Calls.{Call, Nests}
use defi_toolbox_avalanche.Statedb.CallState.Undo.{
  Recorded, get_state-Recorded, get_balance-Recorded, get_code-Recorded, exist-Recorded,
  is_empty_account-Recorded, err-Recorded, sub_balance-Recorded, add_balance-Recorded,
  set_state-Recorded, self_destruct-Recorded, add_refund-Recorded, sub_refund-Recorded,
  set_transient_state-Recorded, add_log-Recorded,
}
use defi_toolbox_avalanche.Statedb.CallState.Access.{
  add_address_to_access_list-Recorded, add_slot_to_access_list-Recorded,
}
use defi_toolbox_avalanche.Statedb.CallState.Snapshot.{
  Since, Since-snapshot, Since-Recorded, Since-snapshot_again, Since-revert, Since-restored,
}

length-snapshot : (s : CallState) → length (snapshot s).1.snapshots ≡ length s.snapshots + 1
unfolding snapshot
length-snapshot s = length-append s.snapshots (length s.journal ∷ [])

module _ (u : Uint256) (base : BaseState) where
  -- One call; `none` is a panic.
  unfoldable pub exec : Call → CallState → Option CallState
  exec (Call.get_state a k) s = some (get_state u base a k s).1
  exec (Call.get_balance a) s = some (get_balance u base a s).1
  exec (Call.get_code a) s = some (get_code u base a s).1
  exec (Call.exist a) s = some (exist u base a s).1
  exec (Call.empty a) s = some (is_empty_account u base a s).1
  exec Call.err s = some (err s).1
  exec (Call.set_state a k v) s = some (set_state a k v s)
  exec (Call.set_transient_state a k v) s = some (set_transient_state a k v s)
  exec (Call.sub_balance a x) s = some (sub_balance u base a x s)
  exec (Call.add_balance a x) s = some (add_balance u base a x s)
  exec (Call.self_destruct a) s = some (self_destruct a s)
  exec (Call.add_refund g) s = some (add_refund g s)
  exec (Call.sub_refund g) s = some (sub_refund g s)
  exec (Call.add_log l) s = some (add_log l s)
  exec (Call.add_address_to_access_list a) s = some (add_address_to_access_list a s)
  exec (Call.add_slot_to_access_list a k) s = some (add_slot_to_access_list a k s)
  exec Call.snapshot s = some (snapshot s).1
  exec (Call.revert_to_snapshot id) s = revert_to_snapshot id s

  unfoldable pub run : List Call → CallState → Option CallState
  unfolding exec
  run [] s = some s
  run (c ∷ calls) s = elim (exec c s) [ none ↦ none | some s' ↦ run calls s' ]

  -- The run ends, in a state that still goes back to `s₀`.
  abbrev Ends : CallState → List Call → CallState → Type 0
  Ends s₀ calls s = (s' : CallState) × (run calls s ≡ some s') × Since s₀ s'

  plain :
      (calls : List Call) (s₀ s s' : CallState)
      → ((t : CallState)
          → Since s₀ t
          → Nests (length s₀.snapshots + 1) (length t.snapshots) calls
          → Ends s₀ calls t)
      → Since s₀ s
      → Nests (length s₀.snapshots + 1) (length s.snapshots) calls
      → Recorded s s'
      → Ends s₀ calls s'
  plain calls s₀ s s' later h n r = later s' (Since-Recorded s₀ s s' h r) (rw r.snapshots_same n)

  run-Since :
      (calls : List Call) (s₀ s : CallState)
      → Since s₀ s
      → Nests (length s₀.snapshots + 1) (length s.snapshots) calls
      → Ends s₀ calls s
  unfolding run
  run-Since [] s₀ s h n = (s, refl, h)
  run-Since (Call.get_state a k ∷ calls) s₀ s h n =
      plain calls s₀ s _ (run-Since calls s₀) h n (get_state-Recorded u base a k s h.valid)
  run-Since (Call.get_balance a ∷ calls) s₀ s h n =
      plain calls s₀ s _ (run-Since calls s₀) h n (get_balance-Recorded u base a s h.valid)
  run-Since (Call.get_code a ∷ calls) s₀ s h n =
      plain calls s₀ s _ (run-Since calls s₀) h n (get_code-Recorded u base a s h.valid)
  run-Since (Call.exist a ∷ calls) s₀ s h n =
      plain calls s₀ s _ (run-Since calls s₀) h n (exist-Recorded u base a s h.valid)
  run-Since (Call.empty a ∷ calls) s₀ s h n =
      plain calls s₀ s _ (run-Since calls s₀) h n (is_empty_account-Recorded u base a s h.valid)
  run-Since (Call.err ∷ calls) s₀ s h n =
      plain calls s₀ s _ (run-Since calls s₀) h n (err-Recorded s h.valid)
  run-Since (Call.set_state a k v ∷ calls) s₀ s h n =
      plain calls s₀ s _ (run-Since calls s₀) h n (set_state-Recorded a k v s h.valid)
  run-Since (Call.set_transient_state a k v ∷ calls) s₀ s h n =
      plain calls s₀ s _ (run-Since calls s₀) h n (set_transient_state-Recorded a k v s h.valid)
  run-Since (Call.sub_balance a x ∷ calls) s₀ s h n =
      plain calls s₀ s _ (run-Since calls s₀) h n (sub_balance-Recorded u base a x s h.valid)
  run-Since (Call.add_balance a x ∷ calls) s₀ s h n =
      plain calls s₀ s _ (run-Since calls s₀) h n (add_balance-Recorded u base a x s h.valid)
  run-Since (Call.self_destruct a ∷ calls) s₀ s h n =
      plain calls s₀ s _ (run-Since calls s₀) h n (self_destruct-Recorded a s h.valid)
  run-Since (Call.add_refund g ∷ calls) s₀ s h n =
      plain calls s₀ s _ (run-Since calls s₀) h n (add_refund-Recorded g s h.valid)
  run-Since (Call.sub_refund g ∷ calls) s₀ s h n =
      plain calls s₀ s _ (run-Since calls s₀) h n (sub_refund-Recorded g s h.valid)
  run-Since (Call.add_log l ∷ calls) s₀ s h n =
      plain calls s₀ s _ (run-Since calls s₀) h n (add_log-Recorded l s h.valid)
  run-Since (Call.add_address_to_access_list a ∷ calls) s₀ s h n =
      plain calls s₀ s _ (run-Since calls s₀) h n (add_address_to_access_list-Recorded a s h.valid)
  run-Since (Call.add_slot_to_access_list a k ∷ calls) s₀ s h n =
      plain calls s₀ s _ (run-Since calls s₀) h n (add_slot_to_access_list-Recorded a k s h.valid)
  run-Since (Call.snapshot ∷ calls) s₀ s h n =
      run-Since calls s₀ (snapshot s).1 (Since-snapshot_again s₀ s h)
        (subst (λ d. Nests (length s₀.snapshots + 1) d calls) (sym (length-snapshot s)) n)
  run-Since (Call.revert_to_snapshot id ∷ calls) s₀ s h (low, high, n) =
      let (s', back, h', size) = Since-revert s₀ s id h low high in
      let (t, ends, since) =
        run-Since calls s₀ s' h'
          (subst (λ d. Nests (length s₀.snapshots + 1) d calls) (sym size) n) in
      (t, rw (back, run) ends, since)

  -- From a state with a valid overlay, a snapshot followed by any calls that revert only to
  -- snapshots that are still held and to none from before it never panics and keeps the overlay
  -- valid. Reverting to the snapshot then restores the whole state, but for the error of the last
  -- failed read.
  pub revert_to_snapshot-run :
      (s : CallState) (calls : List Call)
      → IsValid s.overlay
      → Nests (length s.snapshots + 1) (length s.snapshots + 1) calls
      → (s' : CallState) × (run calls (snapshot s).1 ≡ some s')
        × IsValid s'.overlay
        × (revert_to_snapshot (snapshot s).0 s' ≡ some (record s { last_err = s'.last_err }))
  unfolding snapshot
  revert_to_snapshot-run s calls h n =
      let (s', ends, since) =
        run-Since calls s (snapshot s).1 (Since-snapshot s h)
          (subst (λ d. Nests (length s.snapshots + 1) d calls) (sym (length-snapshot s)) n) in
      (s', ends, since.valid, Since-restored s s' since)
