-- ===== src/Statedb/CallState/Undo.antt =====
-- statedb/callstate.go: the journal entry of each method that changes the overlay.
use defi_toolbox_avalanche.Common.{
  ltb, ◌==◌, ◌&&◌, ℕ, ◌≡◌, refl, ◌⊎◌, inl, inr, Option, none, some, [], ◌∷◌, ◌++◌, arith, length,
  take-append, length-append, Option-cases, Bool-cases, lookup, insert, erase-insert, insert-insert,
}
use defi_toolbox_avalanche.Uint256.{Uint256}
use defi_toolbox_avalanche.Statedb.Nested.{
  lookup₂, put₂, put₂-IsTidy, restore₂-put₂, delete₂-put₂, IsTidy,
}
use defi_toolbox_avalanche.Statedb.CallState.Overlay.{
  Overlay, JournalEntry, storage_change, balance_change, transient_change, log_change, revert,
  IsValid,
}
use defi_toolbox_avalanche.Statedb.CallState.Ops.{
  Fetched, ok, failed, note_err, set_balance, BaseState, CallState, err, get_code, get_code_size,
  exist, is_empty_account, get_state, get_balance, sub_balance, add_balance, set_state,
  self_destruct, add_refund, sub_refund, set_transient_state, add_log, record_change,
}

-- A call from `s` to `s'` left the overlay alone, or it added the entry that takes it back.
pub record Recorded (s s' : CallState) : Type 0 where
  pub valid : IsValid s'.overlay
  pub snapshots_same : s'.snapshots ≡ s.snapshots
  pub entry :
      (s'.journal ≡ s.journal) × (s'.overlay ≡ s.overlay)
      ⊎ (e : JournalEntry) × (s'.journal ≡ e ∷ s.journal) × (revert e s'.overlay ≡ some s.overlay)

-- A change of the overlay under an entry that takes it back.
pub recorded :
    (s : CallState) (e : JournalEntry) (o : Overlay)
    → IsValid o
    → revert e o ≡ some s.overlay
    → Recorded s (record_change e o s)
recorded s e o h back = record { valid = h; snapshots_same = refl; entry = inr (e, refl, back) }

undo_storage :
    (a k v : ℕ) (o : Overlay) (prev : Option ℕ)
    → IsTidy o.storage_overrides
    → lookup₂ a k o.storage_overrides ≡ prev
    → revert
        (storage_change a k prev)
        (record o { storage_overrides = put₂ a k v o.storage_overrides })
      ≡ some o
unfolding revert
undo_storage a k v o none h e = rw (delete₂-put₂ a k v o.storage_overrides h e)
undo_storage a k v o (some prev) h e = rw (restore₂-put₂ a k v prev o.storage_overrides e)

undo_transient :
    (a k v : ℕ) (o : Overlay) (prev : Option ℕ)
    → IsTidy o.transient
    → lookup₂ a k o.transient ≡ prev
    → revert (transient_change a k prev) (record o { transient = put₂ a k v o.transient }) ≡ some o
unfolding revert
undo_transient a k v o none h e = rw (delete₂-put₂ a k v o.transient h e)
undo_transient a k v o (some prev) h e = rw (restore₂-put₂ a k v prev o.transient e)

undo_balance :
    (a v : ℕ) (o : Overlay) (prev : Option ℕ)
    → lookup a o.balance_overrides ≡ prev
    → revert
        (balance_change a prev)
        (record o { balance_overrides = insert a v o.balance_overrides })
      ≡ some o
unfolding revert
undo_balance a v o none e = rw (erase-insert a v o.balance_overrides e)
undo_balance a v o (some prev) e = rw (insert-insert a v prev o.balance_overrides e)

pub set_state-Recorded :
    (a k v : ℕ) (s : CallState) → IsValid s.overlay → Recorded s (set_state a k v s)
unfolding set_state
set_state-Recorded a k v s h =
    recorded s _ _ (put₂-IsTidy a k v s.overlay.storage_overrides h.0, h.1, h.2)
      (undo_storage a k v s.overlay _ h.0 refl)

pub set_transient_state-Recorded :
    (a k v : ℕ) (s : CallState) → IsValid s.overlay → Recorded s (set_transient_state a k v s)
unfolding set_transient_state
set_transient_state-Recorded a k v s h =
    recorded s _ _ (h.0, put₂-IsTidy a k v s.overlay.transient h.1, h.2)
      (undo_transient a k v s.overlay _ h.1 refl)

pub self_destruct-Recorded :
    (a : ℕ) (s : CallState) → IsValid s.overlay → Recorded s (self_destruct a s)
unfolding self_destruct
self_destruct-Recorded a s h = recorded s _ _ h (undo_balance a 0 s.overlay _ refl)

pub add_refund-Recorded :
    (gas : ℕ) (s : CallState) → IsValid s.overlay → Recorded s (add_refund gas s)
unfolding add_refund revert
add_refund-Recorded gas s h = recorded s _ _ h refl

pub sub_refund-Recorded :
    (gas : ℕ) (s : CallState) → IsValid s.overlay → Recorded s (sub_refund gas s)
unfolding sub_refund revert
sub_refund-Recorded gas s h = recorded s _ _ h refl

undo_log :
    (entry : ℕ) (o : Overlay)
    → revert (log_change (length o.logs)) (record o { logs = o.logs ++ entry ∷ [] }) ≡ some o
unfolding revert
undo_log entry o =
    ground (arith, length-append o.logs (entry ∷ []), take-append o.logs (entry ∷ []))

pub add_log-Recorded :
    (entry : ℕ) (s : CallState) → IsValid s.overlay → Recorded s (add_log entry s)
unfolding add_log
add_log-Recorded entry s h = recorded s _ _ h (undo_log entry s.overlay)

note_err-quiet :
    {A : Type 0} (z : A) (f : Fetched A) (s : CallState)
    → (e : Option ℕ) × ((note_err z f s).1 ≡ record s { last_err = e })
note_err-quiet z (ok v) s = (s.last_err, refl)
note_err-quiet z (failed e) s = (some e, refl)

quiet-Recorded :
    (s : CallState) {s' : CallState}
    → (e : Option ℕ) × (s' ≡ record s { last_err = e })
    → IsValid s.overlay
    → Recorded s s'
quiet-Recorded s (e, quiet) h =
    rw quiet (record { valid = h; snapshots_same = refl; entry = inl (refl, refl) })

pub err-Recorded : (s : CallState) → IsValid s.overlay → Recorded s (err s).1
unfolding err
err-Recorded s h = quiet-Recorded s (none, refl) h

module _ (u : Uint256) (base : BaseState) where
  -- A read changes nothing but the error.
  get_state-quiet :
      (a k : ℕ) (s : CallState)
      → (e : Option ℕ) × ((get_state u base a k s).1 ≡ record s { last_err = e })
  unfolding get_state
  get_state-quiet a k s = elim (Option-cases (lookup₂ a k s.overlay.storage_overrides)) [
    | inl missing ↦ rw (missing, get_state) (note_err-quiet 0 (base.get_storage_with_err a k) s)
    | inr (v, found) ↦ rw (found, get_state) (s.last_err, refl)
  ]

  pub get_balance-quiet :
      (a : ℕ) (s : CallState)
      → (e : Option ℕ) × ((get_balance u base a s).1 ≡ record s { last_err = e })
  unfolding get_balance
  get_balance-quiet a s = elim (Option-cases (lookup a s.overlay.balance_overrides)) [
    | inl missing ↦ rw (missing, get_balance) (note_err-quiet 0 (base.get_balance_with_err a) s)
    | inr (v, found) ↦ rw (found, get_balance) (s.last_err, refl)
  ]

  pub get_state-Recorded :
      (a k : ℕ) (s : CallState) → IsValid s.overlay → Recorded s (get_state u base a k s).1
  get_state-Recorded a k s h = quiet-Recorded s (get_state-quiet a k s) h

  pub get_balance-Recorded :
      (a : ℕ) (s : CallState) → IsValid s.overlay → Recorded s (get_balance u base a s).1
  get_balance-Recorded a s h = quiet-Recorded s (get_balance-quiet a s) h

  get_code_size-quiet :
      (a : ℕ) (s : CallState)
      → (e : Option ℕ) × ((get_code_size u base a s).1 ≡ record s { last_err = e })
  unfolding get_code_size get_code
  get_code_size-quiet a s = note_err-quiet [] (base.get_code_with_err a) s

  pub get_code-Recorded :
      (a : ℕ) (s : CallState) → IsValid s.overlay → Recorded s (get_code u base a s).1
  unfolding get_code
  get_code-Recorded a s h = quiet-Recorded s (note_err-quiet [] (base.get_code_with_err a) s) h

  pub exist-Recorded : (a : ℕ) (s : CallState) → IsValid s.overlay → Recorded s (exist u base a s).1
  unfolding exist
  exist-Recorded a s h =
      let (e, code) = get_code_size-quiet a s in
      let (e', bal) = get_balance-quiet a (record s { last_err = e }) in
      elim (Bool-cases (ltb 0 (get_code_size u base a s).0)) [
        | inl found ↦ rw (found, code) (quiet-Recorded s (e, refl) h)
        | inr missing ↦ rw (missing, code, bal) (quiet-Recorded s (e', refl) h)
      ]

  pub is_empty_account-Recorded :
      (a : ℕ) (s : CallState) → IsValid s.overlay → Recorded s (is_empty_account u base a s).1
  unfolding is_empty_account
  is_empty_account-Recorded a s h =
      let (e, bal) = get_balance-quiet a s in
      let (e', code) = get_code_size-quiet a (record s { last_err = e }) in
      elim (Bool-cases (((get_balance u base a s).0 == 0) && (base.get_nonce a == 0))) [
        | inl bare ↦ rw (bare, bal, code) (quiet-Recorded s (e', refl) h)
        | inr funded ↦ rw (funded, bal) (quiet-Recorded s (e, refl) h)
      ]

  set_balance-Recorded :
      (a : ℕ) (change : ℕ → ℕ) (s : CallState)
      → IsValid s.overlay
      → Recorded s (set_balance u base a change s)
  set_balance-Recorded a change s h =
      let (e, quiet) = get_balance-quiet a s in
      rw quiet (record {
        valid = h;
        snapshots_same = refl;
        entry = inr (_, refl, undo_balance a _ s.overlay _ refl);
      })

  pub sub_balance-Recorded :
      (a x : ℕ) (s : CallState) → IsValid s.overlay → Recorded s (sub_balance u base a x s)
  unfolding sub_balance
  sub_balance-Recorded a x s h = set_balance-Recorded a (λ bal. u.sub bal x) s h

  pub add_balance-Recorded :
      (a x : ℕ) (s : CallState) → IsValid s.overlay → Recorded s (add_balance u base a x s)
  unfolding add_balance
  add_balance-Recorded a x s h = set_balance-Recorded a (λ bal. u.add bal x) s h
