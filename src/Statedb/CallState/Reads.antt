-- ===== src/Statedb/CallState/Reads.antt =====
-- What CallState answers after a write.
use defi_toolbox_avalanche.Common.{
  inl, inr, ◌∙◌, Bool-cases, ℕ, ◌+◌, ◌-◌, ◌%◌, ◌<◌, ◌≡◌, refl, ◌&&◌, none, some, arith, ◌==◌,
  if◌then◌else◌, lookup, lookup-insert,
}
use defi_toolbox_avalanche.Uint256.{Uint256, IsUint256, word}
use defi_toolbox_avalanche.Statedb.Nested.{lookup₂, lookup₂-put₂}
use defi_toolbox_avalanche.Statedb.CallState.Ops.{
  BaseState, CallState, failed, note_err, get_state, set_state, get_balance, set_balance,
  sub_balance, add_balance,
}
use defi_toolbox_avalanche.Statedb.CallState.Undo.{get_balance-quiet}

module _ (u : Uint256) (base : BaseState) where
  -- After SetState the slot reads the value written, and every other slot what it read before.
  get_state-set_state :
      (a k v b j : ℕ) (s : CallState)
      → (get_state u base b j (set_state a k v s)).0
        ≡ (if (b == a) && (j == k) then v else (get_state u base b j s).0)
  unfolding get_state set_state
  get_state-set_state a k v b j s =
      ground (arith, lookup₂-put₂ a b k j v s.overlay.storage_overrides)

  -- Where a slot has no override and the base state fails to answer, GetState reads zero, keeps
  -- the error for Err, and changes nothing else.
  pub get_state-failed :
      (a k e : ℕ) (s : CallState)
      → lookup₂ a k s.overlay.storage_overrides ≡ none
      → base.get_storage_with_err a k ≡ failed e
      → get_state u base a k s ≡ (0, record s { last_err = some e })
  unfolding get_state
  get_state-failed a k e s missing fails = rw (missing, get_state) (rw (fails, note_err))

  get_balance-override :
      (b v : ℕ) (s : CallState)
      → lookup b s.overlay.balance_overrides ≡ some v
      → (get_balance u base b s).0 ≡ v
  unfolding get_balance
  get_balance-override b v s found = ground (arith, found)

  get_balance-base :
      (b : ℕ) (s t : CallState)
      → lookup b s.overlay.balance_overrides ≡ lookup b t.overlay.balance_overrides
      → (get_balance u base b s).0 ≡ (get_balance u base b t).0
  unfolding get_balance
  get_balance-base b s t same = ground (arith, same)

  -- A balance reads the change made to it, and every other balance what it read before.
  get_balance-set_balance :
      (a b : ℕ) (change : ℕ → ℕ) (s : CallState)
      → (get_balance u base b (set_balance u base a change s)).0
        ≡ (if b == a then change (get_balance u base a s).0 else (get_balance u base b s).0)
  get_balance-set_balance a b change s =
      let v = change (get_balance u base a s).0 in
      let (e, quiet) = get_balance-quiet u base a s in
      let here = lookup-insert b a v s.overlay.balance_overrides in
      elim (Bool-cases (b == a)) [
        | inl same ↦ rw (same, quiet) (get_balance-override b v _ (here ∙ rw same refl))
        | inr other ↦ rw (other, quiet) (get_balance-base b _ s (here ∙ rw other refl))
      ]

  module _ (h : IsUint256 u) (a x b : ℕ) (s : CallState) where
    -- After AddBalance the balance of the account is the sum modulo 2^256, and every other account
    -- reads what it read before.
    get_balance-add_balance :
        (get_balance u base b (add_balance u base a x s)).0
        ≡ (if b == a then ((get_balance u base a s).0 + x) % word else (get_balance u base b s).0)
    unfolding add_balance
    get_balance-add_balance =
        get_balance-set_balance a b (λ bal. u.add bal x) s
        ∙ rw (h.add_lem (get_balance u base a s).0 x)

    -- For a balance and an amount below 2^256, after SubBalance the balance of the account is the
    -- difference modulo 2^256, and every other account reads what it read before.
    pub get_balance-sub_balance :
        (get_balance u base a s).0 < word
        → x < word
        → (get_balance u base b (sub_balance u base a x s)).0 ≡ (
            if b == a
            then ((get_balance u base a s).0 + word - x) % word
            else (get_balance u base b s).0)
    unfolding sub_balance
    get_balance-sub_balance small small' =
        get_balance-set_balance a b (λ bal. u.sub bal x) s
        ∙ rw (h.sub_lem (get_balance u base a s).0 x small small')
