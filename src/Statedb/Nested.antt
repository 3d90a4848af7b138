-- ===== src/Statedb/Nested.antt =====
-- The two-level maps of statedb/: map[address]map[slot]value.
use defi_toolbox_avalanche.Common.{
  ℕ, ◌≡◌, ◌≢◌, refl, inl, inr, true, Option, none, some, [], ◌∷◌, arith, ◌==◌, if◌then◌else◌, Map,
  lookup, insert, erase, is_empty, lookup-insert, lookup-insert_self, erase-insert, insert-insert,
  insert_twice, insert_same, Option-cases,
}

module _ {ℓ} {V : Type ℓ} where
  abbrev pub inner : Option (Map V) → Map V
  inner none = []
  inner (some m) = m

  -- `slots, ok := m[addr]`, then `v, ok := slots[key]`
  unfoldable pub lookup₂ : ℕ → ℕ → Map (Map V) → Option V
  lookup₂ addr key m = lookup key (inner (lookup addr m))

  -- `if m[addr] == nil { m[addr] = make(…) }; m[addr][key] = value`
  unfoldable pub put₂ : ℕ → ℕ → V → Map (Map V) → Map (Map V)
  put₂ addr key v m = insert addr (insert key v (inner (lookup addr m))) m

  -- `m[addr][key] = prev`, which panics where m has no map at addr
  unfoldable pub restore₂ : ℕ → ℕ → V → Map (Map V) → Option (Map (Map V))
  restore₂ addr key v m = elim (lookup addr m) [
    | none ↦ none
    | some slots ↦ some (insert addr (insert key v slots) m)
  ]

  -- `delete(m[addr], key); if len(m[addr]) == 0 { delete(m, addr) }`
  unfoldable pub delete₂ : ℕ → ℕ → Map (Map V) → Map (Map V)
  delete₂ addr key m = elim (lookup addr m) [
    | none ↦ m
    | some slots ↦
        let slots' = erase key slots in
        if is_empty slots' then erase addr m else insert addr slots' m
  ]

  -- No inner map is empty.
  abbrev pub IsTidy : Map (Map V) → Type ℓ
  IsTidy m = (addr : ℕ) → lookup addr m ≢ some []

  insert_nonempty : (k : ℕ) (v : V) (m : Map V) → insert k v m ≢ []
  insert_nonempty k v [] e = cc
  insert_nonempty k v (x ∷ m) e = ground arith

  pub put₂-IsTidy : (a k : ℕ) (v : V) (m : Map (Map V)) → IsTidy m → IsTidy (put₂ a k v m)
  unfolding put₂
  put₂-IsTidy a k v m h b e = ground (
    arith,
    h b,
    lookup-insert b a (insert k v (inner (lookup a m))) m,
    insert_nonempty k v (inner (lookup a m)),
  )

  -- A write to a slot that had a value is undone by writing that value back.
  pub restore₂-put₂ :
      (a k : ℕ) (v prev : V) (m : Map (Map V))
      → lookup₂ a k m ≡ some prev
      → restore₂ a k prev (put₂ a k v m) ≡ some m
  unfolding lookup₂ put₂ restore₂
  restore₂-put₂ a k v prev m h = elim (Option-cases (lookup a m)) [
    | inl missing ↦ absurd (ground arith)
    | inr (slots, e) ↦ ground (
      arith,
      lookup-insert_self a (insert k v slots) m,
      insert-insert k v prev slots,
      insert_twice a (insert k v slots) slots m,
      insert_same a slots m,
    )
  ]

  is_empty_iff : (m : Map V) → (is_empty m ≡ true) → m ≡ []
  is_empty_iff [] h = refl
  is_empty_iff (x ∷ m) h = cc

  -- A write to a slot that had none is undone by deleting it.
  pub delete₂-put₂ :
      (a k : ℕ) (v : V) (m : Map (Map V))
      → IsTidy m
      → lookup₂ a k m ≡ none
      → delete₂ a k (put₂ a k v m) ≡ m
  unfolding lookup₂ put₂ delete₂
  delete₂-put₂ a k v m tidy h = elim (Option-cases (lookup a m)) [
    | inl missing ↦
        ground (arith, lookup-insert_self a ((k, v) ∷ []) m, erase-insert a ((k, v) ∷ []) m)
    | inr (slots, e) ↦ ground (
      arith,
      lookup-insert_self a (insert k v slots) m,
      erase-insert k v slots,
      insert_twice a (insert k v slots) slots m,
      insert_same a slots m,
      tidy a,
      is_empty_iff slots,
    )
  ]

  pub put₂_same : (a k : ℕ) (v : V) (m : Map (Map V)) → lookup₂ a k m ≡ some v → put₂ a k v m ≡ m
  unfolding lookup₂ put₂
  put₂_same a k v m h = elim (Option-cases (lookup a m)) [
    | inl missing ↦ absurd (ground arith)
    | inr (slots, e) ↦ ground (arith, insert_same k v slots, insert_same a slots m)
  ]

  pub lookup₂-put₂ :
      (a b k j : ℕ) (v : V) (m : Map (Map V))
      → lookup₂ b j (put₂ a k v m)
        ≡ (if b == a then (if j == k then some v else lookup₂ b j m) else lookup₂ b j m)
  unfolding lookup₂ put₂
  lookup₂-put₂ a b k j v m = ground (
    arith,
    lookup-insert b a (insert k v (inner (lookup a m))) m,
    lookup-insert j k v (inner (lookup a m)),
  )
