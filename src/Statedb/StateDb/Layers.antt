-- ===== src/Statedb/StateDb/Layers.antt =====
-- How the two layers of StateDB answer a read, before and after a block.
use defi_toolbox_avalanche.Common.{
  ℕ, ◌+◌, ◌≡◌, ◌≢◌, refl, ◌∙◌, ap, ◌==◌, ◌&&◌, if◌then◌else◌, Bool-cases, Option, none, some, List,
  [], ◌∷◌, ◌++◌, arith, Option-cases, inl, inr,
}
use defi_toolbox_avalanche.Statedb.Nested.{lookup₂, put₂, lookup₂-put₂}
use defi_toolbox_avalanche.Statedb.CallState.Ops.{Fetched, ok, failed}
use defi_toolbox_avalanche.Statedb.Immutable.{BlockDiff, merge₂}
use defi_toolbox_avalanche.Statedb.Immutable.Merge.{IsMap₂, ◌or_else◌, lookup₂-merge₂}
use defi_toolbox_avalanche.Statedb.StateDb.{
  Fetcher, StateDb, StateSnapshot, set_state, snapshot, revert_to_snapshot, find_snapshot,
  get_storage_with_err, apply_block_diff, through, ask,
}

or_else-none : (o : Option ℕ) → o or_else lookup₂ 0 0 [] ≡ o
unfolding lookup₂
or_else-none none = refl
or_else-none (some v) = refl

find_snapshot-append :
    (x : StateSnapshot) (xs : List StateSnapshot) → find_snapshot x.id (xs ++ x ∷ []) ≡ some (x, xs)
find_snapshot-append x [] = ground arith
find_snapshot-append x (y ∷ xs) = rw (find_snapshot-append x xs)

-- The value that a layer holds, or another.
abbrev pub or_value : ℕ → Option ℕ → ℕ
or_value v none = v
or_value v (some w) = w

-- What a read answers does not depend on what it keeps.
through_answer :
    (held backfill : Option ℕ) (fetch : Option (Fetched ℕ)) (keep keep' : ℕ → StateDb)
    (s s' : StateDb)
    → (through held backfill fetch 0 keep s).0 ≡ (through held backfill fetch 0 keep' s').0
through_answer (some v) backfill fetch keep keep' s s' = refl
through_answer none (some v) fetch keep keep' s s' = refl
through_answer none none none keep keep' s s' = refl
through_answer none none (some (ok v)) keep keep' s s' = refl
through_answer none none (some (failed e)) keep keep' s s' = refl

through_kept :
    (held : Option ℕ) (v : ℕ) (fetch : Option (Fetched ℕ)) (keep : ℕ → StateDb) (s : StateDb)
    → (through held (some v) fetch 0 keep s).0 ≡ ok (or_value v held)
through_kept (some w) v fetch keep s = refl
through_kept none v fetch keep s = refl

module _ (keccak : List ℕ → ℕ) (fetcher : Option Fetcher) where
  -- A slot that either layer holds is answered without a fetch, and the state stays as it is.
  get_storage-held :
      (a k v : ℕ) (s : StateDb)
      → lookup₂ a k s.immutable.storage or_else lookup₂ a k s.bf_storage ≡ some v
      → get_storage_with_err keccak fetcher a k s ≡ (ok v, s)
  unfolding get_storage_with_err
  get_storage-held a k v s e = ground arith

  -- With a fetcher, a storage read of StateDB that succeeds is kept: read again, with whatever
  -- fetcher, it gives the same value and changes nothing.
  pub get_storage_with_err_stable :
      (later : Option Fetcher) (a k v : ℕ) (s s' : StateDb)
      → fetcher ≢ none
      → get_storage_with_err keccak fetcher a k s ≡ (ok v, s')
      → get_storage_with_err keccak later a k s' ≡ (ok v, s')
  unfolding get_storage_with_err
  get_storage_with_err_stable later a k v s s' some_fetcher e =
      elim (Option-cases (lookup₂ a k s.immutable.storage)) [
        | inr (w, held) ↦ ground arith
        | inl miss ↦ elim (Option-cases (lookup₂ a k s.bf_storage)) [
          | inr (w, held) ↦ ground arith
          | inl miss' ↦ ground (arith, lookup₂-put₂ a a k k v s.bf_storage)
        ]
      ]

  -- Where no key stands twice in the diff's or the backfill's storage, after ApplyBlockDiff a slot
  -- that the diff, the backfill or the block's state holds reads the value of the first of these
  -- that holds it.
  pub get_storage_with_err-apply_block_diff :
      (diff : BlockDiff) (a k v : ℕ) (s : StateDb)
      → IsMap₂ diff.storage
      → IsMap₂ s.bf_storage
      → lookup₂ a k diff.storage
          or_else lookup₂ a k s.bf_storage
          or_else lookup₂ a k s.immutable.storage
        ≡ some v
      → (get_storage_with_err keccak fetcher a k (apply_block_diff keccak diff s)).0 ≡ ok v
  unfolding apply_block_diff lookup₂
  get_storage_with_err-apply_block_diff diff a k v s hd hb e =
      ap (λ r. r.0)
        (get_storage-held a k v (apply_block_diff keccak diff s) (
          or_else-none (lookup₂ a k (merge₂ diff.storage (merge₂ s.bf_storage s.immutable.storage)))
          ∙ lookup₂-merge₂ a k diff.storage (merge₂ s.bf_storage s.immutable.storage) hd
          ∙ ap (λ o. lookup₂ a k diff.storage or_else o)
              (lookup₂-merge₂ a k s.bf_storage s.immutable.storage hb)
          ∙ e))

  -- A snapshot of StateDB does not cover storage: a slot that the block's state does not hold and
  -- that is written after the snapshot still reads the written value after the revert.
  pub revert_to_snapshot-keeps :
      (a k v : ℕ) (s : StateDb)
      → lookup₂ a k s.immutable.storage ≡ none
      → let (id, taken) = snapshot s in
        (get_storage_with_err keccak fetcher a k (revert_to_snapshot id (set_state a k v taken))).0
        ≡ ok v
  unfolding snapshot set_state revert_to_snapshot
  revert_to_snapshot-keeps a k v s e =
      let last : StateSnapshot = record { id = s.snap_id + 1; refund = s.refund } in
      rw (find_snapshot-append last s.snapshots, revert_to_snapshot)
        (ap (λ r. r.0)
          (get_storage-held a k v
            (record s { snap_id = s.snap_id + 1; bf_storage = put₂ a k v s.bf_storage })
            (ground (arith, e, lookup₂-put₂ a a k k v s.bf_storage))))

  -- After SetState of StateDB the slot reads what the block's state holds for it, else the value
  -- written, and every other slot answers what it answered before, a fetch or an error included.
  pub get_storage_with_err-set_state :
      (a k v b j : ℕ) (s : StateDb)
      → (get_storage_with_err keccak fetcher b j (set_state a k v s)).0 ≡ (
          if (b == a) && (j == k)
          then ok (or_value v (lookup₂ a k s.immutable.storage))
          else (get_storage_with_err keccak fetcher b j s).0)
  unfolding set_state get_storage_with_err
  get_storage_with_err-set_state a k v b j s =
      let imm = lookup₂ b j s.immutable.storage in
      let fetch = ask fetcher (λ f. f.fetch_storage b j) in
      let after = set_state a k v s in
      let keep : ℕ → StateDb = λ w. record after { bf_storage = put₂ b j w after.bf_storage } in
      elim (Bool-cases ((b == a) && (j == k))) [
        | inl same ↦
            let at_a : b ≡ a = ground arith in
            let at_k : j ≡ k = ground arith in
            let put : lookup₂ b j after.bf_storage ≡ some v =
              ground (arith, lookup₂-put₂ a b k j v s.bf_storage) in
            rw same (
              ap (λ o. (through imm o fetch 0 keep after).0) put
              ∙ through_kept imm v fetch keep after
              ∙ ap (λ o. ok (or_value v o))
                  (ap (λ x. lookup₂ x j s.immutable.storage) at_a
                    ∙ ap (λ y. lookup₂ a y s.immutable.storage) at_k))
        | inr other ↦
            let kept : lookup₂ b j after.bf_storage ≡ lookup₂ b j s.bf_storage =
              ground (arith, lookup₂-put₂ a b k j v s.bf_storage) in
            rw other (
              ap (λ o. (through imm o fetch 0 keep after).0) kept
              ∙ through_answer imm (lookup₂ b j s.bf_storage) fetch keep
                  (λ w. record s { bf_storage = put₂ b j w s.bf_storage }) after s)
      ]
