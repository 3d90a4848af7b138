-- ===== src/Statedb/CallState/Snapshot.antt =====
-- statedb/callstate.go: Snapshot and RevertToSnapshot.
use defi_toolbox_avalanche.Common.{
  ℕ, suc, ◌+◌, ◌-◌, ◌≤◌, ◌<◌, ◌≡◌, refl, ap, ◌∙◌, inl, inr, false, some, List, [], ◌∷◌, ◌++◌, arith,
  take, length, get_elem?, ltb, take-append, take-append_right, get_elem?-append_right,
  get_elem?-append_self, length-append, length-take,
}
use mathlib.Core.Path.{subst}
use mathlib.Core.List.{append_assoc}
use defi_toolbox_avalanche.Statedb.CallState.Overlay.{Overlay, JournalEntry, undo_until, IsValid}
use defi_toolbox_avalanche.Statedb.CallState.Ops.{CallState, snapshot, revert_to_snapshot}
use defi_toolbox_avalanche.Statedb.CallState.Undo.{Recorded}
use defi_toolbox_avalanche.Statedb.CallState.Trail.{
  Trail, Ascends, undo_split, Ascends-widen, Ascends-push, Ascends-bound, Ascends-get,
}

-- What holds at every state reached from `s₀` by a snapshot and nested calls.
pub record Since (s₀ s : CallState) : Type 0 where
  pub valid : IsValid s.overlay
  pub undone : List JournalEntry
  pub journal_split : s.journal ≡ undone ++ s₀.journal
  pub trail : Trail s₀.overlay undone s.overlay
  pub later : List ℕ
  pub snapshots_split : s.snapshots ≡ s₀.snapshots ++ length s₀.journal ∷ later
  pub ascends : Ascends (length s₀.journal) later (length s.journal)

pub Since-snapshot : (s₀ : CallState) → IsValid s₀.overlay → Since s₀ (snapshot s₀).1
unfolding snapshot
Since-snapshot s₀ h = record {
  valid = h;
  undone = [];
  journal_split = refl;
  trail = refl;
  later = [];
  snapshots_split = refl;
  ascends = omega arith;
}

pub Since-Recorded : (s₀ s s' : CallState) → Since s₀ s → Recorded s s' → Since s₀ s'
Since-Recorded s₀ s s' h r = elim r.entry [
  | inl (same, kept) ↦ record {
    valid = r.valid;
    undone = h.undone;
    journal_split = same ∙ h.journal_split;
    trail = rw kept h.trail;
    later = h.later;
    snapshots_split = r.snapshots_same ∙ h.snapshots_split;
    ascends = rw same h.ascends;
  }
  | inr (e, grown, back) ↦ record {
    valid = r.valid;
    undone = e ∷ h.undone;
    journal_split = grown ∙ ap (◌∷◌ e) h.journal_split;
    trail = (s.overlay, back, h.valid, h.trail);
    later = h.later;
    snapshots_split = r.snapshots_same ∙ h.snapshots_split;
    ascends = rw grown (Ascends-widen (length s₀.journal) h.later _ _ (omega arith) h.ascends);
  }
]

pub Since-snapshot_again : (s₀ s : CallState) → Since s₀ s → Since s₀ (snapshot s).1
unfolding snapshot
Since-snapshot_again s₀ s h = record {
  valid = h.valid;
  undone = h.undone;
  journal_split = h.journal_split;
  trail = h.trail;
  later = h.later ++ length s.journal ∷ [];
  snapshots_split = rw (h.snapshots_split, append_assoc) refl;
  ascends = Ascends-push (length s₀.journal) h.later (length s.journal) h.ascends;
}

-- RevertToSnapshot where its parts are known.
revert_run :
    (s : CallState) (id target : ℕ) (journal : List JournalEntry) (o : Overlay)
    → get_elem? s.snapshots id ≡ some target
    → target ≤ length s.journal
    → undo_until target s.journal s.overlay ≡ some (journal, o)
    → revert_to_snapshot id s
      ≡ some (record s { overlay = o; journal = journal; snapshots = take id s.snapshots })
unfolding revert_to_snapshot
revert_run s id target journal o held inside run =
    let within : ltb (length s.journal) target ≡ false = ground arith in
    rw (held, within, run, revert_to_snapshot)

-- Reverting to a later snapshot keeps to the trail.
Since-revert_later :
    (s₀ s : CallState) (i : ℕ) (h : Since s₀ s)
    → i < length h.later
    → (s' : CallState) × (revert_to_snapshot (length s₀.snapshots + suc i) s ≡ some s')
      × Since s₀ s'
      × (length s'.snapshots ≡ length s₀.snapshots + suc i)
Since-revert_later s₀ s i h lt =
    let (t, found, low, high, kept) =
      Ascends-get (length s₀.journal) h.later (length s.journal) i h.ascends lt in
    let held : get_elem? s.snapshots (length s₀.snapshots + suc i) ≡ some t =
      rw h.snapshots_split
        (get_elem?-append_right s₀.snapshots (length s₀.journal ∷ h.later) (suc i) ∙ found) in
    let (es, o, run, valid, trail, size) =
      undo_split s₀.overlay s.overlay s₀.journal h.undone s.journal t h.valid h.trail
        h.journal_split low high in
    let cut : take (length s₀.snapshots + suc i) s.snapshots
        ≡ s₀.snapshots ++ length s₀.journal ∷ take i h.later =
      rw h.snapshots_split (take-append_right s₀.snapshots (length s₀.journal ∷ h.later) (suc i)) in
    (
      record s {
        overlay = o;
        journal = es ++ s₀.journal;
        snapshots = take (length s₀.snapshots + suc i) s.snapshots;
      },
      revert_run s (length s₀.snapshots + suc i) t (es ++ s₀.journal) o held high run,
      record {
        valid = valid;
        undone = es;
        journal_split = refl;
        trail = trail;
        later = take i h.later;
        snapshots_split = cut;
        ascends = rw size kept;
      },
      rw cut (
          omega (
            arith,
            length-append s₀.snapshots (length s₀.journal ∷ take i h.later),
            length-take i h.later,
          )),
    )

pub Since-revert :
    (s₀ s : CallState) (id : ℕ)
    → Since s₀ s
    → length s₀.snapshots + 1 ≤ id
    → id < length s.snapshots
    → (s' : CallState) × (revert_to_snapshot id s ≡ some s')
      × Since s₀ s'
      × (length s'.snapshots ≡ id)
Since-revert s₀ s id h low high =
    let i = id - (length s₀.snapshots + 1) in
    let at : length s₀.snapshots + suc i ≡ id = omega arith in
    let held : i < length h.later = omega (
      arith,
      ap length h.snapshots_split,
      length-append s₀.snapshots (length s₀.journal ∷ h.later),
    ) in
    subst
      (λ j.
        (s' : CallState) × (revert_to_snapshot j s ≡ some s')
        × Since s₀ s'
        × (length s'.snapshots ≡ j))
      at (Since-revert_later s₀ s i h held)

Trail-end :
    (o₀ o : Overlay) (es : List JournalEntry) → length es ≡ 0 → Trail o₀ es o → (es ≡ []) × (o ≡ o₀)
Trail-end o₀ o [] h t = (refl, t)
Trail-end o₀ o (e ∷ es) h t = absurd (omega arith)

restored_state :
    (s s₀ : CallState) (journal : List JournalEntry) (snapshots : List ℕ) (o : Overlay)
    → journal ≡ s₀.journal
    → snapshots ≡ s₀.snapshots
    → o ≡ s₀.overlay
    → some (record s { overlay = o; journal = journal; snapshots = snapshots })
      ≡ some (record s₀ { last_err = s.last_err })
restored_state s s₀ journal snapshots o p q r = cc

-- Reverting to the snapshot itself restores all that was there.
pub Since-restored :
    (s₀ s : CallState)
    → Since s₀ s
    → revert_to_snapshot (length s₀.snapshots) s ≡ some (record s₀ { last_err = s.last_err })
Since-restored s₀ s h =
    let (es, o, run, valid, trail, size) =
      undo_split s₀.overlay s.overlay s₀.journal h.undone s.journal (length s₀.journal) h.valid
        h.trail h.journal_split (omega arith)
        (Ascends-bound (length s₀.journal) h.later (length s.journal) h.ascends) in
    let (none_left, restored) =
      Trail-end s₀.overlay o es (omega (arith, length-append es s₀.journal)) trail in
    let held : get_elem? s.snapshots (length s₀.snapshots) ≡ some (length s₀.journal) =
      rw h.snapshots_split (get_elem?-append_self s₀.snapshots (length s₀.journal) h.later) in
    let cut : take (length s₀.snapshots) s.snapshots ≡ s₀.snapshots =
      rw h.snapshots_split (take-append s₀.snapshots (length s₀.journal ∷ h.later)) in
    let at_base =
      revert_run s (length s₀.snapshots) (length s₀.journal) (es ++ s₀.journal) o held
        (Ascends-bound (length s₀.journal) h.later (length s.journal) h.ascends) run in
    at_base
    ∙ restored_state s s₀ (es ++ s₀.journal) _ o (ap (λ l. l ++ s₀.journal) none_left) cut restored
