-- ===== src/Statedb/CallState/Trail.antt =====
-- The journal of CallState as a trail back to an older overlay, and the lengths that snapshots hold.
use defi_toolbox_avalanche.Common.{
  ℕ, zero, suc, ◌≤◌, ◌<◌, ◌≡◌, refl, inl, inr, some, List, [], ◌∷◌, ◌++◌, arith, take, length,
  get_elem?, leb, Bool-cases,
}
use defi_toolbox_avalanche.Statedb.CallState.Overlay.{
  Overlay, JournalEntry, revert, undo_until, IsValid,
}

-- Reverting the entries one by one leads from the overlay `o` to `o₀`, through valid overlays.
abbrev pub Trail : Overlay → List JournalEntry → Overlay → Type 0
Trail o₀ [] o = o ≡ o₀
Trail o₀ (e ∷ es) o = (o' : Overlay) × (revert e o ≡ some o') × IsValid o' × Trail o₀ es o'

-- The journal lengths that the snapshots hold grow from `lo` to `hi`.
abbrev pub Ascends : ℕ → List ℕ → ℕ → Type 0
Ascends lo [] hi = lo ≤ hi
Ascends lo (t ∷ ts) hi = (lo ≤ t) × Ascends t ts hi

-- The undoing loop stops at its target inside the trail.
undo-Trail :
    (o₀ o : Overlay) (j₀ es : List JournalEntry) (target : ℕ)
    → IsValid o
    → Trail o₀ es o
    → length j₀ ≤ target
    → target ≤ length (es ++ j₀)
    → (es' : List JournalEntry) × (o' : Overlay) × (undo_until target (es ++ j₀) o
        ≡ some (es' ++ j₀, o'))
      × IsValid o'
      × Trail o₀ es' o'
      × (length (es' ++ j₀) ≡ target)
unfolding undo_until
undo-Trail o₀ o [] [] target v t lo hi = ([], o, refl, v, t, omega arith)
undo-Trail o₀ o (e ∷ j₀) [] target v t lo hi = ([], o, ground arith, v, t, omega arith)
undo-Trail o₀ o j₀ (e ∷ es) target v (o₁, back, v₁, t) lo hi =
    elim (Bool-cases (leb target (length (es ++ j₀)))) [
      | inl more ↦
          let (es', o', run, v', t', size) = undo-Trail o₀ o₁ j₀ es target v₁ t lo (ground arith) in
          (es', o', rw (more, back, undo_until) run, v', t', size)
      | inr stop ↦ (e ∷ es, o, rw stop, v, (o₁, back, v₁, t), ground arith)
    ]

pub undo_split :
    (o₀ o : Overlay) (j₀ es j : List JournalEntry) (target : ℕ)
    → IsValid o
    → Trail o₀ es o
    → j ≡ es ++ j₀
    → length j₀ ≤ target
    → target ≤ length j
    → (es' : List JournalEntry) × (o' : Overlay) × (undo_until target j o ≡ some (es' ++ j₀, o'))
      × IsValid o'
      × Trail o₀ es' o'
      × (length (es' ++ j₀) ≡ target)
undo_split o₀ o j₀ es j target v t split lo = rw split (undo-Trail o₀ o j₀ es target v t lo)

pub Ascends-widen :
    (lo : ℕ) (ts : List ℕ) (hi hi' : ℕ) → hi ≤ hi' → Ascends lo ts hi → Ascends lo ts hi'
Ascends-widen lo [] hi hi' h a = omega arith
Ascends-widen lo (t ∷ ts) hi hi' h a = (a.0, Ascends-widen t ts hi hi' h a.1)

pub Ascends-push :
    (lo : ℕ) (ts : List ℕ) (hi : ℕ) → Ascends lo ts hi → Ascends lo (ts ++ hi ∷ []) hi
Ascends-push lo [] hi a = omega arith
Ascends-push lo (t ∷ ts) hi a = (a.0, Ascends-push t ts hi a.1)

pub Ascends-bound : (lo : ℕ) (ts : List ℕ) (hi : ℕ) → Ascends lo ts hi → lo ≤ hi
Ascends-bound lo [] hi a = a
Ascends-bound lo (t ∷ ts) hi a = omega (arith, Ascends-bound t ts hi a.1)

-- The i-th target, with what it bounds.
pub Ascends-get :
    (lo : ℕ) (ts : List ℕ) (hi i : ℕ)
    → Ascends lo ts hi
    → i < length ts
    → (t : ℕ) × (get_elem? ts i ≡ some t) × (lo ≤ t) × (t ≤ hi) × Ascends lo (take i ts) t
Ascends-get lo [] hi i a h = absurd (omega arith)
Ascends-get lo (t ∷ ts) hi zero a h = (t, refl, a.0, Ascends-bound t ts hi a.1, a.0)
Ascends-get lo (t ∷ ts) hi (suc i) a h =
    let (x, found, low, high, kept) = Ascends-get t ts hi i a.1 (omega arith) in
    (x, found, omega arith, high, (a.0, kept))
