-- ===== src/Common/Maps.antt =====
-- Go's maps keyed by addresses, hashes or other fixed byte arrays, read as numbers, and the nested
-- map[address]map[slot]value. The association list keeps insertion order, which no code observes.
use Prim.Native.Nat.{ℕ}
use mathlib.Core.Path.{◌≡◌, refl}
use mathlib.Core.Logic.{◌≢◌}
use mathlib.Core.Bool.{Bool, true, false}
use mathlib.Core.List.{List, [], ◌∷◌}
use mathlib.Core.Option.{Option, none, some}
use native.Mathlib.Omega.{arith}
use defi_toolbox_avalanche.Common.Tests.{◌==◌, if◌then◌else◌}

abbrev pub Map {ℓ} : Type ℓ → Type ℓ
Map V = List (ℕ × V)

module _ {ℓ} {V : Type ℓ} where
  -- `v, ok := m[k]`
  abbrev pub lookup : ℕ → Map V → Option V
  lookup k [] = none
  lookup k ((j, v) ∷ m) = if k == j then some v else lookup k m

  -- `m[k] = v`
  abbrev pub insert : ℕ → V → Map V → Map V
  insert k v [] = (k, v) ∷ []
  insert k v ((j, w) ∷ m) = if k == j then (k, v) ∷ m else (j, w) ∷ insert k v m

  -- `delete(m, k)`
  abbrev pub erase : ℕ → Map V → Map V
  erase k [] = []
  erase k ((j, w) ∷ m) = if k == j then m else (j, w) ∷ erase k m

  -- `len(m) == 0`
  abbrev pub is_empty : Map V → Bool
  is_empty [] = true
  is_empty (_ ∷ _) = false

  pub lookup-insert :
      (j k : ℕ) (v : V) (m : Map V)
      → lookup j (insert k v m) ≡ (if j == k then some v else lookup j m)
  lookup-insert j k v [] = refl
  lookup-insert j k v (e ∷ m) = ground (arith, lookup-insert j k v m)

  pub lookup-insert_self : (k : ℕ) (v : V) (m : Map V) → lookup k (insert k v m) ≡ some v
  lookup-insert_self k v m = ground (arith, lookup-insert k k v m)

  pub lookup-insert_ne :
      (j k : ℕ) (v : V) (m : Map V) → j ≢ k → lookup j (insert k v m) ≡ lookup j m
  lookup-insert_ne j k v m h = ground (arith, lookup-insert j k v m)

  pub lookup-erase_ne : (j k : ℕ) (m : Map V) → j ≢ k → lookup j (erase k m) ≡ lookup j m
  lookup-erase_ne j k [] h = refl
  lookup-erase_ne j k (e ∷ m) h = ground (arith, lookup-erase_ne j k m h)

  -- Undoing a write: a new key is deleted, an old one gets its old value back.
  pub erase-insert : (k : ℕ) (v : V) (m : Map V) → lookup k m ≡ none → erase k (insert k v m) ≡ m
  erase-insert k v [] h = ground arith
  erase-insert k v (e ∷ m) h = ground (arith, erase-insert k v m)

  pub insert-insert :
      (k : ℕ) (v w : V) (m : Map V) → lookup k m ≡ some w → insert k w (insert k v m) ≡ m
  insert-insert k v w [] h = cc
  insert-insert k v w (e ∷ m) h = ground (arith, insert-insert k v w m)

  pub insert_twice : (k : ℕ) (v w : V) (m : Map V) → insert k w (insert k v m) ≡ insert k w m
  insert_twice k v w [] = ground arith
  insert_twice k v w (e ∷ m) = ground (arith, insert_twice k v w m)

  pub insert_same : (k : ℕ) (v : V) (m : Map V) → lookup k m ≡ some v → insert k v m ≡ m
  insert_same k v [] h = cc
  insert_same k v (e ∷ m) h = ground (arith, insert_same k v m)
