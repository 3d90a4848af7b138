-- ===== src/Statedb/FastCache.antt =====
-- statedb/fastcache.go: a flat map over the storage of one block. A 52-byte key is the number whose
-- digits are the address and the 32-byte slot.
use defi_toolbox_avalanche.Common.{
  ℕ, ◌+◌, ◌*◌, ◌<◌, ◌≡◌, refl, ◌∙◌, false, Option, none, some, [], ◌∷◌, arith, ◌==◌, if◌then◌else◌,
  Map, lookup, insert, lookup-insert,
}
use defi_toolbox_avalanche.Uint256.{word}
use defi_toolbox_avalanche.Statedb.Nested.{lookup₂}
use defi_toolbox_avalanche.Statedb.Immutable.{ImmutableState, get_storage}
use defi_toolbox_avalanche.Statedb.Immutable.Merge.{IsMap, IsMap₂, ◌or_else◌}

unfoldable pub make_storage_key : ℕ → ℕ → ℕ
make_storage_key addr slot = addr * word + slot

pub record FastCache : Type 0 where
  pub storage : Map ℕ

abbrev flatten_slots : ℕ → Map ℕ → Map ℕ → Map ℕ
flatten_slots addr [] cache = cache
flatten_slots addr ((slot, val) ∷ slots) cache =
    flatten_slots addr slots (insert (make_storage_key addr slot) val cache)

abbrev flatten_storage : Map (Map ℕ) → Map ℕ → Map ℕ
flatten_storage [] cache = cache
flatten_storage ((addr, slots) ∷ storage) cache =
    flatten_storage storage (flatten_slots addr slots cache)

unfoldable pub build_fast_cache : ImmutableState → FastCache
build_fast_cache im = record { storage = flatten_storage im.storage [] }

unfoldable pub get_state : FastCache → ℕ → ℕ → Option ℕ
get_state fc addr slot = lookup (make_storage_key addr slot) fc.storage

-- Every slot fits in 32 bytes.
abbrev pub SlotsFit : Map ℕ → Type 0
SlotsFit [] = Unit
SlotsFit ((slot, _) ∷ slots) = (slot < word) × SlotsFit slots

abbrev pub StorageFits : Map (Map ℕ) → Type 0
StorageFits [] = Unit
StorageFits ((_, slots) ∷ storage) = SlotsFit slots × StorageFits storage

or_else-none : (o : Option ℕ) → o or_else none ≡ o
or_else-none none = refl
or_else-none (some v) = refl

key_digits :
    (a b j k : ℕ)
    → j < word
    → k < word
    → (make_storage_key a j == make_storage_key b k) ≡ (if a == b then (j == k) else false)
unfolding make_storage_key
key_digits a b j k hj hk = ground arith

lookup-flatten_slots :
    (a b k : ℕ) (slots cache : Map ℕ)
    → k < word
    → SlotsFit slots
    → IsMap slots
    → lookup (make_storage_key a k) (flatten_slots b slots cache)
      ≡ (if a == b then lookup k slots else none) or_else lookup (make_storage_key a k) cache
lookup-flatten_slots a b k [] cache hk fit h = ground arith
lookup-flatten_slots a b k ((j, v) ∷ slots) cache hk fit h = ground (
  arith,
  lookup-flatten_slots a b k slots (insert (make_storage_key b j) v cache) hk fit.1 h.1,
  lookup-insert (make_storage_key a k) (make_storage_key b j) v cache,
  key_digits a b k j hk fit.0,
  h.0,
)

lookup-flatten_storage :
    (a k : ℕ) (storage : Map (Map ℕ)) (cache : Map ℕ)
    → k < word
    → StorageFits storage
    → IsMap₂ storage
    → lookup (make_storage_key a k) (flatten_storage storage cache)
      ≡ lookup₂ a k storage or_else lookup (make_storage_key a k) cache
unfolding lookup₂
lookup-flatten_storage a k [] cache hk fit h = refl
lookup-flatten_storage a k ((b, slots) ∷ storage) cache hk fit h = ground (
  arith,
  lookup-flatten_storage a k storage (flatten_slots b slots cache) hk fit.1 h.2,
  lookup-flatten_slots a b k slots cache hk fit.0 h.1,
  h.0,
)

-- For slots that fit in 32 bytes and storage in which no key stands twice, the flat cache answers
-- what the nested maps of the block answer, hit or miss.
pub get_state-build_fast_cache :
    (im : ImmutableState) (a k : ℕ)
    → k < word
    → StorageFits im.storage
    → IsMap₂ im.storage
    → get_state (build_fast_cache im) a k ≡ get_storage im a k
unfolding get_state build_fast_cache get_storage
get_state-build_fast_cache im a k hk fit h =
    lookup-flatten_storage a k im.storage [] hk fit h ∙ or_else-none (lookup₂ a k im.storage)
