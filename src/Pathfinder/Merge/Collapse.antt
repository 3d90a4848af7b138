-- ===== src/Pathfinder/Merge/Collapse.antt =====
-- pathfinder/merge.go, collapseDuplicates: two explicit calls with the same key become one when no
-- balance step between them reads a token of theirs. The outer loop runs on fuel; it needs one round
-- per leg and a last one.
pub mod Fixpoint
use defi_toolbox_avalanche.Common.{
  ℕ, zero, suc, ◌≡◌, Bool, true, false, not, ◌&&◌, ◌||◌, Option, none, some, List, [], ◌∷◌, ◌++◌,
  ◌==◌, ltb, length, if◌then◌else◌,
}
use defi_toolbox_avalanche.Uint256.{Uint256}
use defi_toolbox_avalanche.Pathfinder.Route.{RouteStep, Leg, same_key}

abbrev pub is_explicit : Leg → Bool
is_explicit leg = not (leg.amount == 0)

-- A balance step that consumes the input or the output token of `i`.
unfoldable pub disturbs : Leg → Leg → Bool
disturbs i k =
    not (is_explicit k)
    && ((k.step.token_in == i.step.token_in) || (k.step.token_in == i.step.token_out))

-- The loop over `k` between `i` and `j`.
unfoldable pub is_safe : Leg → List Leg → Bool
is_safe i [] = true
is_safe i (k ∷ ks) = let later = is_safe i ks in if disturbs i k then false else later

abbrev pub mergeable : Leg → List Leg → Leg → Bool
mergeable i between j = is_explicit j && (same_key j.step i.step && is_safe i between)

module _ (u : Uint256) where
  abbrev pub merged : Leg → Leg → Leg
  merged i j = record { step = i.step; amount = u.add i.amount j.amount }

  -- The loop over `j`, past the legs `between`: the legs from `i` on after a merge.
  unfoldable pub find_duplicate : Leg → List Leg → List Leg → Option (List Leg)
  find_duplicate i between [] = none
  find_duplicate i between (j ∷ rest) =
      let later = find_duplicate i (between ++ (j ∷ [])) rest in
      if mergeable i between j then some (merged i j ∷ (between ++ rest)) else later

  abbrev pub keep_first : Leg → Option (List Leg) → Option (List Leg)
  keep_first i none = none
  keep_first i (some legs) = some (i ∷ legs)

  abbrev pub or_later : Option (List Leg) → Option (List Leg) → Option (List Leg)
  or_later (some legs) later = some legs
  or_later none later = later

  -- The loop over `i`: the legs after the first merge, or none when nothing changed.
  unfoldable pub collapse_once : List Leg → Option (List Leg)
  collapse_once [] = none
  collapse_once (i ∷ rest) =
      let later = keep_first i (collapse_once rest) in
      or_later (if is_explicit i then find_duplicate i [] rest else none) later

  abbrev pub after_round :
      List Leg → (List Leg → Option (List Leg)) → Option (List Leg) → Option (List Leg)
  after_round legs again none = some legs
  after_round legs again (some legs') = again legs'

  -- `for changed`
  unfoldable pub collapse_loop : ℕ → List Leg → Option (List Leg)
  collapse_loop zero legs = none
  collapse_loop (suc fuel) legs = after_round legs (collapse_loop fuel) (collapse_once legs)

  unfoldable pub collapse_duplicates : List Leg → Option (List Leg)
  collapse_duplicates legs =
      if ltb (length legs) 2 then some legs else collapse_loop (suc (length legs)) legs
