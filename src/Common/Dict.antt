-- ===== src/Common/Dict.antt =====
-- A Go map with string keys, as an association list that holds a key once.
use session_service.Common.Tests.{if◌then◌else◌, length}
use Prim.Native.String.{String}
use mathlib.Core.Path.{◌≡◌, refl}
use mathlib.Core.Logic.{◌⊎◌}
use Prim.Native.Nat.{◌≤◌}
use mathlib.Core.Bool.{Bool}
use mathlib.Core.Option.{Option, none, some}
use mathlib.Core.List.{List, [], ◌∷◌}
use native.Mathlib.Omega.{arith}
use text.Mathlib.Text.{◌==◌}
use text.Mathlib.TextEquality.{eq_iff}
use text.Mathlib.TextPositions.{eq_refl}

abbrev pub Dict {ℓ} : Type ℓ → Type ℓ
Dict V = List (String × V)

module _ {ℓ} {V : Type ℓ} where
  -- `v, ok := d[k]`
  abbrev pub lookup : String → Dict V → Option V
  lookup k [] = none
  lookup k ((j, v) ∷ d) = if j == k then some v else lookup k d

  -- `d[k] = v`
  abbrev pub insert : String → V → Dict V → Dict V
  insert k v [] = (k, v) ∷ []
  insert k v ((j, w) ∷ d) = if j == k then (k, v) ∷ d else (j, w) ∷ insert k v d

  -- A loop over the map that deletes the entries whose value fails the test.
  abbrev pub keep : (V → Bool) → Dict V → Dict V
  keep p [] = []
  keep p ((j, v) ∷ d) = let rest = keep p d in if p v then (j, v) ∷ rest else rest

  -- No key is listed twice.
  abbrev pub IsUnique : Dict V → Type ℓ
  IsUnique [] = Unit
  IsUnique ((k, _) ∷ d) = (lookup k d ≡ none) × IsUnique d

  pub lookup-insert :
      (k j : String) (v : V) (d : Dict V)
      → lookup j (insert k v d) ≡ (if k == j then some v else lookup j d)
  lookup-insert k j v [] = refl
  lookup-insert k j v ((i, w) ∷ d) =
      ground (arith, eq_iff k j, eq_iff i k, eq_iff i j, lookup-insert k j v d)

  pub insert-IsUnique : (k : String) (v : V) (d : Dict V) → IsUnique d → IsUnique (insert k v d)
  insert-IsUnique k v [] h = (refl, tt)
  insert-IsUnique k v ((i, w) ∷ d) h =
      ground (arith, eq_iff i k, eq_iff k i, insert-IsUnique k v d h.1, lookup-insert k i v d)

  -- What the filter leaves of a lookup.
  abbrev filtered : (V → Bool) → Option V → Option V
  filtered p none = none
  filtered p (some v) = if p v then some v else none

  pub lookup-keep :
      (p : V → Bool) (k : String) (d : Dict V)
      → IsUnique d
      → lookup k (keep p d) ≡ filtered p (lookup k d)
  lookup-keep p k [] h = refl
  lookup-keep p k ((i, w) ∷ d) h = ground (arith, eq_iff i k, lookup-keep p k d h.1)

  pub keep-IsUnique : (p : V → Bool) (d : Dict V) → IsUnique d → IsUnique (keep p d)
  keep-IsUnique p [] h = tt
  keep-IsUnique p ((i, w) ∷ d) h = ground (arith, keep-IsUnique p d h.1, lookup-keep p i d h.1)

  -- A map whose keys are all one of two has two entries at most.
  pub length-two :
      (a b : String) (d : Dict V)
      → IsUnique d
      → ((j : String) (v : V) → lookup j d ≡ some v → (a ≡ j) ⊎ (b ≡ j))
      → length d ≤ 2
  length-two a b [] h only = omega arith
  length-two a b (_ ∷ []) h only = omega arith
  length-two a b (_ ∷ _ ∷ []) h only = omega arith
  length-two a b ((x, u) ∷ (y, v) ∷ (z, w) ∷ d) h only = ground (
    arith,
    eq_refl x,
    eq_refl y,
    eq_refl z,
    eq_iff x y,
    eq_iff x z,
    eq_iff y z,
    eq_iff z x,
    eq_iff z y,
    eq_iff y x,
    only x u,
    only y v,
    only z w,
  )
