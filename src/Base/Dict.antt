-- ===== src/Base/Dict.antt =====
-- Python's `dict` over number keys: its entries in insertion order, where a write to a present key
-- keeps its place.
use Prim.Native.Nat.{ℕ}
use mathlib.Core.Path.{◌≡◌, refl}
use mathlib.Core.Option.{Option, none, some}
use mathlib.Core.List.{List, [], ◌∷◌}
use native.Mathlib.Omega.{arith}
use boofuzz.Base.Compare.{◌==◌, if◌then◌else◌}

module _ {ℓ} {V : Type ℓ} where
  -- `d[key]`, where there is such a key.
  unfoldable pub lookup : (key : ℕ) → List (ℕ × V) → Option V
  lookup key ((other, value) ∷ entries) = if other == key then some value else lookup key entries
  lookup key [] = none

  -- `d[key] = value`.
  unfoldable pub insert : (key : ℕ) (value : V) → List (ℕ × V) → List (ℕ × V)
  insert key value ((other, old) ∷ entries) =
      if other == key then (key, value) ∷ entries else (other, old) ∷ insert key value entries
  insert key value [] = (key, value) ∷ []

  -- `del d[key]`, on a key that is present; otherwise nothing changes.
  unfoldable pub delete : (key : ℕ) → List (ℕ × V) → List (ℕ × V)
  delete key ((other, value) ∷ entries) =
      if other == key then entries else (other, value) ∷ delete key entries
  delete key [] = []

  pub lookup-insert :
      (key other : ℕ) (value : V) (entries : List (ℕ × V))
      → lookup other (insert key value entries)
        ≡ (if key == other then some value else lookup other entries)
  unfolding lookup insert
  lookup-insert key other value [] = refl
  lookup-insert key other value ((third, old) ∷ entries) =
      ground (arith, lookup-insert key other value entries)
