-- ===== src/Base/Maps.antt =====
-- Go maps with numbers for keys, as association lists; a missing key reads as the zero value that
-- the caller gives.
use Prim.Native.Nat.{ℕ}
use mathlib.Core.Path.{◌≡◌}
use mathlib.Core.List.{List, [], ◌∷◌}
use mathlib.Core.Option.{Option, none, some}
use native.Mathlib.Omega.{arith}
use deadlocker.Base.Tests.{◌==◌, if◌then◌else◌}

module _ {ℓ} {V : Type ℓ} where
  unfoldable pub map_get : List (ℕ × V) → ℕ → Option V
  map_get [] k = none
  map_get ((j, v) ∷ m) k = if j == k then some v else map_get m k

  unfoldable pub map_delete : List (ℕ × V) → ℕ → List (ℕ × V)
  map_delete [] k = []
  map_delete ((j, v) ∷ m) k = let rest = map_delete m k in if j == k then rest else (j, v) ∷ rest

  unfoldable pub map_set : List (ℕ × V) → ℕ → V → List (ℕ × V)
  map_set m k v = (k, v) ∷ map_delete m k

  pub map_get-map_delete :
      (m : List (ℕ × V)) (k j : ℕ)
      → map_get (map_delete m k) j ≡ (if k == j then none else map_get m j)
  unfolding map_get map_delete
  map_get-map_delete [] k j = ground arith
  map_get-map_delete ((i, v) ∷ m) k j = ground (arith, map_get-map_delete m k j)

  pub map_get-map_set :
      (m : List (ℕ × V)) (k j : ℕ) (v : V)
      → map_get (map_set m k v) j ≡ (if k == j then some v else map_get m j)
  unfolding map_get map_set
  map_get-map_set m k j v = ground (arith, map_get-map_delete m k j)

unfoldable pub or_default {ℓ} : {V : Type ℓ} → V → Option V → V
or_default d none = d
or_default d (some v) = v
