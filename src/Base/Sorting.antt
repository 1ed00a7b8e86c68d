-- ===== src/Base/Sorting.antt =====
-- What `sort.Strings` and `sort.Slice` give: an ascending arrangement. `sort.Slice` may put equal
-- elements in any order; here they keep theirs.
use mathlib.Core.Bool.{Bool, true, false}
use mathlib.Core.List.{List, [], ◌∷◌}
use deadlocker.Base.Tests.{ltb, ◌==◌, if◌then◌else◌}
use deadlocker.Base.Lists.{Bytes}

-- `<` on strings.
unfoldable pub text_before : Bytes → Bytes → Bool
text_before s [] = false
text_before [] (d ∷ t) = true
text_before (c ∷ s) (d ∷ t) = if c == d then text_before s t else ltb c d

module _ {ℓ} {A : Type ℓ} (before : A → A → Bool) where
  unfoldable pub insert_sorted : A → List A → List A
  insert_sorted x [] = x ∷ []
  insert_sorted x (y ∷ ys) =
      let rest = insert_sorted x ys in if before y x then y ∷ rest else x ∷ y ∷ ys

  unfoldable pub sort_by : List A → List A
  sort_by [] = []
  sort_by (x ∷ xs) = insert_sorted x (sort_by xs)
