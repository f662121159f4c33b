-- ===== src/Prelude/Sorted.antt =====
-- ORDER BY over columns that are not numbers: a stable insertion sort by a test.
use Prim.Native.Nat.{Ordering}
use Prim.Native.String.{String, compare}
use mathlib.Core.Bool.{Bool, true, false}
use mathlib.Core.List.{List, [], ◌∷◌}
use costanza.Prelude.Tests.{if◌then◌else◌}

-- Texts in the order of their code points.
abbrev pub text_le : String → String → Bool
text_le s t = elim (compare s t) [ Ordering.gt ↦ false | _ ↦ true ]

module _ {ℓ} {A : Type ℓ} where
  unfoldable pub insert_with : (A → A → Bool) → A → List A → List A
  insert_with le x [] = x ∷ []
  insert_with le x (y ∷ ys) =
      let rest = insert_with le x ys in if le x y then x ∷ y ∷ ys else y ∷ rest

  unfoldable pub sort_with : (A → A → Bool) → List A → List A
  unfolding insert_with
  sort_with le [] = []
  sort_with le (x ∷ xs) = insert_with le x (sort_with le xs)
