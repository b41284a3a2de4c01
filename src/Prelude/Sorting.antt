-- ===== src/Prelude/Sorting.antt =====
-- sort.Strings and sort.Slice on a key: insertion into a list that is sorted already. Elements with
-- one key keep their order here; Go leaves that open.
use mathlib.Core.Path.{◌≡◌, refl, ap, ◌∙◌}
use mathlib.Core.Bool.{Bool, true, false, ◌||◌}
use mathlib.Core.List.{List, [], ◌∷◌}
use native.Mathlib.Omega.{arith}
use mcpshim.Prelude.Tests.{ltb, ◌==◌, if◌then◌else◌}
use mcpshim.Prelude.Lists.{any}
use mcpshim.Prelude.Strings.{Text}

-- a < b on strings
unfoldable pub text_less : Text → Text → Bool
text_less [] [] = false
text_less [] (y ∷ ys) = true
text_less (x ∷ xs) [] = false
text_less (x ∷ xs) (y ∷ ys) = let rest = text_less xs ys in if x == y then rest else ltb x y

module _ {ℓ} {A : Type ℓ} (key : A → Text) where
  unfoldable pub insert_sorted : A → List A → List A
  insert_sorted a [] = a ∷ []
  insert_sorted a (b ∷ bs) =
      let rest = insert_sorted a bs in if text_less (key b) (key a) then b ∷ rest else a ∷ b ∷ bs

  unfoldable pub sort_by : List A → List A
  unfolding insert_sorted text_less
  sort_by [] = []
  sort_by (a ∷ xs) = insert_sorted a (sort_by xs)

  any-insert_sorted :
      (p : A → Bool) (a : A) (bs : List A) → any (insert_sorted a bs) p ≡ (p a || any bs p)
  unfolding insert_sorted
  any-insert_sorted p a [] = refl
  any-insert_sorted p a (b ∷ bs) = ground (arith, any-insert_sorted p a bs)

  -- A sorted list has the elements of the list.
  pub any-sort_by : (p : A → Bool) (xs : List A) → any (sort_by xs) p ≡ any xs p
  unfolding sort_by
  any-sort_by p [] = refl
  any-sort_by p (a ∷ xs) =
      any-insert_sorted p a (sort_by xs) ∙ ap (λ b. p a || b) (any-sort_by p xs)
