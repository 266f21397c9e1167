-- ===== src/Base/Sets.antt =====
-- `Set`, as the list of its elements in the order of their first insertion.
pub mod Laws
use mathlib.Core.Path.{◌≡◌, refl}
use mathlib.Core.Bool.{Bool, false, ◌||◌}
use mathlib.Core.List.{List, [], ◌∷◌, ◌++◌}
use native.Mathlib.Omega.{arith}
use kiyomi.Base.Tests.{if◌then◌else◌}
use kiyomi.Base.Eq.{StrictEq, ◌==◌}

module _ {ℓ} {A : Type ℓ} ⦃e : StrictEq A⦄ where
  unfoldable pub has : List A → A → Bool
  has [] a = false
  has (x ∷ xs) a = x == a || has xs a

  unfoldable pub add : A → List A → List A
  unfolding has
  add a xs = if has xs a then xs else xs ++ a ∷ []

  unfoldable pub delete : A → List A → List A
  delete a [] = []
  delete a (x ∷ xs) = if x == a then xs else x ∷ delete a xs

  -- `xs.forEach(x => set.add(x))`
  unfoldable pub add_all : List A → List A → List A
  unfolding add
  add_all [] set = set
  add_all (x ∷ xs) set = add_all xs (add x set)

  -- `new Set(xs)`
  unfoldable pub of_list : List A → List A
  unfolding add_all
  of_list xs = add_all xs []

  -- No element stands twice.
  abbrev pub IsDistinct : List A → Type 0
  IsDistinct [] = Unit
  IsDistinct (x ∷ xs) = (has xs x ≡ false) × IsDistinct xs

  pub has-append : (xs ys : List A) (a : A) → has (xs ++ ys) a ≡ (has xs a || has ys a)
  unfolding has
  has-append [] ys a = refl
  has-append (x ∷ xs) ys a = ground (arith, has-append xs ys a)
