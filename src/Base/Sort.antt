-- ===== src/Base/Sort.antt =====
-- `Array.prototype.sort` with a comparator: the stable sort, `x` moving behind `y` exactly when
-- `compare(x, y) > 0`. Every stable sort gives this result for a consistent comparator.
pub mod Laws
pub mod Collations
use mathlib.Core.Bool.{Bool}
use mathlib.Core.List.{List, [], ◌∷◌}
use kiyomi.Base.Tests.{if◌then◌else◌}
use kiyomi.Base.Int.{ℤ, is_pos}

module _ {ℓ} {A : Type ℓ} (compare : A → A → ℤ) where
  insert : A → List A → List A
  insert x [] = x ∷ []
  insert x (y ∷ ys) = if is_pos (compare x y) then y ∷ insert x ys else x ∷ y ∷ ys

  unfoldable pub sort : List A → List A
  unfolding insert
  sort [] = []
  sort (x ∷ xs) = insert x (sort xs)
