-- ===== src/Base/Sets/Laws.antt =====
-- Membership and size of a `Set` after its operations.
use Prim.Native.Nat.{suc, ◌≤◌}
use mathlib.Core.Path.{◌≡◌, refl, ap}
use mathlib.Core.Logic.{inl, inr}
use mathlib.Core.Bool.{true, false, not, ◌&&◌, ◌||◌}
use mathlib.Core.List.{List, [], ◌∷◌, ◌++◌}
use native.Mathlib.Omega.{arith}
use kiyomi.Base.Tests.{Bool-cases}
use kiyomi.Base.Eq.{StrictEq, ◌==◌, beq_refl, beq_comm, eq_of_beq}
use kiyomi.Base.Lists.{length}
use kiyomi.Base.Sets.{has, add, delete, add_all, of_list, IsDistinct, has-append}

module _ {ℓ} {A : Type ℓ} ⦃e : StrictEq A⦄ where
  pub has-add : (a b : A) (xs : List A) → has (add a xs) b ≡ (has xs b || a == b)
  unfolding add has
  has-add a b xs = ground (arith, has-append xs (a ∷ []) b, e.same_iff a b)

  pub has-add_all : (xs set : List A) (b : A) → has (add_all xs set) b ≡ (has set b || has xs b)
  unfolding add_all has
  has-add_all [] set b = ground arith
  has-add_all (x ∷ xs) set b = ground (arith, has-add_all xs (add x set) b, has-add x b set)

  pub has-of_list : (xs : List A) (b : A) → has (of_list xs) b ≡ has xs b
  unfolding of_list has
  has-of_list xs b = has-add_all xs [] b

  pub has_congr : (a b : A) (xs : List A) → (a == b) ≡ true → has xs a ≡ has xs b
  has_congr a b xs h = ap (has xs) (eq_of_beq a b h)

  pub IsDistinct-snoc :
      (xs : List A) (a : A) → IsDistinct xs → has xs a ≡ false → IsDistinct (xs ++ a ∷ [])
  unfolding has
  IsDistinct-snoc [] a d h = (refl, tt)
  IsDistinct-snoc (x ∷ xs) a (fresh, d) h = (
    ground (arith, has-append xs (a ∷ []) x, beq_comm x a),
    IsDistinct-snoc xs a d (ground arith),
  )

  pub add-IsDistinct : (a : A) (xs : List A) → IsDistinct xs → IsDistinct (add a xs)
  unfolding add
  add-IsDistinct a xs d = elim (Bool-cases (has xs a)) [
    | inl old ↦ rw (old, add) d
    | inr new ↦ rw (new, add) (IsDistinct-snoc xs a d new)
  ]

  pub add_all-IsDistinct : (xs set : List A) → IsDistinct set → IsDistinct (add_all xs set)
  unfolding add_all
  add_all-IsDistinct [] set d = d
  add_all-IsDistinct (x ∷ xs) set d = add_all-IsDistinct xs (add x set) (add-IsDistinct x set d)

  pub of_list-IsDistinct : (xs : List A) → IsDistinct (of_list xs)
  unfolding of_list
  of_list-IsDistinct xs = add_all-IsDistinct xs [] tt

  pub has-delete :
      (a b : A) (xs : List A) → IsDistinct xs → has (delete a xs) b ≡ (has xs b && not (a == b))
  unfolding has delete
  has-delete a b [] d = refl
  has-delete a b (x ∷ xs) (fresh, d) = ground (
    arith,
    has-delete a b xs d,
    e.same_iff x a,
    e.same_iff x b,
    e.same_iff a b,
    beq_refl a,
    beq_refl x,
  )

  pub delete-IsDistinct : (a : A) (xs : List A) → IsDistinct xs → IsDistinct (delete a xs)
  unfolding delete has
  delete-IsDistinct a [] d = tt
  delete-IsDistinct a (x ∷ xs) (fresh, d) = elim (Bool-cases (x == a)) [
    | inl same ↦ rw same d
    | inr other ↦
        rw other (ground (arith, has-delete a x xs d, beq_refl x), delete-IsDistinct a xs d)
  ]

  length-delete : (a : A) (xs : List A) → has xs a ≡ true → suc (length (delete a xs)) ≡ length xs
  unfolding has delete
  length-delete a [] h = cc
  length-delete a (x ∷ xs) h = ground (arith, length-delete a xs)

  -- Every element of the first is one of the second.
  abbrev pub IsSubset : List A → List A → Type ℓ
  IsSubset xs ys = (a : A) → has xs a ≡ true → has ys a ≡ true

  pub length-le_of_IsSubset :
      (xs ys : List A) → IsDistinct xs → IsDistinct ys → IsSubset xs ys → length xs ≤ length ys
  unfolding has
  length-le_of_IsSubset [] ys dx dy sub = omega arith
  length-le_of_IsSubset (x ∷ xs) ys (fresh, dx) dy sub = omega (
    arith,
    length-delete x ys (sub x (ground (arith, beq_refl x))),
    length-le_of_IsSubset xs (delete x ys) dx (delete-IsDistinct x ys dy) rest,
  )
    where
      rest : IsSubset xs (delete x ys)
      rest a h = ground (arith, has-delete x a ys dy, sub a, e.same_iff x a)

  -- Two sets of one size, one within the other, have the same elements.
  pub IsSubset-symm_of_length :
      (xs ys : List A)
      → IsDistinct xs
      → IsDistinct ys
      → length xs ≡ length ys
      → IsSubset xs ys
      → IsSubset ys xs
  unfolding has
  IsSubset-symm_of_length xs ys dx dy same sub b h = elim (Bool-cases (has xs b)) [
    | inl p ↦ p
    | inr p ↦ absurd (omega (arith, length-le_of_IsSubset (b ∷ xs) ys (p, dx) dy more))
  ]
    where
      more : IsSubset (b ∷ xs) ys
      more a m = ground (arith, sub a, e.same_iff b a)
