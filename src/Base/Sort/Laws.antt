-- ===== src/Base/Sort/Laws.antt =====
-- `sort` permutes, orders, and keeps the order of what compares equal.
use mathlib.Core.Path.{◌≡◌, refl, ap, ◌∙◌}
use mathlib.Core.Logic.{inl, inr, ◌≢◌}
use mathlib.Core.Bool.{Bool, true, false}
use mathlib.Core.List.Perm
use mathlib.Core.List.{List, [], ◌∷◌, Perm}
use native.Mathlib.Omega.{arith}
use Prim.Native.Nat.{suc}
use kiyomi.Base.Tests.{if◌then◌else◌, Bool-cases}
use kiyomi.Base.Int.{ℤ, is_pos}
use kiyomi.Base.Lists.{filter_by, length, All}
use kiyomi.Base.Sort.{insert, sort}

module _ {ℓ} {A : Type ℓ} (compare : A → A → ℤ) where
  -- What ECMAScript asks of a comparator, as far as `sort` needs it.
  pub record IsConsistent : Type ℓ where
    pub asymm : (x y : A) → is_pos (compare x y) ≡ true → is_pos (compare y x) ≡ false
    pub trans :
        (x y z : A)
        → is_pos (compare x y) ≡ false
        → is_pos (compare y z) ≡ false
        → is_pos (compare x z) ≡ false

  -- No element stands behind one that should follow it.
  abbrev pub IsSorted : List A → Type ℓ
  IsSorted [] = Unit
  IsSorted (x ∷ xs) = All (λ y. is_pos (compare x y) ≡ false) xs × IsSorted xs

  insert-perm : (x : A) (xs : List A) → Perm (insert compare x xs) (x ∷ xs)
  unfolding insert
  insert-perm x [] = Perm.refl _
  insert-perm x (y ∷ ys) = elim (Bool-cases (is_pos (compare x y))) [
    | inl e ↦ rw e (Perm.trans (Perm.cons y (insert-perm x ys)) (Perm.swap _ _ _))
    | inr e ↦ rw e (Perm.refl _)
  ]

  pub sort-perm : (xs : List A) → Perm (sort compare xs) xs
  unfolding sort
  sort-perm [] = Perm.refl _
  sort-perm (x ∷ xs) = Perm.trans (insert-perm x (sort compare xs)) (Perm.cons x (sort-perm xs))

  All-insert {κ} :
      (P : A → Type κ) (x : A) (xs : List A) → P x → All P xs → All P (insert compare x xs)
  unfolding insert
  All-insert P x [] p h = (p, tt)
  All-insert P x (y ∷ ys) p (q, h) = elim (Bool-cases (is_pos (compare x y))) [
    | inl e ↦ rw e (q, All-insert P x ys p h)
    | inr e ↦ rw e (p, (q, h))
  ]

  pub All-sort {κ} : (P : A → Type κ) (xs : List A) → All P xs → All P (sort compare xs)
  unfolding sort
  All-sort P [] h = tt
  All-sort P (x ∷ xs) (p, h) = All-insert P x (sort compare xs) p (All-sort P xs h)

  insert-ne-nil : (x : A) (xs : List A) → insert compare x xs ≢ []
  unfolding insert
  insert-ne-nil x [] h = cc
  insert-ne-nil x (y ∷ ys) h = ground arith

  pub sort-ne-nil : (x : A) (xs : List A) → sort compare (x ∷ xs) ≢ []
  unfolding sort
  sort-ne-nil x xs = insert-ne-nil x (sort compare xs)

  All-of_All-insert {κ} :
      (P : A → Type κ) (x : A) (xs : List A) → All P (insert compare x xs) → P x × All P xs
  unfolding insert
  All-of_All-insert P x [] h = h
  All-of_All-insert P x (y ∷ ys) h = elim (Bool-cases (is_pos (compare x y))) [
    | inl e ↦
        let (q, rest) = rw e at h in
        let (p, others) = All-of_All-insert P x ys rest in (p, (q, others))
    | inr e ↦ rw e at h
  ]

  -- What holds of the sorted elements holds of the elements.
  pub All-of_All-sort {κ} : (P : A → Type κ) (xs : List A) → All P (sort compare xs) → All P xs
  unfolding sort
  All-of_All-sort P [] h = tt
  All-of_All-sort P (x ∷ xs) h =
      let (p, rest) = All-of_All-insert P x (sort compare xs) h in (p, All-of_All-sort P xs rest)

  module _ (ok : IsConsistent) where
    All-after :
        (x y : A) (ys : List A)
        → is_pos (compare x y) ≡ false
        → All (λ z. is_pos (compare y z) ≡ false) ys
        → All (λ z. is_pos (compare x z) ≡ false) ys
    All-after x y [] h a = tt
    All-after x y (z ∷ ys) h (b, a) = (ok.trans x y z h b, All-after x y ys h a)

    insert-IsSorted : (x : A) (xs : List A) → IsSorted xs → IsSorted (insert compare x xs)
    unfolding insert
    insert-IsSorted x [] s = (tt, tt)
    insert-IsSorted x (y ∷ ys) (a, s) = elim (Bool-cases (is_pos (compare x y))) [
      | inl e ↦ rw e (
        All-insert (λ z. is_pos (compare y z) ≡ false) x ys (ok.asymm x y e) a,
        insert-IsSorted x ys s,
      )
      | inr e ↦ rw e ((e, All-after x y ys e a), (a, s))
    ]

    pub sort-IsSorted : (xs : List A) → IsSorted (sort compare xs)
    unfolding sort
    sort-IsSorted [] = tt
    sort-IsSorted (x ∷ xs) = insert-IsSorted x (sort compare xs) (sort-IsSorted xs)

  -- Elements that compare equal keep their order: so do any that no comparison would move.
  insert-stable :
      (p : A → Bool) (x : A) (xs : List A)
      → ((y : A) → p x ≡ true → p y ≡ true → is_pos (compare x y) ≡ false)
      → filter_by p (insert compare x xs) ≡ (if p x then x ∷ filter_by p xs else filter_by p xs)
  unfolding insert
  insert-stable p x [] h = refl
  insert-stable p x (y ∷ ys) h = ground (arith, insert-stable p x ys h, h y)

  pub sort-stable :
      (p : A → Bool) (xs : List A)
      → ((x y : A) → p x ≡ true → p y ≡ true → is_pos (compare x y) ≡ false)
      → filter_by p (sort compare xs) ≡ filter_by p xs
  unfolding sort
  sort-stable p [] h = refl
  sort-stable p (x ∷ xs) h =
      ground (arith, insert-stable p x (sort compare xs) (h x), sort-stable p xs h)

module _ {ℓ} {A : Type ℓ} (compare : A → A → ℤ) where
  length-insert : (x : A) (ys : List A) → length (insert compare x ys) ≡ suc (length ys)
  unfolding insert
  length-insert x [] = refl
  length-insert x (y ∷ ys) = ground (arith, length-insert x ys)

  pub length-sort : (xs : List A) → length (sort compare xs) ≡ length xs
  unfolding sort
  length-sort [] = refl
  length-sort (x ∷ xs) = length-insert x (sort compare xs) ∙ ap suc (length-sort xs)
