-- ===== src/ReadingCta/Finding.antt =====
-- Where the chapters that readingCta.ts picks come from.
use mathlib.Core.Logic.Or
use mathlib.Core.List.{Mem, Mem-prop, mem-cons, mem-cons_self, mem-cons_of_mem}
use kiyomi.Base.{
  ℕ, zero, suc, Bool, true, false, none, some, List, [], ◌∷◌, drop, length, filter_by, find, last?,
  any_of, All, inl, inr, ◌≡◌, ◌⊎◌, ◌≢◌, refl, length-filter_by-le, arith, Bool-cases,
}

module _ {ℓ} {A : Type ℓ} where
  pub find-mem : (p : A → Bool) (xs : List A) {a : A} → find p xs ≡ some a → Mem a xs × (p a ≡ true)
  find-mem p [] h = cc
  find-mem p (x ∷ xs) {a} h = elim (Bool-cases (p x)) [
    | inl e ↦ let same : x ≡ a = ground arith in rw (← same) (mem-cons_self, e)
    | inr e ↦ let (m, t) = find-mem p xs {a = a} (ground arith) in (mem-cons_of_mem x m, t)
  ]

  pub find-none : (p : A → Bool) (xs : List A) → find p xs ≡ none → All (λ x. p x ≡ false) xs
  find-none p [] h = tt
  find-none p (x ∷ xs) h = elim (Bool-cases (p x)) [
    | inl e ↦ ground arith
    | inr e ↦ (e, find-none p xs (ground arith))
  ]

  pub mem-drop : (n : ℕ) (xs : List A) {a : A} → Mem a (drop n xs) → Mem a xs
  mem-drop zero xs m = m
  mem-drop (suc n) [] m = m
  mem-drop (suc n) (x ∷ xs) m = mem-cons_of_mem x (mem-drop n xs m)

  pub mem-filter_by : (p : A → Bool) (xs : List A) {a : A} → Mem a (filter_by p xs) → Mem a xs
  mem-filter_by p [] m = m
  mem-filter_by p (x ∷ xs) m = elim (Bool-cases (p x)) [
    | inl e ↦
        Or.elim Mem-prop (mem-cons.0 (rw e at m)) (λ q. rw q mem-cons_self)
          (λ n. mem-cons_of_mem x (mem-filter_by p xs n))
    | inr e ↦ mem-cons_of_mem x (mem-filter_by p xs (rw e at m))
  ]

  pub last?-mem : (xs : List A) {a : A} → last? xs ≡ some a → Mem a xs
  last?-mem [] h = cc
  last?-mem (x ∷ []) {a} h = let same : x ≡ a = ground arith in rw same mem-cons_self
  last?-mem (x ∷ y ∷ xs) h = mem-cons_of_mem x (last?-mem (y ∷ xs) h)

  pub All-of-last? {κ} : (P : A → Type κ) (xs : List A) {a : A} → All P xs → last? xs ≡ some a → P a
  All-of-last? P [] h e = cc
  All-of-last? P (x ∷ []) {a} (p, _) e = let same : x ≡ a = ground arith in rw (← same) p
  All-of-last? P (x ∷ y ∷ xs) (_, h) e = All-of-last? P (y ∷ xs) h e

  pub last?-none : (xs : List A) → last? xs ≡ none → xs ≡ []
  last?-none [] h = refl
  last?-none (x ∷ []) h = cc
  last?-none (x ∷ y ∷ xs) h = cc (last?-none (y ∷ xs) h)

  pub filter_by-nil : (p : A → Bool) (xs : List A) → filter_by p xs ≡ [] → All (λ x. p x ≡ false) xs
  filter_by-nil p [] h = tt
  filter_by-nil p (x ∷ xs) h = elim (Bool-cases (p x)) [
    | inl e ↦ ground arith
    | inr e ↦ (e, filter_by-nil p xs (ground arith))
  ]

  pub any_of_of_filter_by :
      (p : A → Bool) (xs : List A) → length (filter_by p xs) ≢ 0 → any_of p xs ≡ true
  any_of_of_filter_by p [] h = absurd (h refl)
  any_of_of_filter_by p (x ∷ xs) h = ground (arith, any_of_of_filter_by p xs)

  pub All-of_length-filter_by :
      (p : A → Bool) (xs : List A) → length (filter_by p xs) ≡ length xs → All (λ x. p x ≡ true) xs
  All-of_length-filter_by p [] h = tt
  All-of_length-filter_by p (x ∷ xs) h = elim (Bool-cases (p x)) [
    | inl e ↦ (e, All-of_length-filter_by p xs (ground arith))
    | inr e ↦ absurd (ground (arith, length-filter_by-le p xs))
  ]

  pub length-filter_by-All :
      (p : A → Bool) (xs : List A) → All (λ x. p x ≡ true) xs → length (filter_by p xs) ≡ length xs
  length-filter_by-All p [] h = refl
  length-filter_by-All p (x ∷ xs) (e, h) = ground (arith, length-filter_by-All p xs h)

  pub any_of-false : (p : A → Bool) (xs : List A) → any_of p xs ≡ false → All (λ x. p x ≡ false) xs
  any_of-false p [] h = tt
  any_of-false p (x ∷ xs) h = (ground arith, any_of-false p xs (ground arith))

  pub any_of-All-false :
      (p : A → Bool) (xs : List A) → All (λ x. p x ≡ false) xs → any_of p xs ≡ false
  any_of-All-false p [] h = refl
  any_of-All-false p (x ∷ xs) (e, h) = ground (arith, any_of-All-false p xs h)

  pub List-cases : (xs : List A) → (xs ≡ []) ⊎ ((y : A) × (ys : List A) × (xs ≡ y ∷ ys))
  List-cases [] = inl refl
  List-cases (y ∷ ys) = inr (y, ys, refl)
