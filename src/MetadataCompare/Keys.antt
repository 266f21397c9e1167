-- ===== src/MetadataCompare/Keys.antt =====
-- The loop that both merging functions of metadataCompare.ts share, over any items: an item whose
-- key was seen before is dropped. It gives the first item of each key.
use kiyomi.Base.{
  String, Bool, true, false, not, ◌&&◌, List, [], ◌∷◌, map, filter_by, inl, inr, ◌≡◌, refl, ap, ◌∙◌,
  arith, Bool-cases, ◌==◌, String_eq, eq_iff, beq_comm, All,
}
use kiyomi.Base.Sets.{has, IsDistinct}

module _ {ℓ} {B : Type ℓ} where
  pub filter_by-filter_by :
      (p q r : B → Bool) (xs : List B)
      → ((x : B) → (q x && r x) ≡ p x)
      → filter_by q (filter_by r xs) ≡ filter_by p xs
  filter_by-filter_by p q r [] h = refl
  filter_by-filter_by p q r (x ∷ xs) h = ground (arith, h x, filter_by-filter_by p q r xs h)

  pub filter_by-All-true :
      (p : B → Bool) (xs : List B) → All (λ x. p x ≡ true) xs → filter_by p xs ≡ xs
  filter_by-All-true p [] h = refl
  filter_by-All-true p (x ∷ xs) (e, h) = ground (arith, filter_by-All-true p xs h)

  All-filter_by_of_All {κ} :
      (P : B → Type κ) (p : B → Bool) (xs : List B) → All P xs → All P (filter_by p xs)
  All-filter_by_of_All P p [] h = tt
  All-filter_by_of_All P p (x ∷ xs) (e, h) = elim (Bool-cases (p x)) [
    | inl t ↦ rw t (e, All-filter_by_of_All P p xs h)
    | inr t ↦ rw t (All-filter_by_of_All P p xs h)
  ]

  module _ (k : B → String) where
    -- The first item of each key, in order.
    abbrev pub firsts : List B → List B
    firsts [] = []
    firsts (x ∷ xs) = x ∷ filter_by (λ y. not (k x == k y)) (firsts xs)

    has-map-filter_by :
        (key : String) (x : B) (xs : List B)
        → has (map k (filter_by (λ y. not (k x == k y)) xs)) key
          ≡ (not (k x == key) && has (map k xs) key)
    unfolding has
    has-map-filter_by key x [] = ground arith
    has-map-filter_by key x (y ∷ xs) =
        ground (
          arith,
          has-map-filter_by key x xs,
          eq_iff (k x) (k y),
          eq_iff (k y) key,
          eq_iff (k x) key,
        )

    pub has-firsts : (key : String) (xs : List B) → has (map k (firsts xs)) key ≡ has (map k xs) key
    unfolding has
    has-firsts key [] = refl
    has-firsts key (x ∷ xs) =
        ground (arith, has-map-filter_by key x (firsts xs), has-firsts key xs, eq_iff (k x) key)

    has-filter_by_absent :
        (p : B → Bool) (key : String) (xs : List B)
        → has (map k xs) key ≡ false
        → has (map k (filter_by p xs)) key ≡ false
    unfolding has
    has-filter_by_absent p key [] h = h
    has-filter_by_absent p key (x ∷ xs) h = ground (arith, has-filter_by_absent p key xs)

    filter_by-IsDistinct :
        (p : B → Bool) (xs : List B) → IsDistinct (map k xs) → IsDistinct (map k (filter_by p xs))
    filter_by-IsDistinct p [] d = tt
    filter_by-IsDistinct p (x ∷ xs) (fresh, d) = elim (Bool-cases (p x)) [
      | inl e ↦ rw e (has-filter_by_absent p (k x) xs fresh, filter_by-IsDistinct p xs d)
      | inr e ↦ rw e (filter_by-IsDistinct p xs d)
    ]

    pub firsts-IsDistinct : (xs : List B) → IsDistinct (map k (firsts xs))
    firsts-IsDistinct [] = tt
    firsts-IsDistinct (x ∷ xs) = (
      ground (arith, has-map-filter_by (k x) x (firsts xs), eq_iff (k x) (k x)),
      filter_by-IsDistinct (λ y. not (k x == k y)) (firsts xs) (firsts-IsDistinct xs),
    )

    All-ne_of_absent :
        (key : String) (xs : List B)
        → has (map k xs) key ≡ false
        → All (λ y. not (key == k y) ≡ true) xs
    unfolding has
    All-ne_of_absent key [] h = tt
    All-ne_of_absent key (y ∷ ys) h =
        (ground (arith, beq_comm key (k y)), All-ne_of_absent key ys (ground arith))

    pub firsts_of_IsDistinct : (xs : List B) → IsDistinct (map k xs) → firsts xs ≡ xs
    firsts_of_IsDistinct [] d = refl
    firsts_of_IsDistinct (x ∷ xs) (fresh, d) =
        ap (λ ys. x ∷ ys)
          (ap (filter_by (λ y. not (k x == k y))) (firsts_of_IsDistinct xs d)
            ∙ filter_by-All-true (λ y. not (k x == k y)) xs (All-ne_of_absent (k x) xs fresh))

    pub All-firsts {κ} : (P : B → Type κ) (xs : List B) → All P xs → All P (firsts xs)
    All-firsts P [] h = tt
    All-firsts P (x ∷ xs) (e, h) = (e, All-filter_by_of_All P _ (firsts xs) (All-firsts P xs h))
