-- ===== src/MetadataCompare/Comparing.antt =====
-- `areArraySetsEqual` decides whether two arrays have the same keys, and what merging keeps of it.
use kiyomi.Base.{
  All-filter_by, String, Bool, true, false, not, ◌&&◌, Option, some, List, [], ◌∷◌, map, length,
  filter_by, all_of, inl, inr, ◌≡◌, ◌↔◌, refl, sym, ap, ◌∙◌, arith, Bool-cases, is_blank, All, ◌==◌,
  ℕ_eq, String_eq, eq_iff, ◌otherwise◌, eq_of_beq,
}
use kiyomi.Base.Text.{trim}
use kiyomi.Base.Text.Laws.{trim_idem}
use kiyomi.Base.Sets.{has, of_list, IsDistinct}
use kiyomi.Base.Sets.Laws.{
  has-of_list, of_list-IsDistinct, IsSubset, IsSubset-symm_of_length, length-le_of_IsSubset,
}
use mathlib.Core.List.{append-nil}
use kiyomi.MetadataCompare.{
  key, normalize_set, same_sets, are_array_sets_equal, merge_string_arrays,
}
use kiyomi.MetadataCompare.Keys.{
  firsts, has-firsts, firsts-IsDistinct, firsts_of_IsDistinct, All-firsts, filter_by-All-true,
}
use kiyomi.MetadataCompare.Merging.{present, is_filled, merge_string_arrays-firsts}

-- Two sets have the same elements.
abbrev pub SameElements : List String → List String → Type 0
SameElements xs ys = (k : String) → has xs k ≡ has ys k

all_of-has_sound : (xs ys : List String) → all_of (has ys) xs ≡ true → IsSubset xs ys
unfolding has
all_of-has_sound [] ys h a m = cc
all_of-has_sound (x ∷ xs) ys h a m =
    ground (arith, eq_iff x a, all_of-has_sound xs ys (ground arith) a)

all_of-has_complete : (xs ys : List String) → IsSubset xs ys → all_of (has ys) xs ≡ true
unfolding has
all_of-has_complete [] ys sub = refl
all_of-has_complete (x ∷ xs) ys sub = ground (
  arith,
  sub x (ground (arith, eq_iff x x)),
  all_of-has_complete xs ys (λ a m. sub a (ground arith)),
)

eq_of_iff : (a b : Bool) → (a ≡ true → b ≡ true) → (b ≡ true → a ≡ true) → a ≡ b
eq_of_iff true b f g = sym (f refl)
eq_of_iff false true f g = g refl
eq_of_iff false false f g = refl

-- `same_sets` decides whether two sets have the same elements.
pub same_sets_iff :
    (xs ys : List String)
    → IsDistinct xs
    → IsDistinct ys
    → (same_sets xs ys ≡ true) ↔ SameElements xs ys
unfolding same_sets
same_sets_iff xs ys dx dy = (to, from)
  where
    to : same_sets xs ys ≡ true → SameElements xs ys
    to h k =
        let size : length xs ≡ length ys = ground arith in
        let sub : IsSubset xs ys = all_of-has_sound xs ys (ground arith) in
        eq_of_iff _ _ (sub k) (IsSubset-symm_of_length xs ys dx dy size sub k)

    from : SameElements xs ys → same_sets xs ys ≡ true
    from h = ground (
      arith,
      length-le_of_IsSubset xs ys dx dy (λ k m. rw (← h k) m),
      length-le_of_IsSubset ys xs dy dx (λ k m. rw (h k) m),
      all_of-has_complete xs ys (λ k m. rw (← h k) m),
    )

module _ (to_lower_case : String → String) where
  -- The keys of an array, those of its blank items left out.
  abbrev pub keys : Option (List String) → List String
  keys items = filter_by (λ s. not (is_blank s)) (map (key to_lower_case) (items otherwise []))

  -- Two arrays are found equal exactly when every key that is not blank stands in both or in neither.
  pub are_array_sets_equal_iff :
      (a b : Option (List String))
      → (are_array_sets_equal to_lower_case a b ≡ true) ↔ SameElements (keys a) (keys b)
  unfolding are_array_sets_equal normalize_set
  are_array_sets_equal_iff a b = (
    λ h k. sym (has-of_list (keys a) k) ∙ (both.0 h k) ∙ has-of_list (keys b) k,
    λ h. both.1 (λ k. has-of_list (keys a) k ∙ h k ∙ sym (has-of_list (keys b) k)),
  )
    where
      both :
          (same_sets (of_list (keys a)) (of_list (keys b)) ≡ true)
          ↔ SameElements (of_list (keys a)) (of_list (keys b))
      both = same_sets_iff _ _ (of_list-IsDistinct (keys a)) (of_list-IsDistinct (keys b))

  map-lower-trim : (xs : List String) → map to_lower_case (map trim xs) ≡ map (key to_lower_case) xs
  map-lower-trim [] = refl
  map-lower-trim (x ∷ xs) = ap (λ ys. key to_lower_case x ∷ ys) (map-lower-trim xs)

  map-key-trim :
      (xs : List String) → map (key to_lower_case) (map trim xs) ≡ map (key to_lower_case) xs
  map-key-trim [] = refl
  map-key-trim (x ∷ xs) = rw (trim_idem x, map-key-trim xs) refl

  -- Whatever the case mapping does, no two of the merged texts have one lower-case form.
  pub merge_string_arrays-IsDistinct :
      (arrays : List (Option (List String)))
      → IsDistinct (map to_lower_case (merge_string_arrays to_lower_case arrays))
  merge_string_arrays-IsDistinct arrays =
      rw (merge_string_arrays-firsts, map-lower-trim) (firsts-IsDistinct (key to_lower_case) _)

  All-is_filled-trim :
      (xs : List String)
      → All (λ x. is_filled x ≡ true) xs
      → All (λ x. is_filled x ≡ true) (map trim xs)
  All-is_filled-trim [] h = tt
  All-is_filled-trim (x ∷ xs) (e, h) = (rw (trim_idem x) e, All-is_filled-trim xs h)

  map-trim-trim : (xs : List String) → map trim (map trim xs) ≡ map trim xs
  map-trim-trim [] = refl
  map-trim-trim (x ∷ xs) = rw (trim_idem x, map-trim-trim xs) refl

  merge_firsts :
      (xs : List String)
      → map trim (
          firsts
            (key to_lower_case)
            (filter_by is_filled (map trim (firsts (key to_lower_case) (filter_by is_filled xs)))))
        ≡ map trim (firsts (key to_lower_case) (filter_by is_filled xs))
  merge_firsts xs =
      let kept = firsts (key to_lower_case) (filter_by is_filled xs) in
      let filled : All (λ x. is_filled x ≡ true) (map trim kept) = All-is_filled-trim kept (
        All-firsts (key to_lower_case) (λ x. is_filled x ≡ true) (filter_by is_filled xs)
          (All-filter_by (λ x. is_filled x ≡ true) is_filled xs (λ x e. e))) in
      let distinct : IsDistinct (map (key to_lower_case) (map trim kept)) =
        rw map-key-trim (firsts-IsDistinct (key to_lower_case) (filter_by is_filled xs)) in
      rw
        (
          filter_by-All-true is_filled (map trim kept) filled,
          firsts_of_IsDistinct (key to_lower_case) (map trim kept) distinct,
        )
        (map-trim-trim kept)

  -- Merging what was merged changes nothing.
  pub merge_string_arrays_idem :
      (arrays : List (Option (List String)))
      → merge_string_arrays to_lower_case (some (merge_string_arrays to_lower_case arrays) ∷ [])
        ≡ merge_string_arrays to_lower_case arrays
  merge_string_arrays_idem arrays =
      rw
        (
          merge_string_arrays-firsts to_lower_case (some _ ∷ []),
          append-nil,
          merge_string_arrays-firsts to_lower_case arrays,
        )
        (merge_firsts (present arrays))

  has-filter_by :
      (p : String → Bool) (xs : List String) (k : String)
      → has (filter_by p xs) k ≡ (has xs k && p k)
  unfolding has
  has-filter_by p [] k = refl
  has-filter_by p (x ∷ xs) k = elim (Bool-cases (x == k)) [
    | inl same ↦ rw (eq_of_beq x k same) (ground (arith, has-filter_by p xs k, eq_iff k k))
    | inr differ ↦ ground (arith, has-filter_by p xs k)
  ]

  module _ (keeps_blank : (s : String) → is_blank (to_lower_case s) ≡ is_blank s) where
    has-is_filled :
        (xs : List String) (k : String)
        → (has (map (key to_lower_case) (filter_by is_filled xs)) k && not (is_blank k))
          ≡ (has (map (key to_lower_case) xs) k && not (is_blank k))
    unfolding has
    has-is_filled [] k = refl
    has-is_filled (x ∷ xs) k = elim (Bool-cases (key to_lower_case x == k)) [
      | inl same ↦
          let e : key to_lower_case x ≡ k = eq_of_beq _ k same in
          ground (arith, has-is_filled xs k, ap is_blank e, keeps_blank (trim x))
      | inr differ ↦ ground (arith, has-is_filled xs k)
    ]

    -- Where the case mapping sends no text but the empty one to the empty text, merging neither
    -- loses nor adds a key: the merged texts and all the texts together are found equal.
    pub are_array_sets_equal-merge :
        (arrays : List (Option (List String)))
        → are_array_sets_equal to_lower_case
            (some (merge_string_arrays to_lower_case arrays))
            (some (present arrays))
          ≡ true
    are_array_sets_equal-merge arrays = (are_array_sets_equal_iff _ _).1 same
      where
        same :
            SameElements
              (keys (some (merge_string_arrays to_lower_case arrays)))
              (keys (some (present arrays)))
        same k =
            rw
              (
                merge_string_arrays-firsts,
                map-key-trim,
                has-filter_by,
                has-filter_by,
                has-firsts (key to_lower_case) k,
              )
              (has-is_filled (present arrays) k)
