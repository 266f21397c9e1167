-- ===== src/MetadataCompare/Links.antt =====
-- What `areExternalLinkSetsEqual` decides, and what merged links are like.
use kiyomi.Base.{
  All-filter_by, String, true, false, Option, some, List, [], ◌∷◌, map, length, filter_by, inl, inr,
  ◌≡◌, ◌↔◌, refl, sym, ◌∙◌, arith, Bool-cases, is_blank, or_text, All, ℕ_eq, String_eq, ◌otherwise◌,
}
use mathlib.Core.List.{append-nil}
use kiyomi.Base.Text.Laws.{trim_idem}
use kiyomi.Base.Sets.{of_list, IsDistinct}
use kiyomi.Base.Sets.Laws.{has-of_list, of_list-IsDistinct}
use kiyomi.Api.{ExternalLink}
use kiyomi.MetadataCompare.{
  link_key, has_url, clean_link, same_sets, are_external_link_sets_equal,
  merge_external_link_arrays,
}
use kiyomi.MetadataCompare.Keys.{
  firsts, firsts-IsDistinct, firsts_of_IsDistinct, All-firsts, filter_by-All-true,
}
use kiyomi.MetadataCompare.Merging.{present, merge_external_link_arrays-firsts}
use kiyomi.MetadataCompare.Comparing.{SameElements, same_sets_iff}

-- The links that have an address.
abbrev pub usable : Option (List ExternalLink) → List ExternalLink
usable links = filter_by has_url (links otherwise [])

or_text-or_text : (s t u : String) → is_blank t ≡ false → or_text (or_text s t) u ≡ or_text s t
or_text-or_text s t u h = elim (Bool-cases (is_blank s)) [
  | inl e ↦ rw (e, h) refl
  | inr e ↦ rw (e, e) refl
]

or_text-filled : (s t : String) → is_blank t ≡ false → is_blank (or_text s t) ≡ false
or_text-filled s t h = elim (Bool-cases (is_blank s)) [ inl e ↦ rw e h | inr e ↦ rw e e ]

clean_link_idem : (l : ExternalLink) → clean_link (clean_link l) ≡ clean_link l
unfolding clean_link
clean_link_idem l = λ i. record {
  provider = or_text-or_text l.provider "custom" "custom" refl i;
  label =
      or_text-or_text l.label (or_text l.provider "Link")
        (or_text (or_text l.provider "custom") "Link") (or_text-filled l.provider "Link" refl) i;
  url = trim_idem l.url i;
}

map-clean_link_idem :
    (ls : List ExternalLink) → map clean_link (map clean_link ls) ≡ map clean_link ls
map-clean_link_idem [] = refl
map-clean_link_idem (l ∷ ls) = rw (clean_link_idem l, map-clean_link_idem ls) refl

All-has_url-clean_link :
    (ls : List ExternalLink)
    → All (λ l. has_url l ≡ true) ls
    → All (λ l. has_url l ≡ true) (map clean_link ls)
unfolding clean_link
All-has_url-clean_link [] h = tt
All-has_url-clean_link (l ∷ ls) (e, h) = (rw (trim_idem l.url) e, All-has_url-clean_link ls h)

module _ (to_lower_case : String → String) where
  -- Two arrays of links are found equal exactly when as many links have an address in one as in the
  -- other, and their addresses have the same keys.
  pub are_external_link_sets_equal_iff :
      (a b : Option (List ExternalLink))
      → (are_external_link_sets_equal to_lower_case a b ≡ true) ↔ (
          (length (usable a) ≡ length (usable b))
          × SameElements
              (map (link_key to_lower_case) (usable a))
              (map (link_key to_lower_case) (usable b)))
  unfolding are_external_link_sets_equal
  are_external_link_sets_equal_iff a b = (
    λ h. (ground arith, λ k. sym (has-of_list xs k) ∙ both.0 (ground arith) k ∙ has-of_list ys k),
    λ (size, h).
        let same = both.1 (λ k. has-of_list xs k ∙ h k ∙ sym (has-of_list ys k)) in
        ground (arith, same),
  )
    where
      xs : List String
      xs = map (link_key to_lower_case) (usable a)

      ys : List String
      ys = map (link_key to_lower_case) (usable b)

      both : (same_sets (of_list xs) (of_list ys) ≡ true) ↔ SameElements (of_list xs) (of_list ys)
      both = same_sets_iff _ _ (of_list-IsDistinct xs) (of_list-IsDistinct ys)

  map-link_key-clean_link :
      (ls : List ExternalLink)
      → map (link_key to_lower_case) (map clean_link ls) ≡ map (link_key to_lower_case) ls
  unfolding clean_link
  map-link_key-clean_link [] = refl
  map-link_key-clean_link (l ∷ ls) = rw (trim_idem l.url, map-link_key-clean_link ls) refl

  merged : List ExternalLink → List ExternalLink
  merged ls = map clean_link (firsts (link_key to_lower_case) (filter_by has_url ls))

  -- No two merged links have one address, up to case and white space at the ends.
  pub merge_external_link_arrays-IsDistinct :
      (arrays : List (Option (List ExternalLink)))
      → IsDistinct (map (link_key to_lower_case) (merge_external_link_arrays to_lower_case arrays))
  merge_external_link_arrays-IsDistinct arrays =
      rw (merge_external_link_arrays-firsts, map-link_key-clean_link)
        (firsts-IsDistinct (link_key to_lower_case) _)

  merged_idem : (ls : List ExternalLink) → merged (merged ls) ≡ merged ls
  unfolding merged
  merged_idem ls =
      let kept = firsts (link_key to_lower_case) (filter_by has_url ls) in
      let urls : All (λ l. has_url l ≡ true) (map clean_link kept) = All-has_url-clean_link kept (
        All-firsts (link_key to_lower_case) (λ l. has_url l ≡ true) (filter_by has_url ls)
          (All-filter_by (λ l. has_url l ≡ true) has_url ls (λ l e. e))) in
      let distinct : IsDistinct (map (link_key to_lower_case) (map clean_link kept)) =
        rw map-link_key-clean_link
          (firsts-IsDistinct (link_key to_lower_case) (filter_by has_url ls)) in
      rw
        (
          filter_by-All-true has_url (map clean_link kept) urls,
          firsts_of_IsDistinct (link_key to_lower_case) (map clean_link kept) distinct,
        )
        (map-clean_link_idem kept)

  -- Merging links that were merged changes nothing.
  pub merge_external_link_arrays_idem :
      (arrays : List (Option (List ExternalLink)))
      → merge_external_link_arrays to_lower_case
          (some (merge_external_link_arrays to_lower_case arrays) ∷ [])
        ≡ merge_external_link_arrays to_lower_case arrays
  unfolding merged
  merge_external_link_arrays_idem arrays =
      rw
        (
          merge_external_link_arrays-firsts to_lower_case (some _ ∷ []),
          append-nil,
          merge_external_link_arrays-firsts to_lower_case arrays,
        )
        (merged_idem (present arrays))
