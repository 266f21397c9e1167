-- ===== src/MetadataCompare/Merging.antt =====
-- The merging functions of metadataCompare.ts give the first item of each key, cleaned up.
mod Loops
use kiyomi.Base.{
  String, Bool, true, false, not, ◌&&◌, ◌||◌, Option, none, some, List, [], ◌∷◌, ◌++◌, map, concat,
  filter_by, inl, inr, ◌≡◌, refl, sym, ap, ◌∙◌, arith, Bool-cases, is_blank, All,
}
use kiyomi.Base.Text.{trim}
use kiyomi.Base.Text.Laws.{trim_idem}
use kiyomi.Base.Sets.{has, IsDistinct}
use kiyomi.Api.{ExternalLink}
use kiyomi.MetadataCompare.{
  Loop, key, link_key, has_url, clean_link, merge_item, merge_items, merge_arrays,
  merge_string_arrays, merge_link, merge_links, merge_link_arrays, merge_external_link_arrays,
}
use kiyomi.MetadataCompare.Keys.{firsts}
use Loops.{push_new, push_all, push_all-append, push_all-firsts}

-- The arrays that are there, as one.
abbrev pub present {ℓ} : {A : Type ℓ} → List (Option (List A)) → List A
present [] = []
present (none ∷ arrays) = present arrays
present (some arr ∷ arrays) = arr ++ present arrays

abbrev pub is_filled : String → Bool
is_filled s = not (is_blank (trim s))

module _ (to_lower_case : String → String) where
  merge_item-push_new :
      (item : String) (s : Loop String)
      → merge_item to_lower_case item s ≡ push_new is_filled (key to_lower_case) trim item s
  unfolding merge_item push_new
  merge_item-push_new item s = ground arith

  merge_items-push_all :
      (arr : List String) (s : Loop String)
      → merge_items to_lower_case arr s ≡ push_all is_filled (key to_lower_case) trim arr s
  unfolding merge_items push_all
  merge_items-push_all [] s = refl
  merge_items-push_all (item ∷ arr) s = rw merge_item-push_new (merge_items-push_all arr _)

  merge_arrays-push_all :
      (arrays : List (Option (List String))) (s : Loop String)
      → merge_arrays to_lower_case arrays s
        ≡ push_all is_filled (key to_lower_case) trim (present arrays) s
  unfolding merge_arrays push_all
  merge_arrays-push_all [] s = refl
  merge_arrays-push_all (none ∷ arrays) s = merge_arrays-push_all arrays s
  merge_arrays-push_all (some arr ∷ arrays) s =
      rw (push_all-append, ← merge_items-push_all arr s) (merge_arrays-push_all arrays _)

  -- The merged texts are the first item of each key among the items that are not blank, trimmed, in
  -- the order of the arrays.
  pub merge_string_arrays-firsts :
      (arrays : List (Option (List String)))
      → merge_string_arrays to_lower_case arrays
        ≡ map trim (firsts (key to_lower_case) (filter_by is_filled (present arrays)))
  unfolding merge_string_arrays
  merge_string_arrays-firsts arrays =
      ap (λ t. t.result) (merge_arrays-push_all arrays _)
      ∙ push_all-firsts is_filled (key to_lower_case) trim (present arrays)

  merge_link-push_new :
      (item : ExternalLink) (s : Loop ExternalLink)
      → merge_link to_lower_case item s
        ≡ push_new has_url (link_key to_lower_case) clean_link item s
  unfolding merge_link push_new
  merge_link-push_new item s = refl

  merge_links-push_all :
      (arr : List ExternalLink) (s : Loop ExternalLink)
      → merge_links to_lower_case arr s ≡ push_all has_url (link_key to_lower_case) clean_link arr s
  unfolding merge_links push_all
  merge_links-push_all [] s = refl
  merge_links-push_all (item ∷ arr) s = rw merge_link-push_new (merge_links-push_all arr _)

  merge_link_arrays-push_all :
      (arrays : List (Option (List ExternalLink))) (s : Loop ExternalLink)
      → merge_link_arrays to_lower_case arrays s
        ≡ push_all has_url (link_key to_lower_case) clean_link (present arrays) s
  unfolding merge_link_arrays push_all
  merge_link_arrays-push_all [] s = refl
  merge_link_arrays-push_all (none ∷ arrays) s = merge_link_arrays-push_all arrays s
  merge_link_arrays-push_all (some arr ∷ arrays) s =
      rw (push_all-append, ← merge_links-push_all arr s) (merge_link_arrays-push_all arrays _)

  -- The merged links are the first link of each key among those with an address, cleaned up, in the
  -- order of the arrays.
  pub merge_external_link_arrays-firsts :
      (arrays : List (Option (List ExternalLink)))
      → merge_external_link_arrays to_lower_case arrays
        ≡ map clean_link (firsts (link_key to_lower_case) (filter_by has_url (present arrays)))
  unfolding merge_external_link_arrays
  merge_external_link_arrays-firsts arrays =
      ap (λ t. t.result) (merge_link_arrays-push_all arrays _)
      ∙ push_all-firsts has_url (link_key to_lower_case) clean_link (present arrays)
