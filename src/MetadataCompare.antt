-- ===== src/MetadataCompare.antt =====
-- web/src/utils/metadataCompare.ts: comparing and merging the texts and the links of a manga's
-- metadata. `to_lower_case` is the platform's case mapping.
pub mod Keys
pub mod Merging
pub mod Comparing
pub mod Links
mod Tests
use kiyomi.Base.{
  String, Bool, true, false, not, ◌&&◌, ◌||◌, Option, none, some, List, [], ◌∷◌, ◌++◌, map, length,
  filter_by, all_of, is_blank, or_text, ◌==◌, ℕ_eq, String_eq, if◌then◌else◌, ◌otherwise◌,
}
use kiyomi.Api.{ExternalLink}
use kiyomi.Base.Text.{trim}
use kiyomi.Base.Sets.{has, add, of_list}

-- The two variables of a merging loop.
pub record Loop {ℓ} (A : Type ℓ) : Type ℓ where
  pub seen : List String
  pub result : List A

-- `a.size === b.size`, and every element of `a` is one of `b`.
unfoldable pub same_sets : List String → List String → Bool
same_sets a b = if length a == length b then all_of (has b) a else false

-- `Boolean(l && l.url?.trim())`
abbrev pub has_url : ExternalLink → Bool
has_url l = not (is_blank (trim l.url))

-- The link that `mergeExternalLinkArrays` pushes for an item.
unfoldable pub clean_link : ExternalLink → ExternalLink
clean_link item = record {
  provider = or_text item.provider "custom";
  label = or_text item.label (or_text item.provider "Link");
  url = trim item.url;
}

module _ (to_lower_case : String → String) where
  -- `s.trim().toLowerCase()`
  abbrev pub key : String → String
  key s = to_lower_case (trim s)

  unfoldable pub normalize_set : Option (List String) → List String
  normalize_set items = of_list (filter_by (λ s. not (is_blank s)) (map key (items otherwise [])))

  unfoldable pub are_array_sets_equal : Option (List String) → Option (List String) → Bool
  unfolding normalize_set same_sets
  are_array_sets_equal a b = same_sets (normalize_set a) (normalize_set b)

  -- The body of the inner loop of `mergeStringArrays`.
  unfoldable pub merge_item : String → Loop String → Loop String
  merge_item item s =
      let trimmed = trim item in
      let lower = to_lower_case trimmed in
      if is_blank trimmed
      then s
      else if has s.seen lower
      then s
      else record { seen = add lower s.seen; result = s.result ++ trimmed ∷ [] }

  unfoldable pub merge_items : List String → Loop String → Loop String
  unfolding merge_item
  merge_items [] s = s
  merge_items (item ∷ arr) s = merge_items arr (merge_item item s)

  -- The outer loop; an array that is not there is passed over.
  unfoldable pub merge_arrays : List (Option (List String)) → Loop String → Loop String
  unfolding merge_items
  merge_arrays [] s = s
  merge_arrays (none ∷ arrays) s = merge_arrays arrays s
  merge_arrays (some arr ∷ arrays) s = merge_arrays arrays (merge_items arr s)

  unfoldable pub merge_string_arrays : List (Option (List String)) → List String
  unfolding merge_arrays
  merge_string_arrays arrays = (merge_arrays arrays (record { seen = []; result = [] })).result

  abbrev pub link_key : ExternalLink → String
  link_key l = key l.url

  unfoldable pub are_external_link_sets_equal :
      Option (List ExternalLink) → Option (List ExternalLink) → Bool
  unfolding same_sets
  are_external_link_sets_equal a b =
      let links_a = filter_by has_url (a otherwise []) in
      let links_b = filter_by has_url (b otherwise []) in
      if length links_a == length links_b
      then same_sets (of_list (map link_key links_a)) (of_list (map link_key links_b))
      else false

  unfoldable pub merge_link : ExternalLink → Loop ExternalLink → Loop ExternalLink
  unfolding clean_link
  merge_link item s =
      let k = link_key item in
      if not (has_url item)
      then s
      else if has s.seen k
      then s
      else record { seen = add k s.seen; result = s.result ++ clean_link item ∷ [] }

  unfoldable pub merge_links : List ExternalLink → Loop ExternalLink → Loop ExternalLink
  unfolding merge_link
  merge_links [] s = s
  merge_links (item ∷ arr) s = merge_links arr (merge_link item s)

  unfoldable pub merge_link_arrays :
      List (Option (List ExternalLink)) → Loop ExternalLink → Loop ExternalLink
  unfolding merge_links
  merge_link_arrays [] s = s
  merge_link_arrays (none ∷ arrays) s = merge_link_arrays arrays s
  merge_link_arrays (some arr ∷ arrays) s = merge_link_arrays arrays (merge_links arr s)

  unfoldable pub merge_external_link_arrays : List (Option (List ExternalLink)) → List ExternalLink
  unfolding merge_link_arrays
  merge_external_link_arrays arrays =
      (merge_link_arrays arrays (record { seen = []; result = [] })).result
