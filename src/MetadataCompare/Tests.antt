-- ===== src/MetadataCompare/Tests.antt =====
-- Runs of the functions of metadataCompare.ts, and the theorems at concrete lists.
use kiyomi.Base.{
  String, true, Option, none, some, List, [], ◌∷◌, map, filter_by, ◌≡◌, refl, String_eq,
}
use kiyomi.Base.Text.{trim}
use kiyomi.Base.Sets.{has, add}
use kiyomi.Api.{ExternalLink}
use kiyomi.Samples.{link, lower, lower-keeps_blank}
use kiyomi.MetadataCompare.{
  key, are_array_sets_equal, merge_string_arrays, merge_external_link_arrays,
}
use kiyomi.MetadataCompare.Keys.{firsts}
use kiyomi.MetadataCompare.Merging.{present, is_filled, merge_string_arrays-firsts}
use kiyomi.MetadataCompare.Comparing.{are_array_sets_equal-merge}

abbrev tags : List (Option (List String))
tags = some (" A" ∷ "b" ∷ "" ∷ []) ∷ none ∷ some ("a" ∷ "c" ∷ []) ∷ []

abbrev links : List (Option (List ExternalLink))
links = some (link "x" "u " ∷ link "" "" ∷ []) ∷ some (link "y" "u" ∷ link "" "v" ∷ []) ∷ []

merge_tags : merge_string_arrays lower tags ≡ "A" ∷ "b" ∷ "c" ∷ []
unfolding merge_string_arrays trim has add
merge_tags = refl

merge_two_links : map (λ l. l.url) (merge_external_link_arrays lower links) ≡ "u" ∷ "v" ∷ []
unfolding merge_external_link_arrays trim has add
merge_two_links = refl

merge_string_arrays-firsts_example :
    merge_string_arrays lower tags
    ≡ map trim (firsts (key lower) (filter_by is_filled (present tags)))
merge_string_arrays-firsts_example = merge_string_arrays-firsts lower tags

are_array_sets_equal-merge_example :
    are_array_sets_equal lower (some (merge_string_arrays lower tags)) (some (present tags)) ≡ true
are_array_sets_equal-merge_example = are_array_sets_equal-merge lower lower-keeps_blank tags
