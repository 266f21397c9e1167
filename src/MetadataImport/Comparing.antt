-- ===== src/MetadataImport/Comparing.antt =====
-- How the choices that the dialog starts with agree with the differences that it shows.
use kiyomi.Base.{
  Bool, true, false, not, ◌&&◌, String, some, List, length, ltb, is_blank, ◌==◌, String_eq, ◌≡◌,
  refl, if◌then◌else◌,
}
use kiyomi.Api.{Manga}
use kiyomi.Api.Values.{string, fields_of, field_of}
use kiyomi.MetadataCompare.{are_array_sets_equal, are_external_link_sets_equal}
use kiyomi.MetadataImport.{SelectedProvider, current_values, incoming_values, array_differs, diffs}
use kiyomi.MetadataImport.Choices.{
  incoming, MultiChoice, all_current, all_incoming, merged, Selections, choose, choose_all,
  array_mode, init_comparison_state,
}
use kiyomi.MetadataImport.Saving.{fields_to_patch}

by_mode :
    (a b : Bool) (x y : MultiChoice)
    → (if a then if b then x else y else x) ≡ (if a && not b then y else x)
by_mode true true x y = refl
by_mode true false x y = refl
by_mode false b x y = refl

module _ (to_lower_case : String → String) where
  array_mode-differs :
      (old new : List String)
      → array_mode to_lower_case old new ≡ choose_all (array_differs to_lower_case new old)
  array_mode-differs old new =
      by_mode (ltb 0 (length new)) (are_array_sets_equal to_lower_case (some old) (some new))
        all_current all_incoming

  -- The dialog takes the incoming cover, authors, artists and publishers exactly where it shows that
  -- they differ, and merges the links exactly where they differ, with or without the other manga's
  -- providers being compared.
  pub init_comparison_state-diffs :
      (p : SelectedProvider) (manga remote : Manga) (s : Selections) (is_merge : Bool)
      → let old = current_values to_lower_case manga in
        let new = incoming_values to_lower_case p remote in
        let shown = diffs to_lower_case is_merge old new in
        let chosen = init_comparison_state to_lower_case p manga remote s in
        (chosen.cover ≡ choose shown.cover)
        × (chosen.authors_mode ≡ choose_all shown.authors)
        × (chosen.artists_mode ≡ choose_all shown.artists)
        × (chosen.publishers_mode ≡ choose_all shown.publishers)
        × (chosen.external_links_mode ≡ (if shown.external_links then merged else all_current))
  unfolding init_comparison_state diffs
  init_comparison_state-diffs p manga remote s is_merge =
      let old = current_values to_lower_case manga in
      let new = incoming_values to_lower_case p remote in
      (
        refl,
        array_mode-differs old.authors new.authors,
        array_mode-differs old.artists new.artists,
        array_mode-differs old.publishers new.publishers,
        by_mode (ltb 0 (length new.external_links))
            (are_external_link_sets_equal to_lower_case (some old.external_links)
              (some new.external_links))
            all_current merged,
      )

  -- Where the incoming title differs from the current one in its letters' case only, the dialog shows no
  -- difference and has chosen the incoming title, and an import replaces the title.
  pub init_comparison_state-hidden_title :
      (p : SelectedProvider) (manga remote : Manga) (s : Selections)
      → is_blank (incoming_values to_lower_case p remote).title ≡ false
      → ((incoming_values to_lower_case p remote).title == manga.metadata.title) ≡ false
      → (to_lower_case (incoming_values to_lower_case p remote).title
          == to_lower_case manga.metadata.title)
        ≡ true
      → let old = current_values to_lower_case manga in
        let new = incoming_values to_lower_case p remote in
        let chosen = init_comparison_state to_lower_case p manga remote s in
        ((diffs to_lower_case false old new).title ≡ false)
        × (chosen.title ≡ incoming)
        × (field_of "title" (fields_of (fields_to_patch to_lower_case old new chosen))
            ≡ string new.title)
  unfolding init_comparison_state diffs fields_to_patch current_values incoming_values field_of
  init_comparison_state-hidden_title p manga remote s given other same =
      (rw (given, same) refl, rw (given, other) refl, rw (given, other) refl)
