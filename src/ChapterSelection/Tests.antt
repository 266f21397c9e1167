-- ===== src/ChapterSelection/Tests.antt =====
-- Runs of useChapterSelection.ts, and the theorems at concrete rows.
use kiyomi.Base.{true, false, String, none, some, List, [], ◌∷◌, ◌≡◌, ◌↔◌, ◌⊎◌, refl, String_eq}
use kiyomi.Base.Int.{pos}
use kiyomi.Base.Sets.{add_all}
use kiyomi.Api.{Chapter}
use kiyomi.Samples.{chapter}
use kiyomi.ChapterSelection.{Selection, range_ids, handle_toggle_row}
use kiyomi.ChapterSelection.Sets.{is_selected}
use kiyomi.ChapterSelection.Ranges.{IsBetween, handle_toggle_row-range}

abbrev rows : List Chapter
rows =
    chapter "a" (pos 1000) false 1
    ∷ chapter "b" (pos 2000) false 1
    ∷ chapter "c" (pos 3000) false 1
    ∷ []

abbrev row_b : String
row_b = "b"

abbrev first_selected : Selection
first_selected = record {
  is_selection_mode = true;
  selected_chapter_ids = "a" ∷ [];
  last_selected_id = some "a";
  is_confirm_remove_open = false;
}

abbrev nothing_selected : Selection
nothing_selected = record first_selected { selected_chapter_ids = []; last_selected_id = none }

selects_range :
    (handle_toggle_row rows "c" true first_selected).selected_chapter_ids ≡ "a" ∷ "b" ∷ "c" ∷ []
unfolding handle_toggle_row add_all range_ids
selects_range = refl

handle_toggle_row-range_example :
    (is_selected (handle_toggle_row rows "c" true first_selected) "b" ≡ true)
    ↔ ((is_selected first_selected "b" ≡ true) ⊎ IsBetween rows 0 2 "b")
handle_toggle_row-range_example =
    handle_toggle_row-range rows "a" "c" "b" 0 2 first_selected refl refl refl
