-- ===== src/ReaderPage/Tests.antt =====
-- The reader at concrete chapters and pages.
use kiyomi.Base.{
  ℕ, suc, ◌<◌, true, false, String_eq, none, some, List, [], ◌∷◌, ◌≡◌, refl, All, arith,
}
use kiyomi.Base.Int.{pos}
use kiyomi.Base.Sets.{has}
use kiyomi.Base.Text.{trim}
use kiyomi.Api.{Chapter, Page}
use kiyomi.Api.Values.{object, has_field}
use kiyomi.Samples.{chapter, manga}
use kiyomi.Client.{http_patch, sending_value}
use kiyomi.Client.Library.{manga_path}
use kiyomi.Hooks.{Mutation}
use kiyomi.EditMetadata.{Form, initial, payload}
use kiyomi.ReaderPage.{
  current_chapter, current_chapter_index, prev_chapter, next_chapter, has_next_chapter,
  reading_mode,
}
use kiyomi.ReaderPage.Chapters.{prev_chapter-next_chapter}
use kiyomi.ReaderPage.Navigation.{
  View, Event, goes_next, goes_prev, changes_page, fires, drags, springs_back, reports_page, step,
  run, timer_fires, spring_back, handle_move, go_to_next_page, call_back,
}
use kiyomi.ReaderPage.Racing.{at_page, run-beyond}
use kiyomi.ReaderPage.Sliding.{InBounds}
use kiyomi.ReaderPage.Bounds.{run-InBounds}
use kiyomi.ReaderPage.Modes.{
  handle_reading_mode_change, mode_fields, patch_fields, Lacks, handle_reading_mode_change-Lacks,
}
use kiyomi.ReaderPage.Images.{preloaded}

abbrev chapters : List Chapter
chapters = chapter "c1" (pos 1000) false 0 ∷ chapter "c2" (pos 2000) false 0 ∷ []

prev_chapter-next_chapter_example :
    ((c : Chapter)
      → next_chapter chapters "c1" ≡ some c
      → prev_chapter chapters c.id ≡ current_chapter chapters "c1")
    × ((c : Chapter)
        → prev_chapter chapters "c1" ≡ some c
        → next_chapter chapters c.id ≡ current_chapter chapters "c1")
unfolding has
prev_chapter-next_chapter_example = prev_chapter-next_chapter chapters "c1" (refl, (refl, tt))

opens_second : next_chapter chapters "c1" ≡ some (chapter "c2" (pos 2000) false 0)
unfolding next_chapter has_next_chapter current_chapter_index
opens_second = refl

abbrev view : View
view = record {
  manga_id = "m1";
  provider_id = "";
  remote_id = "";
  pages_count = 3;
  next_chapter = some "c2";
  prev_chapter = none;
  reading_mode = "rtl";
  container_width = 800;
}

run-beyond_example :
    (2 < view.pages_count
      → (run view
          (at_page 2)
          (goes_next ∷ changes_page view.pages_count ∷ fires 0 ∷ [])).0.current_page
        ≡ pos (suc view.pages_count))
    × (1 < 2
        → (run view (at_page 2) (goes_prev ∷ changes_page 1 ∷ fires 0 ∷ [])).0.current_page ≡ pos 0)
run-beyond_example = run-beyond view 2

-- A turn, a drag that springs back, a scroll report and a turn back.
abbrev events : List Event
events =
    goes_next ∷ fires 0 ∷ drags (pos 30) ∷ springs_back ∷ fires 1 ∷ reports_page 2 ∷ goes_prev ∷ []

run-InBounds_example : InBounds view (run view (at_page 2) events).0
unfolding step timer_fires spring_back handle_move go_to_next_page call_back
run-InBounds_example =
    run-InBounds view (at_page 2) events
      (tt, (tt, (tt, (tt, (tt, ((refl, omega arith, omega arith), (tt, tt)))))))
      (2, refl, omega arith, omega arith, refl)

abbrev form : Form
form = initial (manga "m1" "reading" (pos 0))

handle_reading_mode_change-Lacks_example :
    ((mutation : Mutation) × (handle_reading_mode_change "m1" "ltr" ≡ some mutation)
      × (mutation.request
          ≡ sending_value http_patch (manga_path "m1") (object (mode_fields "ltr"))))
    × All (Lacks (mode_fields "ltr")) patch_fields
    × (has_field "bindings" (payload (manga "m1" "reading" (pos 0)) form) ≡ true)
handle_reading_mode_change-Lacks_example =
    handle_reading_mode_change-Lacks "m1" "ltr" (manga "m1" "reading" (pos 0)) form refl

abbrev sheet : ℕ → Page
sheet n = record { index = n; url = ""; asset_url = none }

loads_ahead : preloaded true 1 (sheet 1 ∷ sheet 2 ∷ []) ≡ sheet 2 ∷ []
unfolding preloaded
loads_ahead = refl

reads_right_to_left : reading_mode (λ s. s) none ≡ "rtl"
unfolding reading_mode trim
reads_right_to_left = refl
