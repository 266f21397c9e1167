-- ===== src/LibraryFilters/Tests.antt =====
-- Runs of useLibraryFilters.ts, and the theorems at a small library.
use kiyomi.Base.{String, some, List, [], ◌∷◌, map, length, ◌≡◌, refl}
use kiyomi.Base.Int.{ℤ, pos, ◌-ℤ◌}
use kiyomi.Base.Sort.{sort}
use kiyomi.Base.Text.{trim, starts_with}
use kiyomi.Api.{Manga}
use kiyomi.Samples.{manga, lower, blank_first}
use kiyomi.LibraryFilters.{Filters, counts, filtered_manga}
use kiyomi.LibraryFilters.Counts.{reading, text_of, only_shelf, counts-filtered_manga}

abbrev epoch : String → ℤ
epoch date = pos 0

abbrev library : List Manga
library =
    manga "Akira" "reading" (pos 8000)
    ∷ manga "Berserk" "completed" (pos 9500)
    ∷ manga "Claymore" "reading" (pos 9000)
    ∷ []

abbrev best_first : Filters
best_first = record {
  active_shelf = "reading";
  selected_tag = "";
  filter_search = "";
  sort_by = "rating_desc";
}

shows_best_first :
    map (λ m. m.id) (filtered_manga lower blank_first epoch best_first library)
    ≡ "Claymore" ∷ "Akira" ∷ []
unfolding filtered_manga sort starts_with trim ◌-ℤ◌
shows_best_first = refl

counts-filtered_manga_example :
    counts library (text_of reading)
    ≡ some (
        length (
          filtered_manga lower blank_first epoch
            (only_shelf lower blank_first epoch (text_of reading) "title_asc")
            library))
counts-filtered_manga_example =
    counts-filtered_manga lower blank_first epoch reading "title_asc" library
