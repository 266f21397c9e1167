-- ===== src/ChapterFilters/Tests.antt =====
-- Runs of useChapterFilters.ts, and the theorems at concrete lists.
use kiyomi.Base.{false, List, [], ◌∷◌, ◌≡◌, arith, length}
use kiyomi.Base.Int.{pos}
use kiyomi.Api.{Chapter}
use kiyomi.Samples.{chapter, lower, blank_first, blank_first-IsCollation}
use kiyomi.ChapterFilters.{desc, filtered_chapters, total_pages}
use kiyomi.ChapterFilters.Pages.{first_pages, first_pages-all}
use kiyomi.ChapterFilters.Order.{IsOrdered, filtered_chapters-IsOrdered}

abbrev rows : List Chapter
rows =
    chapter "a" (pos 1000) false 1
    ∷ chapter "b" (pos 3000) false 1
    ∷ chapter "c" (pos 2000) false 1
    ∷ []

first_pages-all_example : first_pages 2 (total_pages 2 (length rows)) rows ≡ rows
first_pages-all_example = first_pages-all 2 rows (omega arith)

filtered_chapters-IsOrdered_example :
    IsOrdered blank_first "date" desc (filtered_chapters lower blank_first "date" desc "" rows)
filtered_chapters-IsOrdered_example =
    filtered_chapters-IsOrdered lower blank_first "date" desc "" rows blank_first-IsCollation
