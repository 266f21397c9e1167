-- ===== src/ReadingCta/Tests.antt =====
-- Runs of readingCta.ts, and the theorems at concrete chapters.
use kiyomi.Base.{true, false, Option, none, some, List, [], ◌∷◌, ◌≡◌, ◌↔◌, refl, ◌otherwise◌}
use kiyomi.Base.Int.{pos, ◌-ℤ◌}
use kiyomi.Base.Sort.{sort}
use kiyomi.Api.{Chapter}
use kiyomi.Samples.{chapter}
use kiyomi.ReadingCta.{
  nothing, get_is_read, by_number, get_last_page, last_read_chapter, in_progress_chapter,
  resume_info, get_reading_cta_info,
}
use kiyomi.ReadingCta.Picking.{IsJustified}
use kiyomi.ReadingCta.Choice.{get_reading_cta_info-eq-none_iff, get_reading_cta_info-IsJustified}

abbrev first : Chapter
first = chapter "one" (pos 1000) true 9

abbrev second : Chapter
second = chapter "two" (pos 2000) false 4

abbrev third : Chapter
third = chapter "three" (pos 3000) false 1

resumes_second :
    get_reading_cta_info (some (third ∷ second ∷ first ∷ [])) nothing ≡ some (resume_info second)
unfolding get_reading_cta_info sort by_number ◌-ℤ◌ resume_info in_progress_chapter last_read_chapter
    get_is_read get_last_page
resumes_second = refl

abbrev listed : Option (List Chapter)
listed = some (third ∷ second ∷ [])

get_reading_cta_info-eq-none_iff_example :
    (get_reading_cta_info listed nothing ≡ none) ↔ ((listed otherwise []) ≡ [])
get_reading_cta_info-eq-none_iff_example = get_reading_cta_info-eq-none_iff listed nothing

get_reading_cta_info-IsJustified_example :
    IsJustified (third ∷ second ∷ first ∷ []) (resume_info second)
get_reading_cta_info-IsJustified_example =
    get_reading_cta_info-IsJustified (third ∷ second ∷ first ∷ []) nothing
      {info = resume_info second} resumes_second
