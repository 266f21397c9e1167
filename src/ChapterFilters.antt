-- ===== src/ChapterFilters.antt =====
-- web/src/components/chapter-list/hooks/useChapterFilters.ts: the search, the order and the pages of
-- a chapter list. `to_lower_case` and `locale_compare` are the platform's locale data.
pub mod Pages
pub mod Order
mod Tests
use kiyomi.Base.{
  ℕ, zero, suc, ◌+◌, ◌-◌, ◌*◌, ◌/◌, Bool, true, false, not, ◌&&◌, ◌||◌, String, Option, none, some,
  List, [], ◌∷◌, map, length, filter_by, slice, min, max, and_then, is_blank, or_text, ◌<|>◌,
  ◌otherwise◌, ◌==◌, ℕ_eq, String_eq, if◌then◌else◌,
}
use kiyomi.Base.Int.{ℤ, pos, ◌-ℤ◌, negate}
use kiyomi.Base.Sort.{sort}
use kiyomi.Base.Text.{trim, includes}
use kiyomi.Api.{Chapter}
use kiyomi.Api.Numbers.{number_text}
use kiyomi.ChapterSelection.{is_downloaded}

pub data Direction : Type 0 where
  asc desc : Direction

-- The state, and the options of the hook.
pub record Filters : Type 0 where
  pub filter_query : String
  pub page : ℕ

unfoldable pub handle_set_filter_query : String → Filters → Filters
handle_set_filter_query query s = record s { filter_query = query; page = 1 }

-- The effect that runs when the order changes.
unfoldable pub order_changed : Filters → Filters
order_changed s = record s { page = 1 }

-- `sourceOrder: ch.sourceOrder ?? idx`
unfoldable pub with_source_order : ℕ → List Chapter → List Chapter
with_source_order idx [] = []
with_source_order idx (c ∷ cs) =
    record c { source_order = some (c.source_order otherwise pos idx) }
    ∷ with_source_order (idx + 1) cs

-- `String(c.number)`
abbrev pub chapter_number_text : Chapter → String
chapter_number_text c = elim c.number [ none ↦ "undefined" | some n ↦ number_text n ]

abbrev pub upload_text : Chapter → String
upload_text c =
    or_text (c.upload_date otherwise "")
      (or_text (c.uploaded_at otherwise "") (and_then c.meta (λ m. m.upload_date) otherwise ""))

module _ (to_lower_case : String → String) (locale_compare : String → String → ℤ) where
  unfoldable pub matches_query : String → Chapter → Bool
  matches_query query c =
      let q = trim (to_lower_case query) in
      includes (to_lower_case (or_text (c.title otherwise "") c.name)) q
      || includes (chapter_number_text c) q

  -- The chapters that the search keeps.
  unfoldable pub search_chapters : String → List Chapter → List Chapter
  unfolding matches_query
  search_chapters query cs =
      if is_blank (trim query) then cs else filter_by (matches_query query) cs

  -- `comparison`, for each value of `sortBy`.
  unfoldable pub comparison : String → Chapter → Chapter → ℤ
  comparison sort_by =
      if sort_by == "number"
      then (λ a b. (a.number otherwise pos 0) -ℤ (b.number otherwise pos 0))
      else if sort_by == "date"
      then (λ a b. locale_compare (upload_text a) (upload_text b))
      else λ a b. (a.source_order otherwise pos 0) -ℤ (b.source_order otherwise pos 0)

  unfoldable pub directed : String → Direction → Chapter → Chapter → ℤ
  unfolding comparison
  directed sort_by asc a b = comparison sort_by a b
  directed sort_by desc a b = negate (comparison sort_by a b)

  unfoldable pub filtered_chapters : String → Direction → String → List Chapter → List Chapter
  unfolding with_source_order search_chapters directed
  filtered_chapters sort_by order query chapters =
      sort (directed sort_by order) (search_chapters query (with_source_order 0 chapters))

-- `Math.ceil(count / pageSize)`, for a page size that is not 0.
unfoldable pub total_pages : ℕ → ℕ → ℕ
total_pages page_size count = (count + (page_size - 1)) / page_size

unfoldable pub safe_page : ℕ → ℕ → ℕ
safe_page total page = min (max 1 page) (if total == 0 then 1 else total)

unfoldable pub paginated_chapters : ℕ → ℕ → List Chapter → List Chapter
unfolding total_pages safe_page
paginated_chapters page_size page filtered =
    let safe = safe_page (total_pages page_size (length filtered)) page in
    slice ((safe - 1) * page_size) (safe * page_size) filtered

-- The accumulator of `reduce`.
unfoldable pub count_downloaded : ℕ → List Chapter → ℕ
count_downloaded count [] = count
count_downloaded count (c ∷ cs) = count_downloaded (if is_downloaded c then count + 1 else count) cs

unfoldable pub downloaded_count : List Chapter → ℕ
unfolding count_downloaded
downloaded_count chapters = count_downloaded 0 chapters
