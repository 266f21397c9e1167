-- ===== src/Client/Chapters.antt =====
-- The chapters and pages of the library in `api`.
use kiyomi.Base.{
  ℕ, ◌*◌, Bool, String, Option, none, some, List, [], ◌∷◌, ◌++◌, is_blank, or_text, if◌then◌else◌,
  ◌otherwise◌,
}
use kiyomi.Base.Int.{pos}
use kiyomi.Api.Numbers.{◌+text◌}
use kiyomi.Api.Values.{Value, undefined, number, string, array, strings, object, fields_of}
use kiyomi.ImageUrls.{encode_uri_component}
use kiyomi.Client.{
  Request, http_post, http_patch, http_delete, reading, calling, sending, drop_undefined,
}
use kiyomi.Client.Library.{optional_flag}
use kiyomi.Client.Params.{query_text, with_query}

-- `/library/manga/${encodeURIComponent(mangaId)}`, and the path of a chapter.
abbrev pub encoded_manga_path : String → String
encoded_manga_path manga_id = "/library/manga/" +text encode_uri_component manga_id

abbrev pub chapter_path : String → String → String
chapter_path manga_id chapter_id =
    encoded_manga_path manga_id +text "/chapters/" +text encode_uri_component chapter_id

-- `if (value) query.set(name, value)`
abbrev pub pair_if : String → Option String → List (String × String)
pair_if name value = if is_blank (value otherwise "") then [] else (name, value otherwise "") ∷ []

unfoldable pub list_chapters : String → Option String → Request
unfolding encode_uri_component query_text
list_chapters manga_id provider_id = reading (
    with_query (encoded_manga_path manga_id +text "/chapters")
      (query_text (pair_if "provider_id" provider_id)))

unfoldable pub get_manga_chapters : String → Request
unfolding encode_uri_component
get_manga_chapters manga_id = reading (encoded_manga_path manga_id +text "/chapters")

unfoldable pub get_chapter : String → String → Request
unfolding encode_uri_component
get_chapter manga_id chapter_id = reading (chapter_path manga_id chapter_id)

unfoldable pub save_chapter : String → String → Value → Request
unfolding encode_uri_component
save_chapter manga_id chapter_id meta =
    sending http_post (encoded_manga_path manga_id +text "/chapters")
      (("id", string chapter_id) ∷ ("meta", meta) ∷ [])

unfoldable pub get_chapter_pages : String → String → Request
unfolding encode_uri_component
get_chapter_pages manga_id chapter_id = reading (chapter_path manga_id chapter_id +text "/pages")

-- `maybeChapterId || chapterIdOrProviderId`
abbrev pub chapter_of : String → Option String → String
chapter_of chapter_or_provider maybe_chapter =
    or_text (maybe_chapter otherwise "") chapter_or_provider

unfoldable pub pull_chapter : String → String → Option String → Request
unfolding encode_uri_component
pull_chapter manga_id chapter_or_provider maybe_chapter =
    calling http_post
      (chapter_path manga_id (chapter_of chapter_or_provider maybe_chapter) +text "/pull")

unfoldable pub delete_chapter_pages_cache : String → Request
unfolding encode_uri_component
delete_chapter_pages_cache chapter_id =
    calling http_delete ("/chapters/" +text encode_uri_component chapter_id +text "/pages")

unfoldable pub refresh_library_manga : String → Request
unfolding encode_uri_component
refresh_library_manga manga_id = calling http_post (encoded_manga_path manga_id +text "/refresh")

unfoldable pub pull_manga : String → Option String → Option String → Request
unfolding encode_uri_component query_text
pull_manga manga_id provider_id provider_manga_id = calling http_post (
    with_query (encoded_manga_path manga_id +text "/pull") (
      query_text
        (pair_if "provider_id" provider_id ++ pair_if "provider_manga_id" provider_manga_id)))

unfoldable pub delete_chapter : String → String → Request
unfolding encode_uri_component
delete_chapter manga_id chapter_id = calling http_delete (chapter_path manga_id chapter_id)

unfoldable pub delete_chapter_files : String → String → Option String → Request
unfolding encode_uri_component
delete_chapter_files manga_id chapter_or_provider maybe_chapter =
    calling http_delete
      (chapter_path manga_id (chapter_of chapter_or_provider maybe_chapter) +text "/files")

-- `{ is_read?: boolean; last_read_page?: number }`
pub record Progress : Type 0 where
  pub is_read : Option Bool
  pub last_read_page : Option ℕ

abbrev pub no_progress : Progress
no_progress = record { is_read = none; last_read_page = none }

-- A number is in thousandths as a value.
abbrev pub page_value : Option ℕ → Value
page_value none = undefined
page_value (some n) = number (pos (n * 1000))

abbrev pub progress_fields : Progress → List (String × Value)
progress_fields progress =
    ("is_read", optional_flag progress.is_read)
    ∷ ("last_read_page", page_value progress.last_read_page)
    ∷ []

unfoldable pub update_chapter_progress : String → String → Progress → Request
unfolding encode_uri_component
update_chapter_progress manga_id chapter_id progress =
    sending http_patch (chapter_path manga_id chapter_id +text "/progress")
      (progress_fields progress)

-- An argument of type `string | string[]`.
pub data IdOrIds : Type 0 where
  id : String → IdOrIds
  ids : List String → IdOrIds

-- `Array.isArray(chapterIdsOrProviderId) ? chapterIdsOrProviderId : maybeChapterIds || []`
abbrev pub ids_of : IdOrIds → Option (List String) → List String
ids_of (ids chapter_ids) maybe_ids = chapter_ids
ids_of (id provider_id) maybe_ids = maybe_ids otherwise []

abbrev pub batch : String → String → List String → Request
batch manga_id operation chapter_ids =
    sending http_post (encoded_manga_path manga_id +text operation)
      (("chapter_ids", array (strings chapter_ids)) ∷ [])

-- The third argument of `batchUpdateChapterProgress`: ids or a progress.
pub data IdsOrProgress : Type 0 where
  more_ids : List String → IdsOrProgress
  progress_given : Progress → IdsOrProgress

-- The two variables of `batchUpdateChapterProgress`, by its two signatures and where a caller mixes
-- them: a list has no progress, and a progress stands for the ids as it is.
abbrev pub batch_progress_of : IdOrIds → IdsOrProgress → Option Progress → Value × Progress
batch_progress_of (ids chapter_ids) (progress_given progress) maybe_progress =
    (array (strings chapter_ids), progress)
batch_progress_of (ids chapter_ids) (more_ids more) maybe_progress =
    (array (strings chapter_ids), no_progress)
batch_progress_of (id provider_id) (more_ids chapter_ids) maybe_progress =
    (array (strings chapter_ids), maybe_progress otherwise no_progress)
batch_progress_of (id provider_id) (progress_given progress) maybe_progress = (
  object (drop_undefined (fields_of (progress_fields progress))),
  maybe_progress otherwise no_progress,
)

unfoldable pub batch_update_chapter_progress :
    String → IdOrIds → IdsOrProgress → Option Progress → Request
unfolding encode_uri_component
batch_update_chapter_progress manga_id given second maybe_progress =
    let (chapter_ids, progress) = batch_progress_of given second maybe_progress in
    sending http_post (encoded_manga_path manga_id +text "/batch/chapters/progress")
      (("chapter_ids", chapter_ids) ∷ progress_fields progress)

unfoldable pub batch_pull_chapters : String → IdOrIds → Option (List String) → Request
unfolding encode_uri_component
batch_pull_chapters manga_id given maybe_ids =
    batch manga_id "/batch/chapters/pull" (ids_of given maybe_ids)

unfoldable pub refresh_chapters_batch : String → IdOrIds → Option (List String) → Request
unfolding encode_uri_component
refresh_chapters_batch manga_id given maybe_ids =
    batch manga_id "/batch/chapters/refresh" (ids_of given maybe_ids)

unfoldable pub batch_refresh_chapters : String → IdOrIds → Option (List String) → Request
unfolding refresh_chapters_batch
batch_refresh_chapters manga_id given maybe_ids = refresh_chapters_batch manga_id given maybe_ids

unfoldable pub batch_delete_chapters : String → IdOrIds → Option (List String) → Request
unfolding encode_uri_component
batch_delete_chapters manga_id given maybe_ids =
    batch manga_id "/batch/chapters/delete" (ids_of given maybe_ids)

unfoldable pub delete_chapter_files_batch : String → IdOrIds → Option (List String) → Request
unfolding encode_uri_component
delete_chapter_files_batch manga_id given maybe_ids =
    batch manga_id "/batch/chapter-files/delete" (ids_of given maybe_ids)

unfoldable pub batch_delete_chapter_files : String → IdOrIds → Option (List String) → Request
unfolding delete_chapter_files_batch
batch_delete_chapter_files manga_id given maybe_ids =
    delete_chapter_files_batch manga_id given maybe_ids
