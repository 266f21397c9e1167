-- ===== src/ReaderPage.antt =====
-- web/src/routes/ReaderPage.tsx: which manga, chapter and pages the reader shows, from its address and
-- from what its queries have answered. `to_lower_case` is the platform's case mapping.
pub mod Chapters
pub mod Navigation
pub mod Racing
pub mod Turns
pub mod Sliding
pub mod Bounds
pub mod Modes
pub mod Images
pub mod Announcing
mod Tests
use kiyomi.Base.{
  ℕ, zero, suc, ◌+◌, ◌-◌, Bool, true, false, not, ◌&&◌, ◌||◌, String, Option, none, some, List, [],
  ◌∷◌, length, find, find_index, get_elem?, any_of, ltb, and_then, is_some, is_blank, or_text,
  truthy, ◌<|>◌, ◌otherwise◌, ◌==◌, ℕ_eq, String_eq, if◌then◌else◌,
}
use kiyomi.Base.Text.{trim}
use kiyomi.Api.{Manga, Chapter, Page, ContentSource}
use kiyomi.Hooks.{QueryOptions}
use kiyomi.Hooks.Queries.{
  use_manga_details, use_provider_manga_details, standard, use_chapter_pages,
  use_provider_chapter_pages, use_chapter_list, use_provider_chapter_list,
}
use kiyomi.ReaderProgress.{SearchPage}
use kiyomi.ReaderProgress as ReaderProgress
use kiyomi.DetailsManga.{Answer, both_given, is_same}

-- The parameters of the route and of the search.
pub record Address : Type 0 where
  pub chapter_id : Option String
  pub manga_id : Option String
  pub provider_id : Option String
  pub remote_id : Option String
  pub search_manga_id : Option String
  pub search_page : SearchPage

pub record Answers : Type 0 where
  pub library_manga : Option (List Manga)
  pub local_manga : Option Manga
  pub remote_manga : Option Manga
  pub local_pages : Answer (List Page)
  pub remote_pages : Answer (List Page)
  pub local_chapters : Option (List Chapter)
  pub remote_chapters : Option (List Chapter)

-- A text that is missing counts like one that is blank.
abbrev pub text_of : Option String → String
text_of o = o otherwise ""

abbrev pub chapter_id : Address → String
chapter_id d = text_of d.chapter_id

abbrev pub manga_id : Address → String
manga_id d = or_text (text_of d.manga_id) (text_of d.search_manga_id)

-- The word `chapters` is a part of other addresses, and no provider.
abbrev pub no_word : String → String
no_word id = if id == "chapters" then "" else id

abbrev pub provider_id : Address → String
provider_id d = no_word (text_of d.provider_id)

abbrev pub remote_id : Address → String
remote_id d = text_of d.remote_id

abbrev pub meta_content : Manga → Option ContentSource
meta_content m = and_then m.meta (λ x. x.content)

-- The manga of the library that the provider has under this id.
abbrev pub is_bound : String → String → Manga → Bool
is_bound provider remote m =
    (is_same m.content_provider_id provider
      || is_same m.source_id provider
      || is_same (and_then (meta_content m) (λ c. some c.provider_id)) provider)
    && (is_same m.content_remote_id remote
        || is_same m.url remote
        || m.id == remote
        || is_same (and_then (meta_content m) (λ c. c.provider_manga_id)) remote)

unfoldable pub library_entry : Address → Answers → Option Manga
library_entry d a =
    let library = a.library_manga otherwise [] in
    if not (is_blank (manga_id d))
    then find (λ m. m.id == manga_id d) library
    else if both_given (provider_id d) (remote_id d)
    then find (is_bound (provider_id d) (remote_id d)) library
    else none

unfoldable pub effective_manga_id : Address → Answers → String
effective_manga_id d a =
    or_text (manga_id d) (text_of (and_then (library_entry d a) (λ m. some m.id)))

abbrev pub is_local : Address → Answers → Bool
is_local d a = not (is_blank (effective_manga_id d a))

-- What is asked of the provider, where the manga is not in the library.
abbrev pub is_remote : Address → Answers → Bool
is_remote d a = not (is_local d a) && both_given (provider_id d) (remote_id d)

unfoldable pub local_manga_query : Address → Answers → QueryOptions
local_manga_query d a = use_manga_details (effective_manga_id d a) (some (is_local d a))

unfoldable pub remote_manga_query : Address → Answers → QueryOptions
remote_manga_query d a =
    use_provider_manga_details (provider_id d) (remote_id d) (some (is_remote d a))

unfoldable pub manga : Address → Answers → Option Manga
manga d a = if is_local d a then a.local_manga else a.remote_manga

unfoldable pub chapter_provider_id : Address → Answers → String
chapter_provider_id d a = no_word (
    or_text (text_of (and_then (manga d a) (λ m. m.content_provider_id))) (
      or_text
        (text_of (and_then (manga d a) (λ m. and_then (meta_content m) (λ c. some c.provider_id))))
        (provider_id d)))

unfoldable pub local_pages_query : Address → Answers → QueryOptions
local_pages_query d a = use_chapter_pages (
    standard (effective_manga_id d a) (chapter_id d)
      (some (not (is_blank (chapter_id d)) && is_local d a)))

unfoldable pub remote_pages_query : Address → Answers → QueryOptions
remote_pages_query d a =
    use_provider_chapter_pages (provider_id d) (remote_id d) (chapter_id d)
      (some (is_remote d a && not (is_blank (chapter_id d))))

unfoldable pub pages_answer : Address → Answers → Answer (List Page)
pages_answer d a = if is_local d a then a.local_pages else a.remote_pages

unfoldable pub pages : Address → Answers → List Page
pages d a = (pages_answer d a).data_ otherwise []

unfoldable pub local_chapters_query : Address → Answers → QueryOptions
local_chapters_query d a = use_chapter_list (effective_manga_id d a) none (some (is_local d a))

unfoldable pub remote_chapters_query : Address → Answers → QueryOptions
remote_chapters_query d a =
    use_provider_chapter_list (provider_id d) (remote_id d) (some (is_remote d a))

unfoldable pub chapters : Address → Answers → List Chapter
chapters d a = (if is_local d a then a.local_chapters else a.remote_chapters) otherwise []

-- The chapters around the one with an id.
unfoldable pub current_chapter_index : List Chapter → String → Option ℕ
current_chapter_index cs id = find_index (λ c. c.id == id) cs

unfoldable pub current_chapter : List Chapter → String → Option Chapter
current_chapter cs id = and_then (current_chapter_index cs id) (get_elem? cs)

abbrev pub is_behind_first : Option ℕ → Bool
is_behind_first none = false
is_behind_first (some i) = ltb 0 i

unfoldable pub has_prev_chapter : List Chapter → String → Bool
has_prev_chapter cs id = is_behind_first (current_chapter_index cs id)

abbrev pub is_before_last : ℕ → Option ℕ → Bool
is_before_last count none = false
is_before_last count (some i) = ltb (i + 1) count

unfoldable pub has_next_chapter : List Chapter → String → Bool
has_next_chapter cs id = is_before_last (length cs) (current_chapter_index cs id)

unfoldable pub prev_chapter : List Chapter → String → Option Chapter
prev_chapter cs id =
    if has_prev_chapter cs id
    then and_then (current_chapter_index cs id) (λ i. get_elem? cs (i - 1))
    else none

unfoldable pub next_chapter : List Chapter → String → Option Chapter
next_chapter cs id =
    if has_next_chapter cs id
    then and_then (current_chapter_index cs id) (λ i. get_elem? cs (i + 1))
    else none

abbrev pub is_mode : String → Bool
is_mode mode = mode == "rtl" || mode == "ltr" || mode == "vertical" || mode == "longstrip"

-- The text that says how the manga is read.
abbrev pub raw_mode : Option Manga → String
raw_mode m = or_text (text_of (and_then m (λ x. and_then x.content (λ c. c.reading_mode)))) (
    or_text (text_of (and_then m (λ x. and_then (meta_content x) (λ c. c.reading_mode)))) (
      or_text (text_of (and_then m (λ x. x.reading_mode_camel))) (
        or_text (text_of (and_then m (λ x. x.reading_mode))) (
          or_text (text_of (and_then m (λ x. x.reading_direction_camel)))
            (text_of (and_then m (λ x. and_then x.meta (λ y. y.reading_direction))))))))

module _ (to_lower_case : String → String) where
  unfoldable pub reading_mode : Option Manga → String
  reading_mode m =
      let mode = to_lower_case (trim (raw_mode m)) in if is_mode mode then mode else "rtl"

abbrev pub is_paged_mode : String → Bool
is_paged_mode mode = mode == "rtl" || mode == "ltr"

unfoldable pub is_chapter_read : Option Chapter → Bool
is_chapter_read c =
    truthy (and_then c (λ x. and_then x.meta (λ m. m.is_read)) <|> and_then c (λ x. x.is_read))

unfoldable pub chapter_last_read_page : Option Chapter → ℕ
chapter_last_read_page c =
    and_then c (λ x. and_then x.meta (λ m. m.last_read_page)) <|> and_then c (λ x. x.last_read_page)
    otherwise 0

abbrev pub given_id : String → Option String
given_id id = if is_blank id then none else some id

-- The options of `useReaderProgressTracker`.
unfoldable pub progress_options : (String → String) → Address → Answers → ReaderProgress.Options
progress_options to_lower_case d a =
    let cs = chapters d a in
    let m = manga d a in
    record {
      effective_manga_id = given_id (effective_manga_id d a);
      chapter_id = chapter_id d;
      chapter_provider_id = some (chapter_provider_id d a);
      pages_count = length (pages d a);
      is_paged = is_paged_mode (reading_mode to_lower_case m);
      is_chapter_read = is_chapter_read (current_chapter cs (chapter_id d));
      chapter_last_read_page = chapter_last_read_page (current_chapter cs (chapter_id d));
      search_page = d.search_page;
      has_next_chapter = has_next_chapter cs (chapter_id d);
      user_status = given_id (
          or_text (text_of (and_then m (λ x. x.user_status)))
            (text_of (and_then m (λ x. and_then x.meta (λ y. y.user_status)))));
    }
