-- ===== src/DetailsManga.antt =====
-- web/src/components/details/hooks/useDetailsManga.ts: what the page of a manga shows, from its address
-- and from what the queries have answered so far. `to_upper_case` is the platform's case mapping.
pub mod Chapters
pub mod Pulls
mod Tests
use kiyomi.Base.{
  ℕ, Bool, true, false, not, ◌&&◌, ◌||◌, String, Option, none, some, List, [], ◌∷◌, length, map,
  filter_by, find, ltb, and_then, is_some, is_blank, or_text, ◌<|>◌, ◌otherwise◌, ◌==◌, ℕ_eq,
  String_eq, if◌then◌else◌,
}
use kiyomi.Base.Text.{starts_with}
use kiyomi.Api.{Manga, Source, Chapter, Job, ContentAvailability, available, unavailable, unknown}
use kiyomi.Api.Numbers.{◌+text◌}
use kiyomi.Api.Values.{string, flag}
use kiyomi.Hooks.{QueryOptions}
use kiyomi.Hooks.Queries.{
  jobs_query_options, is_active_status, use_manga_details, use_provider_manga_details,
  use_chapter_list, use_provider_chapter_list,
}
use kiyomi.ReadingCta.{ReadingCtaInfo, LastRead, by_manga, nothing, get_reading_cta_info}
use kiyomi.ChapterOperations.{lookup}

-- `location.pathname` and the parameters of the route.
pub record Route : Type 0 where
  pub pathname : String
  pub manga_id : Option String
  pub provider_id : Option String
  pub remote_id : Option String

-- What a query holds.
pub record Answer {ℓ} (A : Type ℓ) : Type ℓ where
  pub data_ : Option A
  pub is_loading : Bool
  pub is_error : Bool

pub record Answers : Type 0 where
  pub library_manga : Answer (List Manga)
  pub remote_details : Answer Manga
  pub jobs : Answer (List Job)
  pub local_details : Answer Manga
  pub remote_manga : Answer Manga
  pub sources : Answer (List Source)
  pub local_chapters : Answer (List Chapter)
  pub remote_chapters : Answer (List Chapter)

abbrev pub provider_id_param : Route → String
provider_id_param r = r.provider_id otherwise ""

abbrev pub remote_id_param : Route → String
remote_id_param r = r.remote_id otherwise ""

-- `Boolean(a && b)` on texts.
abbrev pub both_given : String → String → Bool
both_given a b = not (is_blank a) && not (is_blank b)

unfoldable pub is_remote_route : Route → Bool
is_remote_route r =
    starts_with r.pathname "/explore/"
    || starts_with r.pathname "/providers/"
    || both_given (provider_id_param r) (remote_id_param r)

-- A manga of the library's list, or an object that has nothing but an id.
pub data LibraryEntry : Type 0 where
  listed : Manga → LibraryEntry
  only_id : String → LibraryEntry

abbrev pub entry_id : LibraryEntry → String
entry_id (listed m) = m.id
entry_id (only_id id) = id

abbrev pub entry_of_id : String → Option LibraryEntry
entry_of_id id = if is_blank id then none else some (only_id id)

abbrev pub is_same : Option String → String → Bool
is_same none id = false
is_same (some other) id = id == other

unfoldable pub library_entry : Route → Answers → Option LibraryEntry
library_entry r a =
    if is_remote_route r
    then entry_of_id (and_then a.remote_details.data_ (λ m. m.library_manga_id) otherwise "")
    else and_then (find (λ m. is_same r.manga_id m.id) (a.library_manga.data_ otherwise []))
        (λ m. some (listed m))

unfoldable pub is_in_library : Route → Answers → Bool
is_in_library r a = is_some (library_entry r a)

unfoldable pub target_manga_id : Route → Answers → String
target_manga_id r a =
    or_text (and_then (library_entry r a) (λ e. some (entry_id e)) otherwise "")
      (r.manga_id otherwise "")

-- The background jobs of the manga.
unfoldable pub jobs_query : Route → Answers → QueryOptions
jobs_query r a =
    record (jobs_query_options
      (some (("metadata.manga_id", string (target_manga_id r a)) ∷ ("all", flag true) ∷ []))) {
        enabled = not (is_blank (target_manga_id r a)) && is_in_library r a;
      }

-- `j.metadata?.chapter_id`, where there is none an empty text.
abbrev pub job_chapter_id : Job → String
job_chapter_id j = and_then j.metadata (lookup "chapter_id") otherwise ""

abbrev pub is_active_pull : Job → Bool
is_active_pull j =
    j.kind == "pull_chapter" && is_active_status j.status && not (is_blank (job_chapter_id j))

unfoldable pub active_job_chapter_ids : List Job → List String
active_job_chapter_ids jobs = map job_chapter_id (filter_by is_active_pull jobs)

unfoldable pub has_active_pull_jobs : List Job → List String → Bool
has_active_pull_jobs jobs optimistic_pull_ids =
    ltb 0 (length (active_job_chapter_ids jobs)) || ltb 0 (length optimistic_pull_ids)

-- The page calls the hook without `optimisticPullIds`, which is the empty set then.
unfoldable pub page_has_active_pull_jobs : List Job → Bool
unfolding has_active_pull_jobs
page_has_active_pull_jobs jobs = has_active_pull_jobs jobs []

-- The details of the provider are asked for early: they say whether the manga is in the library.
unfoldable pub remote_details_query : Route → QueryOptions
remote_details_query r =
    use_provider_manga_details (provider_id_param r) (remote_id_param r)
      (some (is_remote_route r && both_given (provider_id_param r) (remote_id_param r)))

unfoldable pub local_details_query : Route → Answers → QueryOptions
local_details_query r a =
    use_manga_details (target_manga_id r a)
      (some (not (is_remote_route r) && not (is_blank (target_manga_id r a))))

unfoldable pub manga : Route → Answers → Option Manga
manga r a = if is_remote_route r then a.remote_details.data_ else a.local_details.data_

unfoldable pub is_manga_loading : Route → Answers → Bool
is_manga_loading r a =
    if is_remote_route r then a.remote_details.is_loading else a.local_details.is_loading

abbrev pub provider_id_for_remote : Option Manga → String
provider_id_for_remote m =
    or_text (and_then m (λ x. x.content_provider_id) otherwise "")
      (and_then m (λ x. x.source_id) otherwise "")

abbrev pub remote_id_for_remote : Option Manga → String
remote_id_for_remote m = and_then m (λ x. x.content_remote_id) otherwise ""

-- The details that the content provider has of a manga of the library.
unfoldable pub remote_manga_query : Route → Answers → QueryOptions
remote_manga_query r a =
    let provider = provider_id_for_remote (manga r a) in
    let remote = remote_id_for_remote (manga r a) in
    use_provider_manga_details provider remote
      (some (not (is_remote_route r) && both_given provider remote))

unfoldable pub active_content_provider_id : Route → Answers → Option String
active_content_provider_id r a =
    if is_remote_route r
    then some (provider_id_param r)
    else and_then (manga r a) (λ m.
      and_then m.bindings.content (λ c. some c.provider_id)
      <|> m.content_provider_id
      <|> m.source_id
      <|> and_then m.meta (λ x. and_then x.content (λ c. some c.provider_id)))

-- A manga of a provider that is not in the library.
abbrev pub is_foreign : Route → Answers → Bool
is_foreign r a = is_remote_route r && not (is_in_library r a)

unfoldable pub local_chapters_query : Route → Answers → QueryOptions
local_chapters_query r a =
    use_chapter_list (target_manga_id r a) none (
      some ((not (is_remote_route r) || is_in_library r a) && not (is_blank (target_manga_id r a))))

unfoldable pub remote_chapters_query : Route → Answers → QueryOptions
remote_chapters_query r a =
    use_provider_chapter_list (provider_id_param r) (remote_id_param r)
      (some (is_foreign r a && both_given (provider_id_param r) (remote_id_param r)))

unfoldable pub chapters_answer : Route → Answers → Answer (List Chapter)
chapters_answer r a = if is_foreign r a then a.remote_chapters else a.local_chapters

unfoldable pub chapters : Route → Answers → List Chapter
chapters r a = (chapters_answer r a).data_ otherwise []

unfoldable pub is_chapters_loading : Route → Answers → Bool
is_chapters_loading r a = (chapters_answer r a).is_loading

unfoldable pub is_chapters_error : Route → Answers → Bool
is_chapters_error r a = (chapters_answer r a).is_error

unfoldable pub active_provider : Route → Answers → Option Source
active_provider r a =
    find (λ s. is_same (active_content_provider_id r a) s.id) (a.sources.data_ otherwise [])

abbrev pub language_of : Source → String
language_of s = or_text (s.language otherwise "") (s.lang otherwise "")

-- The name with the language, or the id of a provider that is not known.
unfoldable pub content_provider_name : (String → String) → Route → Answers → Option String
content_provider_name to_upper_case r a = elim (active_provider r a) [
  | some s ↦ some (
      s.name
      +text (if is_blank (language_of s)
          then ""
          else " (" +text to_upper_case (language_of s) +text ")"))
  | none ↦ entry_text (active_content_provider_id r a)
]
  where
    entry_text : Option String → Option String
    entry_text none = none
    entry_text (some id) = if is_blank id then none else some id

abbrev pub last_read_of : Option Manga → LastRead
last_read_of none = nothing
last_read_of (some m) = by_manga m

unfoldable pub reading_cta : Route → Answers → Option ReadingCtaInfo
reading_cta r a = get_reading_cta_info (some (chapters r a)) (last_read_of (manga r a))

abbrev pub says_unavailable : Option ContentAvailability → Bool
says_unavailable none = false
says_unavailable (some available) = false
says_unavailable (some unavailable) = true
says_unavailable (some unknown) = false

unfoldable pub is_unavailable : Route → Answers → Bool
is_unavailable r a =
    says_unavailable (and_then (manga r a) (λ m. m.availability))
    || says_unavailable (and_then a.remote_manga.data_ (λ m. m.availability))
    || says_unavailable (and_then (manga r a) (λ m. and_then m.meta (λ x. x.availability)))

unfoldable pub has_zero_chapters : Route → Answers → Bool
has_zero_chapters r a =
    not (chapters_answer r a).is_loading
    && is_some (chapters_answer r a).data_
    && length (chapters r a) == 0
