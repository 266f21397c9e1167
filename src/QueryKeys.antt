-- ===== src/QueryKeys.antt =====
-- web/src/lib/queryKeys.ts and `shouldDehydrateQuery` of web/src/lib/persister.ts: the keys of the
-- query cache, and which queries are kept offline.
pub mod Prefixes
pub mod Keeping
mod Tests
use kiyomi.Base.{
  ℕ, Bool, true, false, not, ◌&&◌, ◌||◌, String, Option, none, some, List, [], ◌∷◌, ◌++◌, is_blank,
  ◌==◌, String_eq, if◌then◌else◌, ◌otherwise◌,
}

-- A part of a key: a text, a number, or an object by its fields.
pub data Part : Type 0 where
  text : String → Part
  count : ℕ → Part
  object : List (String × String) → Part

abbrev pub QueryKey : Type 0
QueryKey = List Part

-- `...(x ? [x] : [])`, for a text that may be missing.
abbrev pub if_given : Option String → QueryKey
if_given none = []
if_given (some s) = if is_blank s then [] else text s ∷ []

-- queryKeys.sources, queryKeys.collisions, queryKeys.info
abbrev pub sources_all : QueryKey
sources_all = text "sources" ∷ []

abbrev pub collisions_all : QueryKey
collisions_all = text "collisions" ∷ []

abbrev pub info_all : QueryKey
info_all = text "info" ∷ []

-- queryKeys.library
abbrev pub library_all : QueryKey
library_all = text "library" ∷ []

abbrev pub library_mangas : QueryKey
library_mangas = library_all ++ text "manga" ∷ []

abbrev pub library_providers : String → QueryKey
library_providers manga_id = library_all ++ text "providers" ∷ text manga_id ∷ []

abbrev pub library_pull : String → Option String → QueryKey
library_pull manga_id provider_id =
    library_all ++ text "pull" ∷ text manga_id ∷ if_given provider_id

abbrev pub library_refresh : String → QueryKey
library_refresh manga_id = library_all ++ text "refresh" ∷ text manga_id ∷ []

-- queryKeys.manga
abbrev pub manga_all : QueryKey
manga_all = text "manga" ∷ []

abbrev pub manga_details : String → QueryKey
manga_details id = manga_all ++ text "detail" ∷ text id ∷ []

abbrev pub manga_provider_details : String → String → QueryKey
manga_provider_details provider_id remote_id =
    manga_all ++ text "provider" ∷ text provider_id ∷ text remote_id ∷ []

abbrev pub manga_detail : String → QueryKey
manga_detail id = manga_all ++ text id ∷ []

abbrev pub manga_metadata : String → QueryKey
manga_metadata id = manga_all ++ text id ∷ text "metadata" ∷ []

abbrev pub manga_user_state : String → QueryKey
manga_user_state id = manga_all ++ text id ∷ text "user_state" ∷ []

abbrev pub manga_bindings : String → QueryKey
manga_bindings id = manga_all ++ text id ∷ text "bindings" ∷ []

-- queryKeys.explore
abbrev pub explore_all : QueryKey
explore_all = text "explore" ∷ []

abbrev pub explore_catalog : String → String → String → ℕ → QueryKey
explore_catalog provider_id mode query page =
    explore_all ++ text provider_id ∷ text mode ∷ text query ∷ count page ∷ []

-- queryKeys.chapters
abbrev pub chapters_all : QueryKey
chapters_all = text "chapters" ∷ []

abbrev pub chapters_list : String → QueryKey
chapters_list manga_id = chapters_all ++ text manga_id ∷ []

abbrev pub chapters_provider_list : String → String → QueryKey
chapters_provider_list manga_id provider_id =
    chapters_all ++ text manga_id ∷ text "provider" ∷ text provider_id ∷ []

abbrev pub chapters_remote_list : String → String → QueryKey
chapters_remote_list provider_id remote_id =
    chapters_all ++ text "remote" ∷ text provider_id ∷ text remote_id ∷ []

abbrev pub chapters_remote_pages : String → String → String → QueryKey
chapters_remote_pages provider_id remote_id chapter_id =
    chapters_all
    ++ text "remote"
      ∷ text provider_id
      ∷ text remote_id
      ∷ text "chapter"
      ∷ text chapter_id
      ∷ text "pages"
      ∷ []

abbrev pub chapters_pages : String → Option String → Option String → QueryKey
chapters_pages chapter_id manga_id provider_id =
    chapters_all ++ text "pages" ∷ text chapter_id ∷ (if_given manga_id ++ if_given provider_id)

-- queryKeys.plugins
abbrev pub plugins_all : QueryKey
plugins_all = text "plugins" ∷ []

abbrev pub plugins_logs : String → QueryKey
plugins_logs id = plugins_all ++ text "logs" ∷ text id ∷ []

-- queryKeys.system
abbrev pub system_all : QueryKey
system_all = text "system" ∷ []

abbrev pub system_cache : QueryKey
system_cache = text "system" ∷ text "cache" ∷ []

-- queryKeys.jobs; a filter without fields counts as none.
abbrev pub jobs_all : QueryKey
jobs_all = text "jobs" ∷ []

abbrev pub jobs_list : List (String × String) → QueryKey
jobs_list [] = jobs_all ++ text "list" ∷ []
jobs_list (field ∷ fields) = jobs_all ++ text "list" ∷ object (field ∷ fields) ∷ []

abbrev pub jobs_children : String → QueryKey
jobs_children parent_id = jobs_all ++ text "children" ∷ text parent_id ∷ []

-- `query.state.status`
pub data QueryStatus : Type 0 where
  waiting error success : QueryStatus

pub record Query : Type 0 where
  pub status : QueryStatus
  pub query_key : QueryKey

-- `queryKey[0] === s`, and `queryKey[1] === s`.
abbrev pub is_text : String → Part → Bool
is_text s (text t) = t == s
is_text s (count n) = false
is_text s (object fields) = false

abbrev pub first_is : String → QueryKey → Bool
first_is s [] = false
first_is s (p ∷ parts) = is_text s p

abbrev pub second_is : String → QueryKey → Bool
second_is s [] = false
second_is s (p ∷ parts) = first_is s parts

abbrev pub is_success : QueryStatus → Bool
is_success waiting = false
is_success error = false
is_success success = true

unfoldable pub should_dehydrate_query : Query → Bool
should_dehydrate_query q =
    if not (is_success q.status)
    then false
    else if first_is "plugins" q.query_key && second_is "logs" q.query_key
    then false
    else if first_is "collisions" q.query_key
    then false
    else if first_is "system" q.query_key && second_is "cache" q.query_key
    then false
    else if first_is "jobs" q.query_key
    then false
    else true
