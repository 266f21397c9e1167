-- ===== src/QueryKeys/Keeping.antt =====
-- Which queries of the application are kept offline.
use kiyomi.Base.{ℕ, Bool, true, false, not, String, Option, List, [], ◌∷◌, ◌≡◌, refl, if◌then◌else◌}
use kiyomi.QueryKeys.{
  QueryKey, QueryStatus, waiting, error, success, is_success, should_dehydrate_query, sources_all,
  collisions_all, info_all, library_mangas, library_providers, library_pull, library_refresh,
  manga_details, manga_provider_details, manga_detail, manga_metadata, manga_user_state,
  manga_bindings, explore_catalog, chapters_list, chapters_provider_list, chapters_remote_list,
  chapters_remote_pages, chapters_pages, plugins_all, plugins_logs, system_all, system_cache,
  jobs_list, jobs_children,
}

-- What the application asks the server for.
pub data Resource : Type 0 where
  sources collisions info mangas plugins system cache : Resource
  providers refresh details detail metadata user_state bindings chapters logs children :
      String → Resource
  pull : String → Option String → Resource
  provider_details provider_chapters remote_chapters : String → String → Resource
  catalog : String → String → String → ℕ → Resource
  remote_pages : String → String → String → Resource
  pages : String → Option String → Option String → Resource
  jobs : List (String × String) → Resource

abbrev pub key_of : Resource → QueryKey
key_of sources = sources_all
key_of collisions = collisions_all
key_of info = info_all
key_of mangas = library_mangas
key_of plugins = plugins_all
key_of system = system_all
key_of cache = system_cache
key_of (providers id) = library_providers id
key_of (refresh id) = library_refresh id
key_of (details id) = manga_details id
key_of (detail id) = manga_detail id
key_of (metadata id) = manga_metadata id
key_of (user_state id) = manga_user_state id
key_of (bindings id) = manga_bindings id
key_of (chapters id) = chapters_list id
key_of (logs id) = plugins_logs id
key_of (children id) = jobs_children id
key_of (pull id provider) = library_pull id provider
key_of (provider_details provider remote) = manga_provider_details provider remote
key_of (provider_chapters id provider) = chapters_provider_list id provider
key_of (remote_chapters provider remote) = chapters_remote_list provider remote
key_of (catalog provider mode query page) = explore_catalog provider mode query page
key_of (remote_pages provider remote chapter) = chapters_remote_pages provider remote chapter
key_of (pages chapter id provider) = chapters_pages chapter id provider
key_of (jobs fields) = jobs_list fields

-- What changes while the application is used and is worth nothing offline: logs, alerts, jobs and the
-- statistics of the cache.
abbrev pub is_live : Resource → Bool
is_live collisions = true
is_live cache = true
is_live (logs id) = true
is_live (children id) = true
is_live (jobs fields) = true
is_live r = false

-- An answered query is kept offline exactly if it is not live, whatever its parameters are; a query
-- that is waiting or has failed is never kept.
pub should_dehydrate_query-is_live :
    (r : Resource) (answer : QueryStatus)
    → should_dehydrate_query (record { status = answer; query_key = key_of r })
      ≡ (if is_success answer then not (is_live r) else false)
unfolding should_dehydrate_query
should_dehydrate_query-is_live r waiting = refl
should_dehydrate_query-is_live r error = refl
should_dehydrate_query-is_live r success = answered r
  where
    answered :
        (r : Resource)
        → should_dehydrate_query (record { status = success; query_key = key_of r })
          ≡ not (is_live r)
    answered (jobs []) = refl
    answered (jobs (field ∷ fields)) = refl
    answered other = refl
