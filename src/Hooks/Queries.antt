-- ===== src/Hooks/Queries.antt =====
-- The queries of web/src/api/hooks.ts and web/src/lib/queryOptions.ts.
use kiyomi.Base.{
  ℕ, Bool, true, false, not, ◌&&◌, String, Option, none, some, List, [], any_of, ltb, truthy,
  and_then, map, if◌then◌else◌, ◌<|>◌, ◌otherwise◌,
}
use kiyomi.Base.Text.{trim}
use kiyomi.Api.{Chapter, Job, JobStatus, pending, running, completed, failed}
use kiyomi.QueryKeys.{
  sources_all, library_mangas, manga_details, manga_provider_details, manga_metadata,
  manga_user_state, manga_bindings, explore_catalog, plugins_all, plugins_logs, collisions_all,
  info_all, system_cache, chapters_list, chapters_provider_list, chapters_remote_list,
  chapters_remote_pages, chapters_pages, jobs_list,
}
use kiyomi.Client.Providers.{
  get_info, get_sources, CatalogMode, popular, catalog_mode_text, get_explore, search_manga,
  get_provider_manga_details, get_provider_manga_chapters, get_provider_chapter_pages,
}
use kiyomi.Client.Library.{
  get_library_mangas, get_manga_details, get_library_metadata, get_library_user_state,
  get_library_bindings,
}
use kiyomi.Client.Chapters.{list_chapters, get_manga_chapters, get_chapter_pages}
use kiyomi.Client.System.{get_plugins, get_plugin_logs, get_collisions, get_cache_stats, get_jobs}
use kiyomi.Api.Values.{Value, fields_of, to_text}
use kiyomi.Hooks.{QueryOptions, is_given, with_enabled}

abbrev pub sources_query_options : QueryOptions
sources_query_options = record { query_key = sources_all; request = get_sources; enabled = true }

abbrev pub library_mangas_query_options : QueryOptions
library_mangas_query_options = record {
  query_key = library_mangas;
  request = get_library_mangas;
  enabled = true;
}

unfoldable pub manga_details_query_options : String → QueryOptions
manga_details_query_options manga_id = record {
  query_key = manga_details manga_id;
  request = get_manga_details manga_id;
  enabled = is_given manga_id;
}

unfoldable pub provider_manga_details_query_options : String → String → QueryOptions
provider_manga_details_query_options provider_id remote_id = record {
  query_key = manga_provider_details provider_id remote_id;
  request = get_provider_manga_details provider_id remote_id;
  enabled = is_given provider_id && is_given remote_id;
}

unfoldable pub explore_catalog_query_options :
    String → CatalogMode → Option String → ℕ → QueryOptions
explore_catalog_query_options provider_id mode query page =
    let active = trim (query otherwise "") in
    record {
      query_key = explore_catalog provider_id (catalog_mode_text mode) active page;
      request =
          if is_given active
          then search_manga provider_id active page
          else get_explore provider_id mode page;
      enabled = is_given provider_id;
    }

abbrev pub plugins_query_options : QueryOptions
plugins_query_options = record { query_key = plugins_all; request = get_plugins; enabled = true }

unfoldable pub plugin_logs_query_options : String → QueryOptions
plugin_logs_query_options plugin_id = record {
  query_key = plugins_logs plugin_id;
  request = get_plugin_logs plugin_id;
  enabled = is_given plugin_id;
}

abbrev pub collisions_query_options : QueryOptions
collisions_query_options = record {
  query_key = collisions_all;
  request = get_collisions;
  enabled = true;
}

abbrev pub info_query_options : QueryOptions
info_query_options = record { query_key = info_all; request = get_info; enabled = true }

abbrev pub cache_stats_query_options : QueryOptions
cache_stats_query_options = record {
  query_key = system_cache;
  request = get_cache_stats;
  enabled = true;
}

-- `jobsQueryOptions(filter)`; the key writes the values of the filter as texts.
unfoldable pub jobs_query_options : Option (List (String × Value)) → QueryOptions
unfolding get_jobs
jobs_query_options filter = record {
  query_key = jobs_list (map (λ f. (f.0, to_text f.1)) (filter otherwise []));
  request = get_jobs (and_then filter (λ fields. some (fields_of fields)));
  enabled = true;
}

-- `job.status === 'running' || job.status === 'pending'`
abbrev pub is_active_status : JobStatus → Bool
is_active_status pending = true
is_active_status running = true
is_active_status completed = false
is_active_status failed = false

-- `refetchInterval`: milliseconds, or `none` for `false`.
unfoldable pub jobs_refetch_interval : Option (List Job) → Option ℕ
jobs_refetch_interval jobs =
    if any_of (λ j. is_active_status j.status) (jobs otherwise []) then some 3000 else none

unfoldable pub use_manga_details : String → Option Bool → QueryOptions
unfolding manga_details_query_options
use_manga_details id enabled = with_enabled enabled (manga_details_query_options id)

unfoldable pub use_metadata : String → Option Bool → QueryOptions
use_metadata id enabled = record {
  query_key = manga_metadata id;
  request = get_library_metadata id;
  enabled = enabled otherwise is_given id;
}

unfoldable pub use_user_state : String → Option Bool → QueryOptions
use_user_state id enabled = record {
  query_key = manga_user_state id;
  request = get_library_user_state id;
  enabled = enabled otherwise is_given id;
}

unfoldable pub use_bindings : String → Option Bool → QueryOptions
use_bindings id enabled = record {
  query_key = manga_bindings id;
  request = get_library_bindings id;
  enabled = enabled otherwise is_given id;
}

unfoldable pub use_provider_manga_details : String → String → Option Bool → QueryOptions
unfolding provider_manga_details_query_options
use_provider_manga_details provider_id remote_id enabled =
    with_enabled enabled (provider_manga_details_query_options provider_id remote_id)

-- The mode is `popular` where none is given.
unfoldable pub use_explore_catalog :
    String → Option CatalogMode → String → ℕ → Option Bool → QueryOptions
unfolding explore_catalog_query_options
use_explore_catalog provider_id mode query page enabled =
    with_enabled enabled
      (explore_catalog_query_options provider_id (mode otherwise popular) (some query) page)

unfoldable pub use_chapter_list : String → Option String → Option Bool → QueryOptions
use_chapter_list manga_id provider_id enabled =
    let provider = provider_id otherwise "" in
    record {
      query_key =
          if is_given provider
          then chapters_provider_list manga_id provider
          else chapters_list manga_id;
      request =
          if is_given provider
          then list_chapters manga_id (some provider)
          else get_manga_chapters manga_id;
      enabled = enabled otherwise is_given manga_id;
    }

-- A chapter of which pages are downloaded, but not all.
abbrev pub is_partly_downloaded : Chapter → Bool
is_partly_downloaded c =
    let whole =
      truthy
        (c.is_downloaded <|> c.is_downloaded_camel <|> and_then c.meta (λ m. m.is_downloaded)) in
    let pages =
      c.downloaded_pages <|> c.downloaded_pages_camel <|> and_then c.meta (λ m. m.downloaded_pages)
      otherwise 0 in
    ltb 0 pages && not whole

unfoldable pub chapters_refetch_interval : Option Bool → Option (List Chapter) → Option ℕ
chapters_refetch_interval has_active_pull_jobs chapters =
    if truthy has_active_pull_jobs
    then some 3000
    else if any_of is_partly_downloaded (chapters otherwise [])
    then some 3000
    else none

unfoldable pub use_provider_chapter_list : String → String → Option Bool → QueryOptions
use_provider_chapter_list provider_id remote_id enabled = record {
  query_key = chapters_remote_list provider_id remote_id;
  request = get_provider_manga_chapters provider_id remote_id;
  enabled = enabled otherwise (is_given provider_id && is_given remote_id);
}

unfoldable pub use_provider_chapter_pages : String → String → String → Option Bool → QueryOptions
use_provider_chapter_pages provider_id remote_id chapter_id enabled = record {
  query_key = chapters_remote_pages provider_id remote_id chapter_id;
  request = get_provider_chapter_pages provider_id remote_id chapter_id;
  enabled = enabled otherwise (is_given provider_id && is_given remote_id && is_given chapter_id);
}

-- The two signatures of `useChapterPages`.
pub data PagesArguments : Type 0 where
  standard : String → String → Option Bool → PagesArguments
  legacy : String → Option String → Option Bool → PagesArguments

abbrev pub pages_query : String → String → Option Bool → QueryOptions
pages_query manga_id chapter_id enabled = record {
  query_key = chapters_pages chapter_id (some manga_id) none;
  request = get_chapter_pages manga_id chapter_id;
  enabled = enabled otherwise (is_given chapter_id && is_given manga_id);
}

unfoldable pub use_chapter_pages : PagesArguments → QueryOptions
use_chapter_pages (standard manga_id chapter_id enabled) = pages_query manga_id chapter_id enabled
use_chapter_pages (legacy chapter_id manga_id enabled) =
    pages_query (manga_id otherwise "") chapter_id enabled
