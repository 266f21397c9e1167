-- ===== src/Hooks/Chapters.antt =====
-- The mutations of web/src/api/hooks.ts that change chapters of the library.
use kiyomi.Base.{ℕ, Bool, String, Option, none, some, List, [], ◌∷◌, ◌++◌, ◌<|>◌, and_then}
use kiyomi.QueryKeys.{
  library_all, library_mangas, manga_details, chapters_all, chapters_list, chapters_pages,
  system_all, jobs_all,
}
use kiyomi.Client.Chapters.{
  delete_chapter_pages_cache, delete_chapter_files, pull_chapter, Progress, update_chapter_progress,
  ids, progress_given, batch_update_chapter_progress, batch_pull_chapters, batch_refresh_chapters,
  batch_delete_chapter_files, batch_delete_chapters,
}
use kiyomi.Hooks.{Mutation}
use kiyomi.Hooks.Manga.{provider_list_key}

unfoldable pub use_delete_chapter_pages_cache_mutation : String → Mutation
use_delete_chapter_pages_cache_mutation chapter_id = record {
  request = delete_chapter_pages_cache chapter_id;
  invalidates = chapters_pages chapter_id none none ∷ [];
}

unfoldable pub use_delete_chapter_files_mutation : String → String → Option String → Mutation
use_delete_chapter_files_mutation manga_id chapter_id provider_id = record {
  request = delete_chapter_files manga_id chapter_id none;
  invalidates =
      chapters_pages chapter_id (some manga_id) none
      ∷ chapters_list manga_id
      ∷ (provider_list_key manga_id provider_id ++ manga_details manga_id ∷ system_all ∷ []);
}

unfoldable pub use_pull_chapter_mutation : String → String → Option String → Mutation
use_pull_chapter_mutation manga_id chapter_id provider_id = record {
  request = pull_chapter manga_id chapter_id none;
  invalidates =
      chapters_pages chapter_id (some manga_id) provider_id
      ∷ chapters_list manga_id
      ∷ (provider_list_key manga_id provider_id ++ manga_details manga_id ∷ jobs_all ∷ []);
}

-- `progress` in its two spellings.
pub record GivenProgress : Type 0 where
  pub is_read : Option Bool
  pub last_read_page : Option ℕ
  pub is_read_camel : Option Bool
  pub last_read_page_camel : Option ℕ

-- The variables of a progress mutation besides the ids.
pub record ProgressVariables : Type 0 where
  pub given : GivenProgress
  pub progress : Option GivenProgress

-- The first value that is given: the camel-case variable, its twin, then those of `progress`.
unfoldable pub read_progress : ProgressVariables → Progress
read_progress v = record {
  is_read =
      v.given.is_read_camel
      <|> v.given.is_read
      <|> and_then v.progress (λ p. p.is_read)
      <|> and_then v.progress (λ p. p.is_read_camel);
  last_read_page =
      v.given.last_read_page_camel
      <|> v.given.last_read_page
      <|> and_then v.progress (λ p. p.last_read_page)
      <|> and_then v.progress (λ p. p.last_read_page_camel);
}

unfoldable pub use_update_chapter_progress_mutation :
    String → String → Option String → ProgressVariables → Mutation
unfolding read_progress
use_update_chapter_progress_mutation manga_id chapter_id provider_id variables = record {
  request = update_chapter_progress manga_id chapter_id (read_progress variables);
  invalidates =
      chapters_list manga_id
      ∷ (provider_list_key manga_id provider_id ++ manga_details manga_id ∷ library_mangas ∷ []);
}

unfoldable pub use_batch_update_chapter_progress_mutation :
    String → List String → Option String → ProgressVariables → Mutation
unfolding read_progress
use_batch_update_chapter_progress_mutation manga_id chapter_ids provider_id variables = record {
  request =
      batch_update_chapter_progress manga_id (ids chapter_ids)
        (progress_given (read_progress variables)) none;
  invalidates =
      chapters_list manga_id
      ∷ (provider_list_key manga_id provider_id
          ++ manga_details manga_id ∷ library_all ∷ library_mangas ∷ jobs_all ∷ []);
}

unfoldable pub use_batch_pull_chapters_mutation : String → List String → Option String → Mutation
use_batch_pull_chapters_mutation manga_id chapter_ids provider_id = record {
  request = batch_pull_chapters manga_id (ids chapter_ids) none;
  invalidates =
      chapters_list manga_id
      ∷ (provider_list_key manga_id provider_id
          ++ manga_details manga_id ∷ library_all ∷ jobs_all ∷ []);
}

unfoldable pub use_batch_refresh_chapters_mutation : String → List String → Option String → Mutation
use_batch_refresh_chapters_mutation manga_id chapter_ids provider_id = record {
  request = batch_refresh_chapters manga_id (ids chapter_ids) none;
  invalidates =
      chapters_list manga_id
      ∷ (provider_list_key manga_id provider_id ++ manga_details manga_id ∷ []);
}

unfoldable pub use_batch_delete_chapter_files_mutation :
    String → List String → Option String → Mutation
use_batch_delete_chapter_files_mutation manga_id chapter_ids provider_id = record {
  request = batch_delete_chapter_files manga_id (ids chapter_ids) none;
  invalidates =
      chapters_all
      ∷ chapters_list manga_id
      ∷ (provider_list_key manga_id provider_id
          ++ manga_details manga_id ∷ library_all ∷ system_all ∷ jobs_all ∷ []);
}

unfoldable pub use_batch_delete_chapters_mutation : String → List String → Option String → Mutation
use_batch_delete_chapters_mutation manga_id chapter_ids provider_id = record {
  request = batch_delete_chapters manga_id (ids chapter_ids) none;
  invalidates =
      chapters_list manga_id
      ∷ (provider_list_key manga_id provider_id
          ++ manga_details manga_id ∷ library_all ∷ library_mangas ∷ jobs_all ∷ []);
}
