-- ===== src/ChapterOperations/Batches.antt =====
-- The batch handlers of useChapterOperations and the change of the manga's own fields. Each goes through
-- a mutation of web/src/api/hooks.ts, whose keys are invalidated before the callbacks of the handler.
use kiyomi.Base.{
  ℕ, Bool, ◌||◌, String, Option, none, some, List, [], ◌∷◌, ◌++◌, map, length, truthy, is_blank,
  ◌==◌, ℕ_eq, if◌then◌else◌, ◌otherwise◌,
}
use kiyomi.Base.Text.{ℕ_text}
use kiyomi.Api.Numbers.{◌+text◌}
use kiyomi.Api.Values.{Fields}
use kiyomi.QueryKeys.{jobs_all}
use kiyomi.Hooks.{Mutation}
use kiyomi.Hooks.Manga.{use_update_library_manga_mutation}
use kiyomi.Hooks.Chapters.{
  GivenProgress, use_batch_update_chapter_progress_mutation, use_batch_pull_chapters_mutation,
  use_batch_refresh_chapters_mutation, use_batch_delete_chapter_files_mutation,
  use_batch_delete_chapters_mutation,
}
use kiyomi.Toasts.{Failure, error_details}
use kiyomi.ChapterOperations.Mutations.{
  Effect, invalidate, Mutating, sends, error_toast, success_toast,
}

-- `mutation.mutate(variables, { onSuccess, onError })`
abbrev pub mutate : Mutation → List Effect → (Failure → List Effect) → Mutating
mutate mutation on_success on_error = record {
  call = sends mutation.request;
  succeeds = map invalidate mutation.invalidates ++ on_success;
  fails = on_error;
}

-- `if (!targetMangaId || !activeContentProviderId) return`
abbrev pub guarded : String → Option String → Mutating → Option Mutating
guarded target active m = if is_blank target || is_blank (active otherwise "") then none else some m

-- `data?.count ?? chapterIds.length`, and with `||`.
abbrev pub count_of : Option ℕ → List String → ℕ
count_of answered chapter_ids = answered otherwise length chapter_ids

abbrev pub nonzero_or : Option ℕ → List String → ℕ
nonzero_or answered chapter_ids =
    if (answered otherwise 0) == 0 then length chapter_ids else answered otherwise 0

-- The progress has no camel-case fields here.
abbrev pub plain_progress : Option Bool → Option ℕ → GivenProgress
plain_progress is_read last_read_page = record {
  is_read = is_read;
  last_read_page = last_read_page;
  is_read_camel = none;
  last_read_page_camel = none;
}

abbrev pub no_fields : GivenProgress
no_fields = plain_progress none none

unfoldable pub handle_batch_update_progress :
    String → Option String → List String → Option Bool → Option ℕ → Option ℕ → Option Mutating
unfolding error_details use_batch_update_chapter_progress_mutation
handle_batch_update_progress target active chapter_ids is_read last_read_page updated =
    guarded target active (
      mutate
        (use_batch_update_chapter_progress_mutation target chapter_ids active
          (record { given = no_fields; progress = some (plain_progress is_read last_read_page) }))
        (success_toast (
            "Marked "
            +text ℕ_text (count_of updated chapter_ids)
            +text (if truthy is_read then " chapter(s) as read" else " chapter(s) as unread"))
          ∷ [])
        (error_toast "Failed to update chapter progress"))

unfoldable pub handle_batch_pull : String → Option String → List String → Option ℕ → Option Mutating
unfolding error_details use_batch_pull_chapters_mutation
handle_batch_pull target active chapter_ids chapter_count = guarded target active (
    mutate (use_batch_pull_chapters_mutation target chapter_ids active)
      (invalidate jobs_all
        ∷ success_toast (
            "Pull enqueued for "
            +text ℕ_text (count_of chapter_count chapter_ids)
            +text " chapter(s)")
        ∷ [])
      (error_toast "Failed to pull chapters"))

unfoldable pub handle_batch_refresh :
    String → Option String → List String → Option ℕ → Option Mutating
unfolding error_details use_batch_refresh_chapters_mutation
handle_batch_refresh target active chapter_ids refreshed = guarded target active (
    mutate (use_batch_refresh_chapters_mutation target chapter_ids active)
      (success_toast (
          "Refreshed metadata for "
          +text ℕ_text (nonzero_or refreshed chapter_ids)
          +text " chapter(s)")
        ∷ [])
      (error_toast "Failed to refresh chapter metadata"))

unfoldable pub handle_batch_delete_files :
    String → Option String → List String → Option ℕ → Option Mutating
unfolding error_details use_batch_delete_chapter_files_mutation
handle_batch_delete_files target active chapter_ids deleted = guarded target active (
    mutate (use_batch_delete_chapter_files_mutation target chapter_ids active)
      (success_toast
          ("Deleted files for " +text ℕ_text (count_of deleted chapter_ids) +text " chapter(s)")
        ∷ [])
      (error_toast "Failed to delete files"))

unfoldable pub handle_batch_remove :
    String → Option String → List String → Option ℕ → Option Mutating
unfolding error_details use_batch_delete_chapters_mutation
handle_batch_remove target active chapter_ids removed = guarded target active (
    mutate (use_batch_delete_chapters_mutation target chapter_ids active)
      (success_toast
          ("Removed " +text ℕ_text (count_of removed chapter_ids) +text " chapter(s) from library")
        ∷ [])
      (error_toast "Failed to remove chapters"))

unfoldable pub handle_user_metadata_change : String → Fields → Option Mutating
unfolding error_details use_update_library_manga_mutation
handle_user_metadata_change target updated_fields =
    if is_blank target
    then none
    else some (
        mutate (use_update_library_manga_mutation target updated_fields) []
          (error_toast "Failed to update metadata"))
