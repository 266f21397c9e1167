-- ===== src/ChapterOperations/Mutations.antt =====
-- The mutations of useChapterOperations on one chapter, on the manga and on its providers.
use kiyomi.Base.{
  ℕ, String, Option, none, some, List, [], ◌∷◌, ◌++◌, map, is_blank, or_text, ◌==◌, ℕ_eq,
  if◌then◌else◌, ◌otherwise◌,
}
use kiyomi.Base.Text.{ℕ_text}
use kiyomi.Api.{Manga, ProviderRef}
use kiyomi.Api.Numbers.{◌+text◌}
use kiyomi.Api.Values.{undefined}
use kiyomi.QueryKeys.{
  QueryKey, library_all, library_refresh, manga_all, manga_details, manga_bindings, chapters_all,
  chapters_list, chapters_pages, jobs_all,
}
use kiyomi.Client.{Request}
use kiyomi.Client.Library.{import_provider_manga, remove_binding, set_active_content_source}
use kiyomi.Client.Chapters.{
  refresh_library_manga, delete_chapter, delete_chapter_files, pull_chapter,
}
use kiyomi.Hooks.Manga.{provider_list_key}
use kiyomi.Toasts.{ToastType, success, error, Details, Failure, error_details, error_text}

-- What the callbacks of a mutation do.
pub data Effect : Type 0 where
  invalidate : QueryKey → Effect
  toast : String → ToastType → Option Details → Effect

-- What `mutationFn` does.
pub data Call : Type 0 where
  sends : Request → Call
  throws : String → Call
  answers_null : Call

pub record Mutating : Type 0 where
  pub call : Call
  pub succeeds : List Effect
  pub fails : Failure → List Effect

-- `showToast(`${what}: ${err.message || 'An error occurred'}`, 'error', detail)`
abbrev pub error_toast : String → Failure → List Effect
error_toast what err =
    toast (what +text ": " +text error_text err) error (some (error_details err)) ∷ []

abbrev pub success_toast : String → Effect
success_toast message = toast message success none

-- `if (!targetMangaId) throw new Error('No manga ID')`
abbrev pub with_manga : String → Request → Call
with_manga target request = if is_blank target then throws "No manga ID" else sends request

-- `addToLibraryMutation.mutationFn`
abbrev pub import_call : String → String → Option Manga → Call
import_call provider_param remote_param none = answers_null
import_call provider_param remote_param (some manga) = sends (
    import_provider_manga
      (or_text provider_param (or_text (manga.source_id otherwise "") "mangafox"))
      (or_text remote_param (or_text (manga.content_remote_id otherwise "") manga.id))
      "plan_to_read")

unfoldable pub add_to_library_mutation : String → String → Option Manga → Mutating
unfolding error_details
add_to_library_mutation provider_param remote_param manga = record {
  call = import_call provider_param remote_param manga;
  succeeds =
      invalidate library_all
      ∷ invalidate manga_all
      ∷ invalidate chapters_all
      ∷ success_toast "Series added to library"
      ∷ [];
  fails = error_toast "Failed to add to library";
}

-- The answer says how many chapters were added.
unfoldable pub refresh_chapters_mutation : String → ℕ → Mutating
unfolding error_details
refresh_chapters_mutation target added = record {
  call = with_manga target (refresh_library_manga target);
  succeeds =
      invalidate (chapters_list target)
      ∷ invalidate (manga_details target)
      ∷ invalidate (library_refresh target)
      ∷ (if added == 0
          then success_toast "Up to date"
          else success_toast ("Refresh complete: " +text ℕ_text added +text " chapter(s)"))
      ∷ [];
  fails = error_toast "Refresh failed";
}

abbrev pub provider_key : String → String → List Effect
provider_key target provider_id = map invalidate (provider_list_key target (some provider_id))

unfoldable pub remove_chapter_mutation : String → String → String → Mutating
unfolding error_details
remove_chapter_mutation target chapter_id provider_id = record {
  call = with_manga target (delete_chapter target chapter_id);
  succeeds =
      invalidate (chapters_list target)
      ∷ (provider_key target provider_id ++ success_toast "Chapter removed from library" ∷ []);
  fails = error_toast "Remove failed";
}

unfoldable pub delete_chapter_files_mutation : String → String → String → Mutating
unfolding error_details
delete_chapter_files_mutation target chapter_id provider_id = record {
  call = with_manga target (delete_chapter_files target provider_id (some chapter_id));
  succeeds =
      invalidate (chapters_list target)
      ∷ (provider_key target provider_id
          ++ success_toast "Files deleted (chapter entry preserved)" ∷ []);
  fails = error_toast "Delete files failed";
}

unfoldable pub pull_chapter_mutation : String → String → String → Mutating
unfolding error_details
pull_chapter_mutation target chapter_id provider_id = record {
  call = with_manga target (pull_chapter target provider_id (some chapter_id));
  succeeds =
      invalidate (chapters_pages chapter_id (some target) (some provider_id))
      ∷ invalidate (chapters_list target)
      ∷ (provider_key target provider_id
          ++ invalidate jobs_all ∷ success_toast "Chapter pulled from provider" ∷ []);
  fails = error_toast "Pull failed";
}

unfoldable pub remove_provider_mutation : String → ProviderRef → Mutating
unfolding error_details
remove_provider_mutation target provider = record {
  call = with_manga target (remove_binding target provider.provider_id provider.provider_manga_id);
  succeeds =
      invalidate (manga_bindings target)
      ∷ invalidate (manga_details target)
      ∷ invalidate library_all
      ∷ success_toast "Provider removed"
      ∷ [];
  fails = error_toast "Remove failed";
}

unfoldable pub switch_to_mutation : String → ProviderRef → Mutating
unfolding error_details
switch_to_mutation target provider = record {
  call =
      with_manga target
        (set_active_content_source target provider.provider_id provider.provider_manga_id none);
  succeeds =
      invalidate (manga_bindings target)
      ∷ invalidate (manga_details target)
      ∷ invalidate library_all
      ∷ invalidate chapters_all
      ∷ invalidate (chapters_list target)
      ∷ (provider_key target provider.provider_id
          ++ success_toast "Switched content provider" ∷ []);
  fails = error_toast "Switch failed";
}

-- The error that `new Error(message)` makes, with the stack of the platform.
abbrev pub thrown : Option String → String → Failure
thrown stack message = record {
  message = some message;
  details = undefined;
  stack = stack;
  printed = "Error: " +text message;
}

-- How the request ends: `none` is an answer.
abbrev pub settle : Mutating → Option Failure → List Effect
settle m none = m.succeeds
settle m (some err) = m.fails err

-- What a mutation does: an error that is thrown before the request goes to `onError` like any other.
unfoldable pub run : Option String → Mutating → Option Failure → List Effect
run stack m outcome = elim m.call [
  | sends request ↦ settle m outcome
  | throws message ↦ m.fails (thrown stack message)
  | answers_null ↦ m.succeeds
]
