-- ===== src/ChapterOperations.antt =====
-- web/src/components/details/hooks/useChapterOperations.ts: what the buttons of a manga's page do with
-- its chapters and its providers, and which chapters are shown as being pulled. The state is the set
-- of the optimistic pulls.
pub mod Mutations
pub mod Batches
pub mod Pulling
pub mod Failing
mod Tests
use kiyomi.Base.{
  ℕ, Bool, true, false, not, ◌&&◌, ◌||◌, String, Option, none, some, List, [], ◌∷◌, ◌++◌, find,
  truthy, and_then, is_blank, ◌<|>◌, ◌otherwise◌, ◌==◌, String_eq, if◌then◌else◌,
}
use kiyomi.Base.Sets.{add, delete, add_all, of_list}
use kiyomi.Api.{Chapter, Job, JobStatus, pending, running, completed, failed}

-- `Boolean(ch?.is_downloaded ?? ch?.isDownloaded ?? ch?.meta?.is_downloaded)`
abbrev pub is_downloaded : Option Chapter → Bool
is_downloaded ch = truthy (
    and_then ch (λ c. c.is_downloaded)
    <|> and_then ch (λ c. c.is_downloaded_camel)
    <|> and_then ch (λ c. and_then c.meta (λ m. m.is_downloaded)))

abbrev pub chapter_of : String → List Chapter → Option Chapter
chapter_of id chapters = find (λ c. c.id == id) chapters

-- `metadata?.chapter_id`
abbrev pub lookup : String → List (String × String) → Option String
lookup k [] = none
lookup k (e ∷ fields) = if e.0 == k then some e.1 else lookup k fields

abbrev pub is_text : String → Option String → Bool
is_text s none = false
is_text s (some t) = t == s

abbrev pub is_pull_of : String → Job → Bool
is_pull_of id j = j.kind == "pull_chapter" && is_text id (and_then j.metadata (lookup "chapter_id"))

abbrev pub is_finished_status : JobStatus → Bool
is_finished_status pending = false
is_finished_status running = false
is_finished_status completed = true
is_finished_status failed = true

abbrev pub is_finished_job : Option Job → Bool
is_finished_job none = false
is_finished_job (some j) = is_finished_status j.status

-- `isDownloaded || isJobFinished`, of an optimistic pull.
unfoldable pub is_finished : List Chapter → List Job → String → Bool
is_finished chapters jobs id =
    is_downloaded (chapter_of id chapters) || is_finished_job (find (is_pull_of id) jobs)

-- The loop of the cleanup: over `prev`, with `next` and `changed`.
unfoldable pub cleanup_from :
    List Chapter → List Job → List String → List String × Bool → List String × Bool
unfolding is_finished delete
cleanup_from chapters jobs [] (next, changed) = (next, changed)
cleanup_from chapters jobs (id ∷ prev) (next, changed) =
    cleanup_from chapters jobs prev
      (if is_finished chapters jobs id then (delete id next, true) else (next, changed))

abbrev pub if_changed : List String → List String × Bool → List String
if_changed prev (next, true) = next
if_changed prev (next, false) = prev

unfoldable pub cleanup : List Chapter → List Job → List String → List String
unfolding cleanup_from
cleanup chapters jobs [] = []
cleanup chapters jobs (id ∷ prev) =
    if_changed (id ∷ prev) (cleanup_from chapters jobs (id ∷ prev) (id ∷ prev, false))

-- `handlePullChapter`, as far as the state goes.
unfoldable pub pull_one : String → List String → List String
unfolding add
pull_one chapter_id prev = add chapter_id prev

-- `handleBatchPull`, as far as the state goes: nothing without a manga or a provider.
unfoldable pub pull_batch : String → Option String → List String → List String → List String
unfolding add_all
pull_batch target active chapter_ids prev =
    if is_blank target || is_blank (active otherwise "") then prev else add_all chapter_ids prev

-- What can happen to the set.
pub data Event : Type 0 where
  pulls : String → Event
  pulls_batch : String → Option String → List String → Event
  cleans : List Chapter → List Job → Event

unfoldable pub step : List String → Event → List String
unfolding pull_one pull_batch cleanup
step prev (pulls id) = pull_one id prev
step prev (pulls_batch target active chapter_ids) = pull_batch target active chapter_ids prev
step prev (cleans chapters jobs) = cleanup chapters jobs prev

-- The variables of the mutations that are pending.
pub record Pending : Type 0 where
  pub pull : Option String
  pub batch_pull : Option (List String)
  pub delete_files : Option String
  pub batch_delete_files : Option (List String)
  pub remove : Option String
  pub batch_remove : Option (List String)

-- The id of a single mutation, unless it is blank.
abbrev pub single_id : Option String → List String
single_id id = if is_blank (id otherwise "") then [] else (id otherwise "") ∷ []

unfoldable pub add_undownloaded : List Chapter → List String → List String → List String
unfolding add
add_undownloaded chapters [] set = set
add_undownloaded chapters (id ∷ ids) set =
    add_undownloaded chapters ids
      (if not (is_downloaded (chapter_of id chapters)) then add id set else set)

unfoldable pub pulling_chapter_ids :
    List String → List Chapter → Pending → List String → List String
pulling_chapter_ids active_job_chapter_ids chapters p optimistic =
    add_all (p.batch_pull otherwise []) (
      add_all (single_id p.pull)
        (add_undownloaded chapters optimistic (of_list active_job_chapter_ids)))

unfoldable pub deleting_files_chapter_ids : Pending → List String
deleting_files_chapter_ids p = single_id p.delete_files ++ (p.batch_delete_files otherwise [])

unfoldable pub removing_chapter_ids : Pending → List String
removing_chapter_ids p = single_id p.remove ++ (p.batch_remove otherwise [])
