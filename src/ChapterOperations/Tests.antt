-- ===== src/ChapterOperations/Tests.antt =====
-- The operations on chapters at concrete chapters, jobs and failures.
use kiyomi.Base.{true, false, String, none, some, List, [], ◌∷◌, ◌≡◌, refl, All, String_eq}
use kiyomi.Base.Int.{pos}
use kiyomi.Api.{Chapter, Job, failed}
use kiyomi.Api.Values.{undefined, nil}
use kiyomi.Samples.{chapter, manga}
use kiyomi.Toasts.{Failure}
use kiyomi.ChapterOperations.{is_downloaded, cleanup, Event, pulls, cleans, Pending}
use kiyomi.ChapterOperations.Batches.{handle_user_metadata_change}
use kiyomi.ChapterOperations.Failing.{
  Variables, single_operations, batch_operations, Reports, BatchReports, ChangeReports, AddReports,
  run-Reports,
}

abbrev chapters : List Chapter
chapters =
    chapter "c1" (pos 1000) false 0
    ∷ record (chapter "c2" (pos 2000) false 0) { is_downloaded = some true }
    ∷ []

abbrev job : Job
job = record {
  id = "j1";
  parent_id = none;
  kind = "pull_chapter";
  payload = none;
  status = failed;
  retries = 0;
  max_retries = 3;
  concurrency_group = none;
  error = none;
  created_at = "";
  updated_at = "";
  started_at = none;
  completed_at = none;
  metadata = some (("chapter_id", "c3") ∷ []);
  child_count = none;
}

cleans_up : cleanup chapters (job ∷ []) ("c1" ∷ "c2" ∷ "c3" ∷ []) ≡ "c1" ∷ []
unfolding cleanup
cleans_up = refl

abbrev pending : Pending
pending = record {
  pull = some "c4";
  batch_pull = none;
  delete_files = none;
  batch_delete_files = none;
  remove = none;
  batch_remove = none;
}

abbrev active : List String
active = "c5" ∷ []

abbrev optimistic : List String
optimistic = "c1" ∷ "c2" ∷ []

abbrev second : String
second = "c2"

abbrev events : List Event
events = pulls "c2" ∷ cleans chapters [] ∷ []

abbrev first : String
first = "c1"

abbrev failure : Failure
failure = record {
  message = some "offline";
  details = undefined;
  stack = none;
  printed = "Error: offline";
}

abbrev variables : Variables
variables = record {
  chapter_id = "c1";
  chapter_ids = "c1" ∷ [];
  provider = record { provider_id = "p"; provider_manga_id = "r"; manga_title = none };
  is_read = some true;
  last_read_page = none;
  fields = nil;
  added = 0;
  count = none;
  manga = some (manga "One Piece" "ongoing" (pos 5));
  provider_param = "";
  remote_param = "";
}

run-Reports_example :
    All (Reports "m1" none failure) (single_operations "m1" variables)
    × All (BatchReports "m1" (some "p") none failure) (batch_operations "m1" (some "p") variables)
    × ChangeReports "m1" none failure (handle_user_metadata_change "m1" nil)
    × AddReports none failure variables
run-Reports_example = run-Reports "m1" (some "p") none failure variables
