-- ===== src/DetailsManga/Tests.antt =====
-- The page of a manga at concrete addresses and answers.
use kiyomi.Base.{
  true, false, String, String_eq, none, some, List, [], ◌∷◌, any_of, ◌≡◌, ◌⊎◌, ◌↔◌, refl,
}
use kiyomi.Base.Int.{pos}
use kiyomi.Base.Sets.{has}
use kiyomi.Base.Text.{starts_with}
use kiyomi.Api.{Source, Chapter, Job, JobStatus, running, completed}
use kiyomi.Samples.{chapter, manga}
use kiyomi.Hooks.Queries.{is_partly_downloaded, chapters_refetch_interval}
use kiyomi.ChapterOperations.{Pending, pulling_chapter_ids}
use kiyomi.DetailsManga.{
  Route, Answer, Answers, is_remote_route, local_chapters_query, remote_chapters_query,
  chapters_answer, active_job_chapter_ids, has_active_pull_jobs, page_has_active_pull_jobs,
  content_provider_name, active_provider, active_content_provider_id,
}
use kiyomi.DetailsManga.Chapters.{chapters_answer-enabled}
use kiyomi.DetailsManga.Pulls.{is_pulling, chapters_refetch_interval-pulling}

abbrev library_route : Route
library_route = record {
  pathname = "/manga/m1";
  manga_id = some "m1";
  provider_id = none;
  remote_id = none;
}

abbrev provider_route : Route
provider_route = record {
  pathname = "/providers/p/r";
  manga_id = none;
  provider_id = some "p";
  remote_id = some "r";
}

abbrev waiting : {A : Type 0} → Answer A
waiting = record { data_ = none; is_loading = true; is_error = false }

abbrev answered : {A : Type 0} → A → Answer A
answered a = record { data_ = some a; is_loading = false; is_error = false }

abbrev source : Source
source = record {
  id = "p";
  name = "Provider";
  base_url = none;
  lang = some "en";
  language = none;
  icon = none;
  supports_latest = none;
  capabilities = none;
}

abbrev answers : Answers
answers = record {
  library_manga = answered (manga "m1" "reading" (pos 0) ∷ []);
  remote_details = waiting;
  jobs = waiting;
  local_details = waiting;
  remote_manga = waiting;
  sources = answered (source ∷ []);
  local_chapters = answered [];
  remote_chapters = waiting;
}

names_provider : content_provider_name (λ s. s) provider_route answers ≡ some "Provider (en)"
unfolding content_provider_name active_provider active_content_provider_id is_remote_route
    starts_with
names_provider = refl

chapters_answer-enabled_example :
    ((local_chapters_query library_route answers).enabled ≡ true
      → ((remote_chapters_query library_route answers).enabled ≡ false)
        × (chapters_answer library_route answers ≡ answers.local_chapters))
    × ((remote_chapters_query library_route answers).enabled ≡ true
        → ((local_chapters_query library_route answers).enabled ≡ false)
          × (chapters_answer library_route answers ≡ answers.remote_chapters))
chapters_answer-enabled_example = chapters_answer-enabled library_route answers

abbrev job : String → JobStatus → Job
job chapter_id new_status = record {
  id = "j";
  parent_id = none;
  kind = "pull_chapter";
  payload = none;
  status = new_status;
  retries = 0;
  max_retries = 3;
  concurrency_group = none;
  error = none;
  created_at = "";
  updated_at = "";
  started_at = none;
  completed_at = none;
  metadata = some (("chapter_id", chapter_id) ∷ []);
  child_count = none;
}

abbrev jobs : List Job
jobs = job "c1" completed ∷ job "c2" running ∷ []

abbrev chapters : List Chapter
chapters = chapter "c1" (pos 1000) false 0 ∷ chapter "c2" (pos 2000) false 0 ∷ []

abbrev quiet : Pending
quiet = record {
  pull = none;
  batch_pull = none;
  delete_files = none;
  batch_delete_files = none;
  remove = none;
  batch_remove = none;
}

chapters_refetch_interval-pulling_example :
    (has (pulling_chapter_ids (active_job_chapter_ids []) chapters quiet ("c2" ∷ [])) "c2" ≡ true)
    × ((chapters_refetch_interval (some (page_has_active_pull_jobs [])) (some chapters) ≡ some 3000)
        ↔ ((any_of is_pulling [] ≡ true) ⊎ (any_of is_partly_downloaded chapters ≡ true)))
unfolding has
chapters_refetch_interval-pulling_example =
    chapters_refetch_interval-pulling [] chapters quiet ("c2" ∷ []) "c2" (some chapters) refl refl

-- With an optimistic pull and no job yet, the list is not fetched again.
optimistic-not_refetched :
    chapters_refetch_interval (some (page_has_active_pull_jobs [])) (some chapters) ≡ none
unfolding chapters_refetch_interval page_has_active_pull_jobs has_active_pull_jobs
    active_job_chapter_ids
optimistic-not_refetched = refl
