-- ===== src/JobsManager/Tests.antt =====
-- The job list at concrete jobs.
use kiyomi.Base.{String, none, List, [], ◌∷◌, length, ◌≡◌, refl, String_eq, ◌==◌, if◌then◌else◌}
use kiyomi.Base.Int.{ℤ, pos}
use kiyomi.Api.{Job, JobStatus, running, completed}
use kiyomi.Api.Values.{undefined}
use kiyomi.Samples.{lower}
use kiyomi.Toasts.{Failure}
use kiyomi.JobsManager.{
  initial, set_status_filter, set_type_filter, status_text, filtered_jobs, stats, count_jobs,
}
use kiyomi.JobsManager.Listing.{count_of, stats-filtered_jobs}

abbrev job : String → JobStatus → Job
job date new_status = record {
  id = date;
  parent_id = none;
  kind = "pull_chapter";
  payload = none;
  status = new_status;
  retries = 0;
  max_retries = 3;
  concurrency_group = none;
  error = none;
  created_at = date;
  updated_at = "";
  started_at = none;
  completed_at = none;
  metadata = none;
  child_count = none;
}

abbrev jobs : List Job
jobs = job "2024-01-01" completed ∷ job "2024-01-02" running ∷ job "2024-01-01" running ∷ []

abbrev time : String → ℤ
time s = if s == "2024-01-01" then pos 1 else pos 2

counts_running : (stats jobs).active ≡ 2
unfolding stats count_jobs
counts_running = refl

stats-filtered_jobs_example :
    count_of running (stats jobs)
    ≡ length (
        filtered_jobs lower time
          (set_status_filter (status_text running) (set_type_filter "" initial))
          jobs)
stats-filtered_jobs_example = stats-filtered_jobs lower time initial jobs running

abbrev failure : Failure
failure = record { message = none; details = undefined; stack = none; printed = "Error" }
