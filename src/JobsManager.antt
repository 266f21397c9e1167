-- ===== src/JobsManager.antt =====
-- web/src/components/settings/hooks/useJobsManager.ts: the background jobs that the settings list, their
-- counts, and what the buttons do. `to_lower_case` is the platform's case mapping, and `time_of` is
-- `new Date(s).getTime()`, a number for the dates that the server writes.
pub mod Listing
pub mod Reporting
mod Tests
use kiyomi.Base.{
  ℕ, suc, Bool, true, ◌&&◌, ◌||◌, String, Option, none, some, List, [], ◌∷◌, filter_by, is_blank,
  or_text, ◌<|>◌, ◌otherwise◌, ◌==◌, ℕ_eq, String_eq, if◌then◌else◌,
}
use kiyomi.Base.Int.{ℤ, ◌-ℤ◌}
use kiyomi.Base.Sort.{sort}
use kiyomi.Base.Text.{trim, includes, ℕ_text}
use kiyomi.Api.{Job, JobStatus, pending, running, completed, failed}
use kiyomi.Api.Numbers.{◌+text◌}
use kiyomi.Api.Values.{Value, array, object, flag, is_truthy, to_text}
use kiyomi.QueryKeys.{jobs_all}
use kiyomi.Client.{Request}
use kiyomi.Client.System.{cancel_job, delete_job, cleanup_jobs}
use kiyomi.Hooks.{QueryOptions}
use kiyomi.Hooks.Queries.{jobs_query_options}
use kiyomi.Toasts.{error, success, Details, plain, json, Failure}
use kiyomi.ChapterOperations.Mutations.{Effect, invalidate, toast, Mutating, sends, success_toast}

pub data ViewMode : Type 0 where
  hierarchical flat : ViewMode

-- The state of the hook.
pub record View : Type 0 where
  pub view_mode : ViewMode
  pub status_filter : String
  pub type_filter : String

abbrev pub initial : View
initial = record { view_mode = hierarchical; status_filter = "all"; type_filter = "" }

unfoldable pub set_view_mode : ViewMode → View → View
set_view_mode mode s = record s { view_mode = mode }

unfoldable pub set_status_filter : String → View → View
set_status_filter status s = record s { status_filter = status }

unfoldable pub set_type_filter : String → View → View
set_type_filter kind s = record s { type_filter = kind }

unfoldable pub job_filter : ViewMode → Option (List (String × Value))
job_filter flat = some (("all", flag true) ∷ [])
job_filter hierarchical = none

unfoldable pub jobs_query : Option Bool → View → QueryOptions
jobs_query enabled s = record (jobs_query_options (job_filter s.view_mode)) {
  enabled = enabled otherwise true;
}

abbrev pub status_text : JobStatus → String
status_text pending = "pending"
status_text running = "running"
status_text completed = "completed"
status_text failed = "failed"

abbrev pub matches_status : String → Job → Bool
matches_status filter job = filter == "all" || status_text job.status == filter

module _ (to_lower_case : String → String) (time_of : String → ℤ) where
  abbrev pub matches_type : String → Job → Bool
  matches_type filter job =
      is_blank (trim filter) || includes (to_lower_case job.kind) (trim (to_lower_case filter))

  abbrev pub newest_first : Job → Job → ℤ
  newest_first a b = time_of b.created_at -ℤ time_of a.created_at

  unfoldable pub filtered_jobs : View → List Job → List Job
  filtered_jobs s jobs =
      sort newest_first
        (filter_by (λ j. matches_status s.status_filter j && matches_type s.type_filter j) jobs)

-- `JobsStats`, without the second name of each count.
pub record JobsStats : Type 0 where
  pub active : ℕ
  pub waiting : ℕ
  pub done : ℕ
  pub broken : ℕ

abbrev pub count_job : JobStatus → JobsStats → JobsStats
count_job running s = record s { active = suc s.active }
count_job pending s = record s { waiting = suc s.waiting }
count_job completed s = record s { done = suc s.done }
count_job failed s = record s { broken = suc s.broken }

abbrev pub no_jobs : JobsStats
no_jobs = record { active = 0; waiting = 0; done = 0; broken = 0 }

unfoldable pub count_jobs : List Job → JobsStats → JobsStats
count_jobs [] s = s
count_jobs (j ∷ jobs) s = count_jobs jobs (count_job j.status s)

unfoldable pub stats : List Job → JobsStats
stats jobs = count_jobs jobs no_jobs

-- `typeof err.details === 'object' ? JSON.stringify(err.details, null, 2) : String(err.details)`
abbrev pub shown_details : Value → Details
shown_details (array items) = json (array items)
shown_details (object fields) = json (object fields)
shown_details v = plain (to_text v)

abbrev pub failure_details : Failure → Details
failure_details err =
    if is_truthy err.details then shown_details err.details else plain (err.stack otherwise "")

-- `onError` of the three mutations.
abbrev pub report : String → Failure → List Effect
report what err =
    toast (or_text (err.message otherwise "") what) error (some (failure_details err)) ∷ []

abbrev pub succeeding : String → List Effect
succeeding message = success_toast message ∷ invalidate jobs_all ∷ []

unfoldable pub cancel_job_mutation : String → Mutating
cancel_job_mutation id = record {
  call = sends (cancel_job id);
  succeeds = succeeding "Job cancelled successfully";
  fails = report "Failed to cancel job";
}

unfoldable pub delete_job_mutation : String → Mutating
delete_job_mutation id = record {
  call = sends (delete_job id);
  succeeds = succeeding "Job removed successfully";
  fails = report "Failed to remove job";
}

abbrev pub removed_message : ℕ → String
removed_message deleted =
    "Removed " +text ℕ_text deleted +text " completed job" +text (if deleted == 1 then "" else "s")

-- The answer says how many jobs were deleted; without a status, those that are completed.
unfoldable pub cleanup_jobs_mutation : Option String → ℕ → Mutating
cleanup_jobs_mutation status deleted = record {
  call = sends (cleanup_jobs (some (status otherwise "completed")));
  succeeds = succeeding (removed_message deleted);
  fails = report "Failed to clean up jobs";
}
