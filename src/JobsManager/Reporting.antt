-- ===== src/JobsManager/Reporting.antt =====
-- What the buttons of the job list do on success and on failure.
use kiyomi.Base.{
  ℕ, false, String, Option, none, some, List, [], ◌∷◌, ◌≡◌, refl, All, is_blank, or_text,
  ◌otherwise◌,
}
use kiyomi.Toasts.{error, Failure}
use kiyomi.ChapterOperations.Mutations.{toast, Mutating, run}
use kiyomi.JobsManager.{
  cancel_job_mutation, delete_job_mutation, cleanup_jobs_mutation, failure_details, succeeding,
}

abbrev pub buttons : String → Option String → ℕ → List Mutating
buttons id status deleted =
    cancel_job_mutation id ∷ delete_job_mutation id ∷ cleanup_jobs_mutation status deleted ∷ []

-- On an answer one message, and the lists of all jobs are fetched again.
abbrev pub Refreshes : Option String → Mutating → Type 0
Refreshes stack m = (message : String) × (run stack m none ≡ succeeding message)

-- On an error its text, or a text of its own, with the details of the error, and nothing else.
abbrev pub ShowsError : Option String → Failure → Mutating → Type 0
ShowsError stack err m =
    (own : String) × (is_blank own ≡ false)
    × (run stack m (some err)
        ≡ toast (or_text (err.message otherwise "") own) error (some (failure_details err)) ∷ [])

-- Each button reports its success and has all jobs fetched again; where the server fails, it shows one
-- message that is not blank, with the details of the error, and has nothing fetched.
pub run-ShowsError :
    (id : String) (status stack : Option String) (deleted : ℕ) (err : Failure)
    → All (Refreshes stack) (buttons id status deleted)
      × All (ShowsError stack err) (buttons id status deleted)
unfolding run cancel_job_mutation delete_job_mutation cleanup_jobs_mutation
run-ShowsError id status stack deleted err = (
  ((_, refl), ((_, refl), ((_, refl), tt))),
  (
    ("Failed to cancel job", refl, refl),
    (("Failed to remove job", refl, refl), (("Failed to clean up jobs", refl, refl), tt)),
  ),
)
