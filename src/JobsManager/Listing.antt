-- ===== src/JobsManager/Listing.antt =====
-- The jobs that are listed and the counts of them.
use mathlib.Core.List.{Perm}
use kiyomi.Base.{
  ℕ, ◌+◌, Bool, false, ◌&&◌, String, String_eq, List, [], ◌∷◌, length, ◌≡◌, refl, ap, ◌∙◌, sym,
  filter_by, ◌==◌, if◌then◌else◌, arith,
}
use kiyomi.Base.Int.{ℤ}
use kiyomi.Base.Sort.Collations.{IsConsistent-ascending, IsCollation-sub, IsCollation-flip}
use kiyomi.Base.Sort.Laws.{IsSorted, sort-perm, sort-IsSorted, length-sort}
use kiyomi.Base.Text.{trim}
use kiyomi.Api.{Job, JobStatus, pending, running, completed, failed}
use kiyomi.JobsManager.{
  View, status_text, no_jobs, matches_status, matches_type, newest_first, filtered_jobs, JobsStats,
  count_job, count_jobs, stats, set_status_filter, set_type_filter,
}

abbrev pub has_status : String → Job → Bool
has_status status job = status_text job.status == status

abbrev pub count_of : JobStatus → JobsStats → ℕ
count_of running s = s.active
count_of pending s = s.waiting
count_of completed s = s.done
count_of failed s = s.broken

-- What the loop adds to the counts.
abbrev of_status : String → List Job → ℕ
of_status status jobs = length (filter_by (has_status status) jobs)

-- What one job adds to the counts.
count_job-adds :
    (status : JobStatus) (s : JobsStats)
    → ((count_job status s).active ≡ s.active + (if status_text status == "running" then 1 else 0))
      × ((count_job status s).waiting
          ≡ s.waiting + (if status_text status == "pending" then 1 else 0))
      × ((count_job status s).done ≡ s.done + (if status_text status == "completed" then 1 else 0))
      × ((count_job status s).broken ≡ s.broken + (if status_text status == "failed" then 1 else 0))
count_job-adds pending s = (omega arith, omega arith, omega arith, omega arith)
count_job-adds running s = (omega arith, omega arith, omega arith, omega arith)
count_job-adds completed s = (omega arith, omega arith, omega arith, omega arith)
count_job-adds failed s = (omega arith, omega arith, omega arith, omega arith)

count_jobs-adds :
    (jobs : List Job) (s : JobsStats)
    → ((count_jobs jobs s).active ≡ s.active + of_status "running" jobs)
      × ((count_jobs jobs s).waiting ≡ s.waiting + of_status "pending" jobs)
      × ((count_jobs jobs s).done ≡ s.done + of_status "completed" jobs)
      × ((count_jobs jobs s).broken ≡ s.broken + of_status "failed" jobs)
unfolding count_jobs
count_jobs-adds [] s = (omega arith, omega arith, omega arith, omega arith)
count_jobs-adds (j ∷ jobs) s =
    let (a, w, d, b) = count_jobs-adds jobs (count_job j.status s) in
    let (a1, w1, d1, b1) = count_job-adds j.status s in
    (ground (arith, a, a1), ground (arith, w, w1), ground (arith, d, d1), ground (arith, b, b1))

filter_by_congr {ℓ} :
    {A : Type ℓ} (p q : A → Bool)
    → ((x : A) → p x ≡ q x)
    → (xs : List A) → filter_by p xs ≡ filter_by q xs
filter_by_congr p q h [] = refl
filter_by_congr p q h (x ∷ xs) = rw (h x, filter_by_congr p q h xs) refl

length-filtered_jobs :
    (to_lower_case : String → String) (time_of : String → ℤ) (s : View) (status : String)
    (jobs : List Job)
    → (status == "all") ≡ false
    → length
        (filtered_jobs to_lower_case time_of (set_status_filter status (set_type_filter "" s)) jobs)
      ≡ of_status status jobs
unfolding filtered_jobs set_status_filter set_type_filter trim
length-filtered_jobs to_lower_case time_of s status jobs h =
    length-sort _ _ ∙ ap length (filter_by_congr _ _ (λ j. ground (arith, h)) jobs)

-- The word `all` is no status.
ne_all : (status : JobStatus) → (status_text status == "all") ≡ false
ne_all pending = refl
ne_all running = refl
ne_all completed = refl
ne_all failed = refl

count_of-stats :
    (status : JobStatus) (jobs : List Job)
    → count_of status (stats jobs) ≡ of_status (status_text status) jobs
unfolding stats
count_of-stats running jobs = omega (arith, (count_jobs-adds jobs no_jobs).0)
count_of-stats pending jobs = omega (arith, (count_jobs-adds jobs no_jobs).1)
count_of-stats completed jobs = omega (arith, (count_jobs-adds jobs no_jobs).2)
count_of-stats failed jobs = omega (arith, (count_jobs-adds jobs no_jobs).3)

-- Each count is the number of the jobs that are listed where its status is chosen and no type.
pub stats-filtered_jobs :
    (to_lower_case : String → String) (time_of : String → ℤ) (s : View) (jobs : List Job)
    → ((status : JobStatus)
        → count_of status (stats jobs)
          ≡ length (
              filtered_jobs to_lower_case time_of
                (set_status_filter (status_text status) (set_type_filter "" s))
                jobs))
stats-filtered_jobs to_lower_case time_of s jobs status =
    count_of-stats status jobs
    ∙ sym (length-filtered_jobs to_lower_case time_of s (status_text status) jobs (ne_all status))

-- The jobs that are listed are those that the filters keep, each once, and the newest stand first.
pub filtered_jobs-IsSorted :
    (to_lower_case : String → String) (time_of : String → ℤ) (s : View) (jobs : List Job)
    → Perm (filtered_jobs to_lower_case time_of s jobs) (
        filter_by
          (λ j.
            matches_status s.status_filter j && matches_type to_lower_case time_of s.type_filter j)
          jobs)
      × IsSorted (newest_first to_lower_case time_of) (filtered_jobs to_lower_case time_of s jobs)
unfolding filtered_jobs
filtered_jobs-IsSorted to_lower_case time_of s jobs = (
  sort-perm _ _,
  sort-IsSorted _
      (IsConsistent-ascending (IsCollation-flip (IsCollation-sub (λ j. time_of j.created_at)))) _,
)
