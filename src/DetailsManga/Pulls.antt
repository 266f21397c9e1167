-- ===== src/DetailsManga/Pulls.antt =====
-- The chapters that background jobs pull.
use mathlib.Core.Path.{subst}
use kiyomi.Base.{
  ℕ, Bool, true, false, not, ◌&&◌, List, [], ◌∷◌, ◌≡◌, ◌⊎◌, ◌↔◌, refl, sym, ◌∙◌, inl, inr,
  Bool-cases, String, String_eq, Option, none, some, any_of, is_blank, ◌==◌, ◌otherwise◌,
  if◌then◌else◌, arith,
}
use kiyomi.Base.Sets.{has}
use kiyomi.Api.{Chapter, Job, pending, running, completed, failed}
use kiyomi.Hooks.Queries.{chapters_refetch_interval, is_partly_downloaded}
use kiyomi.ChapterOperations.{Pending, is_downloaded, chapter_of, pulling_chapter_ids}
use kiyomi.ChapterOperations.Pulling.{has-pulling_chapter_ids}
use kiyomi.DetailsManga.{
  job_chapter_id, is_active_pull, active_job_chapter_ids, has_active_pull_jobs,
  page_has_active_pull_jobs,
}

-- A chapter is among those that are pulled exactly where a job that has not finished pulls it.
pub has-active_job_chapter_ids :
    (jobs : List Job) (id : String)
    → has (active_job_chapter_ids jobs) id
      ≡ any_of (λ j. is_active_pull j && job_chapter_id j == id) jobs
unfolding has active_job_chapter_ids
has-active_job_chapter_ids [] id = refl
has-active_job_chapter_ids (j ∷ jobs) id = elim (Bool-cases (is_active_pull j)) [
  | inl e ↦ rw (e, has-active_job_chapter_ids jobs id) refl
  | inr e ↦ rw e (has-active_job_chapter_ids jobs id)
]

-- A job that waits or runs, and pulls a chapter that it names.
abbrev pub is_pulling : Job → Bool
is_pulling j =
    j.kind == "pull_chapter"
    && elim j.status [ pending ↦ true | running ↦ true | completed ↦ false | failed ↦ false ]
    && not (is_blank (job_chapter_id j))

page_has_active_pull_jobs-any_of :
    (jobs : List Job) → page_has_active_pull_jobs jobs ≡ any_of is_pulling jobs
unfolding page_has_active_pull_jobs has_active_pull_jobs active_job_chapter_ids
page_has_active_pull_jobs-any_of [] = refl
page_has_active_pull_jobs-any_of (j ∷ jobs) = elim (Bool-cases (is_active_pull j)) [
  | inl e ↦ rw e (ground arith)
  | inr e ↦ rw e (page_has_active_pull_jobs-any_of jobs)
]

-- How long until the list is fetched again.
abbrev wait : Bool → Bool → Option ℕ
wait pulls partly = if pulls then some 3000 else if partly then some 3000 else none

refetch_by :
    (pulls partly : Bool) → (wait pulls partly ≡ some 3000) ↔ ((pulls ≡ true) ⊎ (partly ≡ true))
refetch_by true partly = (λ h. inl refl, λ h. refl)
refetch_by false true = (λ h. inr refl, λ h. refl)
refetch_by false false = (λ h. cc, λ h. elim h [ inl a ↦ cc | inr b ↦ cc ])

-- A chapter whose pull was just asked for, and that is not downloaded, is shown as being pulled. But the
-- list of the chapters is fetched again every three seconds exactly if a pending or running job pulls a
-- chapter that it names, or a chapter of the list is downloaded in part: the page does not tell the list
-- about the pulls that were just asked for.
pub chapters_refetch_interval-pulling :
    (jobs : List Job) (chapters : List Chapter) (p : Pending) (optimistic : List String)
    (id : String) (answer : Option (List Chapter))
    → has optimistic id ≡ true
    → is_downloaded (chapter_of id chapters) ≡ false
    → (has (pulling_chapter_ids (active_job_chapter_ids jobs) chapters p optimistic) id ≡ true)
      × ((chapters_refetch_interval (some (page_has_active_pull_jobs jobs)) answer ≡ some 3000) ↔ (
          (any_of is_pulling jobs ≡ true)
          ⊎ (any_of is_partly_downloaded (answer otherwise []) ≡ true)))
unfolding chapters_refetch_interval
chapters_refetch_interval-pulling jobs chapters p optimistic id answer asked missing = (
  has-pulling_chapter_ids (active_job_chapter_ids jobs) chapters p optimistic id
      ∙ ground (arith, asked, missing),
  subst
      (λ b. (wait b (any_of is_partly_downloaded (answer otherwise [])) ≡ some 3000) ↔ (
        (any_of is_pulling jobs ≡ true)
        ⊎ (any_of is_partly_downloaded (answer otherwise []) ≡ true)))
      (sym (page_has_active_pull_jobs-any_of jobs))
      (refetch_by (any_of is_pulling jobs) (any_of is_partly_downloaded (answer otherwise []))),
)
