-- ===== src/ReaderProgress/Stale.antt =====
-- What useReaderProgressTracker.ts does in the commit that brings another chapter.
use kiyomi.Base.{
  ◌+◌, true, false, not, ◌&&◌, none, some, inl, inr, ◌≡◌, refl, ap, ◌∙◌, arith, is_blank,
  Bool-cases, ◌==◌, String_eq, if◌then◌else◌, ◌otherwise◌, ℕ_eq,
}
use kiyomi.ReaderProgress.{
  Options, Tracker, is_active, reset_effect, restore_effect, save_effect, on_last_page, cleanup,
  Changed, prepared, restored, commit, target_resume_page,
}
use kiyomi.ReaderProgress.Marking.{mark_count, mark_count-append, restore_effect-mark_count}

-- All three effects run.
abbrev pub all_changed : Changed
all_changed = record { reset = true; restore = true; save = true }

pub record IsOpening (o : Options) (s : Tracker) : Type 0 where
  pub another : is_active s.active_chapter_id o.chapter_id ≡ false
  pub named : is_blank o.chapter_id ≡ false
  pub of_manga : is_blank (o.effective_manga_id otherwise "") ≡ false
  pub has_pages : (o.pages_count == 0) ≡ false

abbrev opened : Options → Tracker → Tracker
opened o s = record s {
  active_chapter_id = some o.chapter_id;
  has_marked_read = o.is_chapter_read;
  has_resumed = true;
  has_dismissed_completion = false;
  save_timeout = none;
  current_page = target_resume_page o;
}

module _ (o : Options) (s : Tracker) (opening : IsOpening o s) where
  reset_effect-opening : reset_effect o (cleanup s) ≡ record s {
    active_chapter_id = some o.chapter_id;
    has_marked_read = o.is_chapter_read;
    has_resumed = false;
    has_dismissed_completion = false;
    save_timeout = none;
  }
  unfolding reset_effect
  reset_effect-opening = rw opening.another refl

  restored-opening :
      ((restored all_changed o s).0 ≡ opened o s) × (mark_count (restored all_changed o s).1 ≡ 0)
  unfolding restored prepared restore_effect
  restored-opening = (
    rw (reset_effect-opening, opening.named, opening.has_pages) refl,
    (restore_effect-mark_count o (prepared all_changed o s)).0,
  )

  save_effect-opening :
      ((save_effect o s.current_page (opened o s)).0.current_page ≡ target_resume_page o)
      × (mark_count (save_effect o s.current_page (opened o s)).1
          ≡ (if s.current_page == o.pages_count && not o.is_chapter_read then 1 else 0))
  unfolding save_effect on_last_page
  save_effect-opening = elim (Bool-cases (s.current_page == o.pages_count)) [
    | inl e ↦ elim (Bool-cases o.is_chapter_read) [
      | inl r ↦ rw (opening.of_manga, opening.named, opening.has_pages, e, r) (refl, refl)
      | inr r ↦ rw (opening.of_manga, opening.named, opening.has_pages, e, r) (refl, refl)
    ]
    | inr e ↦ rw (opening.of_manga, opening.named, opening.has_pages, e) (refl, refl)
  ]

-- The commit that opens another chapter, with its pages there and its manga and itself named,
-- resumes the chapter at its resume page.
-- It marks the chapter as read exactly if it was not read and the page that was rendered before, in
-- the chapter that is left, has the number of the last page of the new one; the resume page does not
-- matter.
pub commit-opening :
    (o : Options) (s : Tracker)
    → IsOpening o s
    → ((commit all_changed o s).0.current_page ≡ target_resume_page o)
      × (mark_count (commit all_changed o s).1
          ≡ (if s.current_page == o.pages_count && not o.is_chapter_read then 1 else 0))
unfolding commit
commit-opening o s opening =
    let (e, quiet) = restored-opening o s opening in
    let (page, count) = save_effect-opening o s opening in
    (
      ap (λ t. (save_effect o s.current_page t).0.current_page) e ∙ page,
      mark_count-append (restored all_changed o s).1
            (save_effect o s.current_page (restored all_changed o s).0).1
          ∙ ap (λ n. n + mark_count (save_effect o s.current_page (restored all_changed o s).0).1)
              quiet
          ∙ omega arith
          ∙ ap (λ t. mark_count (save_effect o s.current_page t).1) e
          ∙ count,
    )
