-- ===== src/ReaderProgress/Tests.antt =====
-- Runs of useReaderProgressTracker.ts, and the theorems at a concrete chapter.
use kiyomi.Base.{
  ◌≤◌, true, false, not, ◌&&◌, none, some, List, [], ◌∷◌, ◌≡◌, inl, inr, refl, length,
  if◌then◌else◌, ◌==◌, ℕ_eq,
}
use kiyomi.ReaderProgress.{
  Options, Tracker, Event, absent, commits, sets_page, target_resume_page, save_effect, prepared,
  restored, commit, step, timer_fires, run,
}
use kiyomi.ReaderProgress.Marking.{mark_count, run-marks_once}
use kiyomi.ReaderProgress.Pending.{AreUpdatesOf, run-fires_active}
use kiyomi.ReaderProgress.Stale.{all_changed, IsOpening, commit-opening}

abbrev chapter_two : Options
chapter_two = record {
  effective_manga_id = some "manga";
  chapter_id = "two";
  chapter_provider_id = none;
  pages_count = 20;
  is_paged = true;
  is_chapter_read = false;
  chapter_last_read_page = 0;
  search_page = absent;
  has_next_chapter = true;
  user_status = some "reading";
}

-- The reader shows the last of the twenty pages of chapter one.
abbrev at_end_of_one : Tracker
at_end_of_one = record {
  current_page = 20;
  show_completion_dialog = false;
  active_chapter_id = some "one";
  has_marked_read = true;
  has_resumed = true;
  has_dismissed_completion = false;
  save_timeout = none;
}

abbrev on_chapter_two : Tracker
on_chapter_two = record at_end_of_one {
  active_chapter_id = some "two";
  has_marked_read = false;
  current_page = 19;
}

abbrev reads_on : List Event
reads_on =
    commits (record { reset = false; restore = false; save = true }) chapter_two
    ∷ sets_page 20
    ∷ commits (record { reset = false; restore = false; save = true }) chapter_two
    ∷ commits (record { reset = false; restore = false; save = true }) chapter_two
    ∷ []

run-marks_once_example :
    (mark_count (run on_chapter_two reads_on).1 ≤ 1)
    × (on_chapter_two.has_marked_read ≡ true → mark_count (run on_chapter_two reads_on).1 ≡ 0)
run-marks_once_example =
    run-marks_once "two" on_chapter_two reads_on refl refl (refl, (refl, (refl, (refl, tt))))

marks_at_the_end : mark_count (run on_chapter_two reads_on).1 ≡ 1
unfolding step commit restored save_effect prepared
marks_at_the_end = refl

-- The reader goes to chapter two, on to its page 7, and waits for the save.
abbrev goes_on : List Event
goes_on =
    commits all_changed chapter_two
    ∷ sets_page 7
    ∷ commits (record { reset = false; restore = false; save = true }) chapter_two
    ∷ []

run-fires_active_example :
    AreUpdatesOf
      (run at_end_of_one goes_on).0.active_chapter_id
      (timer_fires (run at_end_of_one goes_on).0).1
unfolding step commit restored prepared save_effect kiyomi.ReaderProgress.restore_effect
run-fires_active_example =
    run-fires_active at_end_of_one goes_on tt (inr (refl, refl), (tt, (inl refl, tt)))

-- The save of that page is sent, and only that one.
saves_page_seven : length (timer_fires (run at_end_of_one goes_on).0).1 ≡ 1
unfolding step commit restored prepared save_effect timer_fires kiyomi.ReaderProgress.restore_effect
saves_page_seven = refl

two_opens : IsOpening chapter_two at_end_of_one
two_opens = record { another = refl; named = refl; of_manga = refl; has_pages = refl }

-- The chapter is marked as read although it opens at page 1 of 20.
commit-opening_example :
    ((commit all_changed chapter_two at_end_of_one).0.current_page ≡ target_resume_page chapter_two)
    × (mark_count (commit all_changed chapter_two at_end_of_one).1
        ≡ (if at_end_of_one.current_page == 20 && not chapter_two.is_chapter_read then 1 else 0))
commit-opening_example = commit-opening chapter_two at_end_of_one two_opens
