-- ===== src/ReaderProgress/Pending.antt =====
-- Which chapter and page the pending save of useReaderProgressTracker.ts is about.
use kiyomi.Base.{
  ℕ, Bool, true, false, ◌||◌, String, Option, none, some, List, [], ◌∷◌, ◌⊎◌, inl, inr, ◌≡◌, refl,
  ap, ◌∙◌, is_blank, Bool-cases, eq_of_beq, ◌==◌, String_eq, if◌then◌else◌, ◌otherwise◌, ℕ_eq,
}
use kiyomi.ReaderProgress.{
  Options, Tracker, Update, Output, update, scroll_to_page, scroll_to_top, is_active, reset_effect,
  restore_effect, save_effect, on_last_page, cleanup, Changed, then_run, prepared, restored, commit,
  Event, commits, sets_page, sets_dialog, marks, fires, unmounts, step, run, timer_fires, sent,
  mark_chapter_read,
}
use kiyomi.ReaderProgress.Marking.{save_effect-cases, save_effect-Spends, restore_effect-mark_count}

-- React runs the effects of a commit that brings another chapter: `chapterId` is a dependency of both.
abbrev pub Follows : Changed → Options → Tracker → Type 0
Follows c o s = (s.active_chapter_id ≡ some o.chapter_id) ⊎ ((c.reset ≡ true) × (c.save ≡ true))

abbrev pub EventFollows : Tracker → Event → Type 0
EventFollows s (commits c o) = Follows c o s
EventFollows s (sets_page page) = Unit
EventFollows s (sets_dialog shown) = Unit
EventFollows s (marks o last_read_page) = Unit
EventFollows s fires = Unit
EventFollows s unmounts = Unit

abbrev pub RunFollows : Tracker → List Event → Type 0
RunFollows s [] = Unit
RunFollows s (e ∷ es) = EventFollows s e × RunFollows (step s e).0 es

abbrev pub Owns : Option String → Option Update → Type 0
Owns active none = Unit
Owns active (some u) = active ≡ some u.chapter_id

-- The pending save is about the chapter that is tracked.
abbrev pub OwnsPending : Tracker → Type 0
OwnsPending s = Owns s.active_chapter_id s.save_timeout

-- All updates among some calls are about one chapter.
abbrev pub AreUpdatesOf : Option String → List Output → Type 0
AreUpdatesOf active [] = Unit
AreUpdatesOf active (update u ∷ out) = (active ≡ some u.chapter_id) × AreUpdatesOf active out
AreUpdatesOf active (scroll_to_page page ∷ out) = AreUpdatesOf active out
AreUpdatesOf active (scroll_to_top ∷ out) = AreUpdatesOf active out

reset_effect-active_id :
    (o : Options) (s : Tracker) → (reset_effect o s).active_chapter_id ≡ some o.chapter_id
unfolding reset_effect
reset_effect-active_id o s = go s.active_chapter_id refl
  where
    go :
        (active : Option String)
        → s.active_chapter_id ≡ active
        → (reset_effect o s).active_chapter_id ≡ some o.chapter_id
    go none e = rw e refl
    go (some id) e = elim (Bool-cases (id == o.chapter_id)) [
      | inl h ↦ rw (e, h) (ap some (eq_of_beq id o.chapter_id h))
      | inr h ↦ rw (e, h) refl
    ]

reset_effect-pending : (o : Options) (s : Tracker) → OwnsPending s → OwnsPending (reset_effect o s)
unfolding reset_effect
reset_effect-pending o s h = elim (Bool-cases (is_active s.active_chapter_id o.chapter_id)) [
  | inl e ↦ rw e h
  | inr e ↦ rw e tt
]

prepared-OwnsPending :
    (c : Changed) (o : Options) (s : Tracker)
    → Follows c o s
    → OwnsPending s
    → ((prepared c o s).active_chapter_id ≡ some o.chapter_id) × OwnsPending (prepared c o s)
unfolding prepared
prepared-OwnsPending c o s (inr (r, v)) h =
    rw (r, v) (reset_effect-active_id o (cleanup s), reset_effect-pending o (cleanup s) tt)
prepared-OwnsPending c o s (inl a) h = start c.save c.reset
  where
    start :
        (b d : Bool)
        → ((if d
              then reset_effect o (if b then cleanup s else s)
              else (if b then cleanup s else s)).active_chapter_id
            ≡ some o.chapter_id)
          × OwnsPending (
              if d
              then reset_effect o (if b then cleanup s else s)
              else (if b then cleanup s else s))
    start true true = (reset_effect-active_id o (cleanup s), reset_effect-pending o (cleanup s) tt)
    start false true = (reset_effect-active_id o s, reset_effect-pending o s h)
    start true false = (a, tt)
    start false false = (a, h)

on_last_page-pending :
    (o : Options) (manga_id : String) (page : ℕ) (s : Tracker)
    → (on_last_page o manga_id page s).0.save_timeout ≡ none
unfolding on_last_page
on_last_page-pending o manga_id page s = elim (Bool-cases s.has_marked_read) [
  | inl e ↦ rw e refl
  | inr e ↦ rw e refl
]

save_effect-OwnsPending :
    (o : Options) (page : ℕ) (s : Tracker)
    → s.active_chapter_id ≡ some o.chapter_id
    → OwnsPending s
    → OwnsPending (save_effect o page s).0
save_effect-OwnsPending o page s a h = elim (save_effect-cases o page s) [
  | inl e ↦ rw e h
  | inr (resumed, named, inl (p, e)) ↦
      rw (e, on_last_page-pending o (o.effective_manga_id otherwise "") page s) tt
  | inr (resumed, named, inr (p, e)) ↦ rw e a
]

-- A commit leaves the chapter that it renders as the tracked one, and the pending save is about it.
commit-OwnsPending :
    (c : Changed) (o : Options) (s : Tracker)
    → Follows c o s
    → OwnsPending s
    → ((commit c o s).0.active_chapter_id ≡ some o.chapter_id) × OwnsPending (commit c o s).0
unfolding commit restored
commit-OwnsPending c o s follows h =
    let (a, own) = prepared-OwnsPending c o s follows h in
    saves c.save (then_run c.restore (restore_effect o) (prepared c o s, []))
      (restores c.restore a own)
  where
    restores :
        (b : Bool)
        → (prepared c o s).active_chapter_id ≡ some o.chapter_id
        → OwnsPending (prepared c o s)
        → ((then_run b (restore_effect o) (prepared c o s, [])).0.active_chapter_id
            ≡ some o.chapter_id)
          × OwnsPending (then_run b (restore_effect o) (prepared c o s, [])).0
    restores false a own = (a, own)
    restores true a own =
        let (m, r, same, t) = restore_effect-mark_count o (prepared c o s) in
        (same ∙ a, rw (same, t) own)

    saves :
        (b : Bool) (t : Tracker × List Output)
        → (t.0.active_chapter_id ≡ some o.chapter_id) × OwnsPending t.0
        → ((then_run b (save_effect o s.current_page) t).0.active_chapter_id ≡ some o.chapter_id)
          × OwnsPending (then_run b (save_effect o s.current_page) t).0
    saves false (t, out) h = h
    saves true (t, out) (a, own) = (
      (save_effect-Spends o s.current_page t).1 ∙ a,
      save_effect-OwnsPending o s.current_page t a own,
    )

mark_chapter_read-OwnsPending :
    (o : Options) (page : Option ℕ) (s : Tracker)
    → OwnsPending s
    → OwnsPending (mark_chapter_read o page s).0
unfolding mark_chapter_read
mark_chapter_read-OwnsPending o page s h =
    elim (Bool-cases (is_blank (o.effective_manga_id otherwise "") || is_blank o.chapter_id)) [
      | inl e ↦ rw e h
      | inr e ↦ rw e h
    ]

step-OwnsPending :
    (s : Tracker) (e : Event) → EventFollows s e → OwnsPending s → OwnsPending (step s e).0
unfolding step timer_fires
step-OwnsPending s (commits c o) f h = (commit-OwnsPending c o s f h).1
step-OwnsPending s (sets_page page) f h = h
step-OwnsPending s (sets_dialog shown) f h = h
step-OwnsPending s (marks o page) f h = mark_chapter_read-OwnsPending o page s h
step-OwnsPending s fires f h = tt
step-OwnsPending s unmounts f h = tt

run-OwnsPending :
    (s : Tracker) (es : List Event) → RunFollows s es → OwnsPending s → OwnsPending (run s es).0
run-OwnsPending s [] f h = h
run-OwnsPending s (e ∷ es) (f, rest) h =
    run-OwnsPending (step s e).0 es rest (step-OwnsPending s e f h)

timer_fires-AreUpdatesOf :
    (s : Tracker) → OwnsPending s → AreUpdatesOf s.active_chapter_id (timer_fires s).1
unfolding timer_fires
timer_fires-AreUpdatesOf s h = go s.save_timeout h
  where
    go :
        (pending : Option Update)
        → Owns s.active_chapter_id pending
        → AreUpdatesOf s.active_chapter_id (sent pending)
    go none h = tt
    go (some u) h = (h, tt)

-- Where the effects run as their dependencies say, and the pending save is at first for the tracked
-- chapter, a save that fires after any sequence of events is for the chapter that is then tracked:
-- no save of a chapter that was left is sent.
pub run-fires_active :
    (s : Tracker) (es : List Event)
    → OwnsPending s
    → RunFollows s es
    → AreUpdatesOf (run s es).0.active_chapter_id (timer_fires (run s es).0).1
run-fires_active s es h f = timer_fires-AreUpdatesOf (run s es).0 (run-OwnsPending s es f h)
