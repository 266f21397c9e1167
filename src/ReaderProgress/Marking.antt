-- ===== src/ReaderProgress/Marking.antt =====
-- When useReaderProgressTracker.ts marks a chapter as read.
use kiyomi.Base.{
  ℕ, suc, ◌+◌, ◌≤◌, Bool, true, false, not, ◌||◌, String, Option, none, some, List, [], ◌∷◌, ◌++◌,
  ◌≢◌, ◌⊎◌, All, inl, inr, Option-cases, ◌≡◌, refl, ap, ◌∙◌, sym, arith, ltb, is_blank, Bool-cases,
  eq_of_beq, ne_of_beq, beq_refl, ◌==◌, ℕ_eq, String_eq, if◌then◌else◌, ◌otherwise◌, truthy,
}
use kiyomi.ReaderProgress.{
  Options, Tracker, Update, Output, update, scroll_to_page, scroll_to_top, reset_effect,
  restore_effect, save_effect, on_last_page, cleanup, Changed, then_run, prepared, restored, commit,
  progress, target_resume_page, Event, commits, sets_page, sets_dialog, marks, fires, unmounts,
  step, timer_fires, run,
}

-- How often a chapter is marked as read by a list of calls.
abbrev pub mark_count : List Output → ℕ
mark_count [] = 0
mark_count (update u ∷ out) = if truthy u.is_read then suc (mark_count out) else mark_count out
mark_count (scroll_to_page page ∷ out) = mark_count out
mark_count (scroll_to_top ∷ out) = mark_count out

pub mark_count-append :
    (xs ys : List Output) → mark_count (xs ++ ys) ≡ mark_count xs + mark_count ys
mark_count-append [] ys = omega arith
mark_count-append (update u ∷ xs) ys = ground (arith, mark_count-append xs ys)
mark_count-append (scroll_to_page page ∷ xs) ys = mark_count-append xs ys
mark_count-append (scroll_to_top ∷ xs) ys = mark_count-append xs ys

pub restore_effect-mark_count :
    (o : Options) (s : Tracker)
    → (mark_count (restore_effect o s).1 ≡ 0)
      × ((restore_effect o s).0.has_marked_read ≡ s.has_marked_read)
      × ((restore_effect o s).0.active_chapter_id ≡ s.active_chapter_id)
      × ((restore_effect o s).0.save_timeout ≡ s.save_timeout)
unfolding restore_effect
restore_effect-mark_count o s =
    elim (Bool-cases (is_blank o.chapter_id || o.pages_count == 0 || s.has_resumed)) [
      | inl e ↦ rw e (refl, refl, refl, refl)
      | inr e ↦ elim (Bool-cases o.is_paged) [
        | inl p ↦ rw (e, p) (refl, refl, refl, refl)
        | inr p ↦ elim (Bool-cases (ltb 1 (target_resume_page o))) [
          | inl t ↦ rw (e, p, t) (refl, refl, refl, refl)
          | inr t ↦ rw (e, p, t) (refl, refl, refl, refl)
        ]
      ]
    ]

-- What the effect that saves does, by its cases.
pub save_effect-cases :
    (o : Options) (page : ℕ) (s : Tracker)
    → (save_effect o page s ≡ (s, []))
      ⊎ ((s.has_resumed ≡ true)
          × (is_blank (o.effective_manga_id otherwise "") ≡ false)
          × (((page ≡ o.pages_count)
                × (save_effect o page s
                    ≡ on_last_page o (o.effective_manga_id otherwise "") page s))
              ⊎ ((page ≢ o.pages_count)
                  × (save_effect o page s ≡ (
                    record s {
                      save_timeout =
                          some (progress o (o.effective_manga_id otherwise "") none (some page));
                    },
                    [],
                  )))))
unfolding save_effect
save_effect-cases o page s = elim (Bool-cases (is_blank (o.effective_manga_id otherwise ""))) [
  | inl b ↦ inl (rw b refl)
  | inr b ↦ elim (Bool-cases (is_blank o.chapter_id || o.pages_count == 0 || not s.has_resumed)) [
    | inl e ↦ inl (rw (b, e) refl)
    | inr e ↦ inr (
      ground arith,
      b,
      elim (Bool-cases (page == o.pages_count)) [
        | inl h ↦ inl (eq_of_beq page o.pages_count h, rw (b, e, h) refl)
        | inr h ↦ inr (λ p. ne_of_beq page o.pages_count h p, rw (b, e, h) refl)
      ],
    )
  ]
]

-- How often the chapter can still be marked by the effects.
abbrev pub budget : Tracker → ℕ
budget s = if s.has_marked_read then 0 else 1

-- What the pending timer will send does not mark the chapter.
abbrev pub sends_mark : Option Update → Bool
sends_mark none = false
sends_mark (some u) = truthy u.is_read

abbrev pub IsSave : Tracker → Type 0
IsSave s = sends_mark s.save_timeout ≡ false

-- What an effect that runs on `s` and gives `r` spends of the budget.
abbrev pub Spends : Tracker → Tracker × List Output → Type 0
Spends s r =
    (mark_count r.1 + budget r.0 ≡ budget s)
    × (r.0.active_chapter_id ≡ s.active_chapter_id)
    × (IsSave s → IsSave r.0)

on_last_page-Spends :
    (o : Options) (manga_id : String) (page : ℕ) (s : Tracker)
    → Spends s (on_last_page o manga_id page s)
unfolding on_last_page
on_last_page-Spends o manga_id page s = elim (Bool-cases s.has_marked_read) [
  | inl e ↦ rw e (refl, refl, λ h. refl)
  | inr e ↦ rw e (refl, refl, λ h. refl)
]

pub save_effect-Spends : (o : Options) (page : ℕ) (s : Tracker) → Spends s (save_effect o page s)
save_effect-Spends o page s = elim (save_effect-cases o page s) [
  | inl e ↦ rw e (omega arith, refl, λ h. h)
  | inr (resumed, named, inl (p, e)) ↦
      rw e (on_last_page-Spends o (o.effective_manga_id otherwise "") page s)
  | inr (resumed, named, inr (p, e)) ↦ rw e (omega arith, refl, λ h. refl)
]

pub restore_effect-Spends : (o : Options) (s : Tracker) → Spends s (restore_effect o s)
restore_effect-Spends o s =
    let (m, h, a, t) = restore_effect-mark_count o s in
    (ground (arith, m, h), a, λ saves. ap sends_mark t ∙ saves)

reset_effect-active :
    (o : Options) (s : Tracker) → s.active_chapter_id ≡ some o.chapter_id → reset_effect o s ≡ s
unfolding reset_effect
reset_effect-active o s h = rw (h, beq_refl o.chapter_id) refl

then_run-Spends :
    (b : Bool) (effect : Tracker → Tracker × List Output)
    → ((t : Tracker) → Spends t (effect t))
    → (s : Tracker) (r : Tracker × List Output) → Spends s r
    → Spends s (then_run b effect r)
then_run-Spends false effect law s (t, out) h = h
then_run-Spends true effect law s (t, out) (n, a, saves) =
    let (m, b, more) = law t in
    (ground (arith, mark_count-append out (effect t).1, n, m), b ∙ a, λ h. more (saves h))

prepared-Spends :
    (c : Changed) (o : Options) (s : Tracker)
    → s.active_chapter_id ≡ some o.chapter_id
    → Spends s (prepared c o s, [])
unfolding prepared
prepared-Spends c o s h = start c.save c.reset
  where
    start :
        (b d : Bool)
        → Spends s (
          if d then reset_effect o (if b then cleanup s else s) else (if b then cleanup s else s),
          [],
        )
    start true true = rw (reset_effect-active o (cleanup s) h) (omega arith, refl, λ saves. refl)
    start true false = (omega arith, refl, λ saves. refl)
    start false true = rw (reset_effect-active o s h) (omega arith, refl, λ saves. saves)
    start false false = (omega arith, refl, λ saves. saves)

-- A commit for the chapter that is already tracked.
commit-Spends :
    (c : Changed) (o : Options) (s : Tracker)
    → s.active_chapter_id ≡ some o.chapter_id
    → Spends s (commit c o s)
unfolding commit restored
commit-Spends c o s h =
    then_run-Spends c.save (save_effect o s.current_page) (save_effect-Spends o s.current_page) s
      (restored c o s)
      (then_run-Spends c.restore (restore_effect o) (restore_effect-Spends o) s (prepared c o s, [])
        (prepared-Spends c o s h))

-- No other chapter is opened, and nobody calls `markChapterRead`.
abbrev pub stays_on : String → Event → Bool
stays_on id (commits c o) = o.chapter_id == id
stays_on id (sets_page page) = true
stays_on id (sets_dialog shown) = true
stays_on id (marks o last_read_page) = false
stays_on id fires = true
stays_on id unmounts = true

fires-Spends : (s : Tracker) → IsSave s → Spends s (timer_fires s)
unfolding timer_fires
fires-Spends s saves = elim (Option-cases s.save_timeout) [
  | inl e ↦ rw e (omega arith, refl, λ h. refl)
  | inr (u, e) ↦
      let quiet : truthy u.is_read ≡ false = ap sends_mark (sym e) ∙ saves in
      rw (e, quiet) (omega arith, refl, λ h. refl)
]

step-Spends :
    (id : String) (s : Tracker) (e : Event)
    → s.active_chapter_id ≡ some id
    → IsSave s
    → stays_on id e ≡ true
    → Spends s (step s e)
unfolding step
step-Spends id s (commits c o) a saves h =
    commit-Spends c o s (a ∙ ap some (sym (eq_of_beq o.chapter_id id h)))
step-Spends id s (sets_page page) a saves h = (omega arith, refl, λ k. k)
step-Spends id s (sets_dialog shown) a saves h = (omega arith, refl, λ k. k)
step-Spends id s (marks o last_read_page) a saves h = cc
step-Spends id s fires a saves h = fires-Spends s saves
step-Spends id s unmounts a saves h = (omega arith, refl, λ k. refl)

run-Spends :
    (id : String) (s : Tracker) (es : List Event)
    → s.active_chapter_id ≡ some id
    → IsSave s
    → All (λ e. stays_on id e ≡ true) es
    → mark_count (run s es).1 + budget (run s es).0 ≡ budget s
run-Spends id s [] a saves h = omega arith
run-Spends id s (e ∷ es) a saves (here, rest) =
    let (n, b, more) = step-Spends id s e a saves here in
    let later = run-Spends id (step s e).0 es (b ∙ a) (more saves) rest in
    ground (arith, mark_count-append (step s e).1 (run (step s e).0 es).1, n, later)

-- While one chapter is tracked, `markChapterRead` is not called, and what the pending timer will
-- send at first marks nothing, the effects and the timer mark the chapter as read at most once,
-- whatever is rendered and however often; and not at all if it was marked before.
pub run-marks_once :
    (id : String) (s : Tracker) (es : List Event)
    → s.active_chapter_id ≡ some id
    → IsSave s
    → All (λ e. stays_on id e ≡ true) es
    → (mark_count (run s es).1 ≤ 1) × (s.has_marked_read ≡ true → mark_count (run s es).1 ≡ 0)
run-marks_once id s es a saves h =
    let spent = run-Spends id s es a saves h in (ground (arith, spent), λ e. ground (arith, spent))
