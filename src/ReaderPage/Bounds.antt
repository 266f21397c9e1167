-- ===== src/ReaderPage/Bounds.antt =====
-- The bounds of the page of the reader under every sequence of turns, touches, jumps, scroll reports
-- and timers.
use mathlib.Core.Path.{subst}
use kiyomi.Base.{
  ℕ, zero, suc, ◌≤◌, true, false, some, List, [], ◌∷◌, get_elem?, ◌≡◌, refl, sym, ap, inl, inr,
  Bool-cases, Option-cases, ℕ_eq, String_eq, arith,
}
use kiyomi.Base.Int.{pos}
use kiyomi.EditMetadata.{without_index}
use kiyomi.ReaderPage.{is_paged_mode}
use kiyomi.ReaderPage.Navigation.{
  View, Reader, Callback, turns_next, turns_prev, opens_next, opens_prev, forgets_drag, spring_ends,
  springs_back, reports_page, drags, touches, releases, cancels, handle_start, handle_release,
  handle_cancel, handle_move, spring_back, set_current_page, Event, next_number, prev_number,
  goes_next, goes_prev, scrolls_top, changes_page, fires, handle_page_change, handle_scroll_top,
  timer_fires, call_back, call_at, step, run,
}
use kiyomi.ReaderPage.Turns.{
  is_turn, turns, turns-snoc_other, turns-without_other, no_turns-get_elem?, turns-without_turn,
}
use kiyomi.ReaderPage.Sliding.{
  Fits, WaitsFor, InBounds, slide-InBounds, settle-InBounds, if_InBounds, quiet_of,
  if_reader-InBounds, jump-InBounds, go_to_next_page-InBounds, go_to_prev_page-InBounds,
}

module _ (v : View) where
  -- The turn that waits is carried out.
  call_back-InBounds :
      (s : Reader) (c : Callback) (p : ℕ)
      → s.current_page ≡ pos p
      → 1 ≤ p
      → p ≤ v.pages_count
      → turns s.timers ≡ []
      → is_turn c ≡ true
      → Fits v p c
      → InBounds v (call_back c s).0
  unfolding call_back
  call_back-InBounds s turns_next p at lo hi quiet turn fits =
      settle-InBounds v (record s { current_page = next_number s.current_page }) (suc p)
        (ap next_number at) (omega arith) (omega arith) quiet
  call_back-InBounds s turns_prev zero at lo hi quiet turn fits = absurd (omega arith)
  call_back-InBounds s turns_prev (suc p) at lo hi quiet turn fits =
      settle-InBounds v (record s { current_page = prev_number s.current_page }) p
        (ap prev_number at) (omega arith) (omega arith) quiet
  call_back-InBounds s (opens_next w) p at lo hi quiet turn fits =
      settle-InBounds v s p at lo hi quiet
  call_back-InBounds s (opens_prev w) p at lo hi quiet turn fits =
      settle-InBounds v s p at lo hi quiet
  call_back-InBounds s spring_ends p at lo hi quiet turn fits = (p, at, lo, hi, quiet)
  call_back-InBounds s forgets_drag p at lo hi quiet turn fits = absurd (ground arith)

  call_back-other :
      (s : Reader) (c : Callback)
      → is_turn c ≡ false
      → (call_back c s).0 ≡ record s { did_drag = false }
  unfolding call_back
  call_back-other s forgets_drag h = refl
  call_back-other s c h = absurd (ground arith)

  without : ℕ → Reader → Reader
  without i s = record s { timers = without_index i s.timers }

  fired-InBounds :
      (i : ℕ) (s : Reader) (c : Callback)
      → get_elem? s.timers i ≡ some c
      → InBounds v s
      → InBounds v (call_back c (without i s)).0
  unfolding without
  fired-InBounds i s c h (p, at, lo, hi, w) = elim (Bool-cases (is_turn c)) [
    | inl turn ↦ elim (Bool-cases s.is_animating) [
      | inl busy ↦
          let (d, one, fits) = subst (λ b. WaitsFor v p b (turns s.timers)) busy w in
          let (same, quiet) = turns-without_turn s.timers i c d h turn one in
          call_back-InBounds (without i s) c p at lo hi quiet turn
            (subst (Fits v p) (sym same) fits)
      | inr idle ↦
          absurd (ground (arith, turn, no_turns-get_elem? s.timers i c h (quiet_of v s p idle w)))
    ]
    | inr other ↦ subst (InBounds v) (sym (call_back-other (without i s) c other)) (
      p,
      at,
      lo,
      hi,
      subst (WaitsFor v p s.is_animating) (sym (turns-without_other s.timers i c h other)) w,
    )
  ]

  timer_fires-InBounds : (i : ℕ) (s : Reader) → InBounds v s → InBounds v (timer_fires i s).0
  unfolding timer_fires without
  timer_fires-InBounds i s b = elim (Option-cases (get_elem? s.timers i)) [
    | inl e ↦ subst (λ o. InBounds v (call_at i o s).0) (sym e) b
    | inr (c, e) ↦ subst (λ o. InBounds v (call_at i o s).0) (sym e) (fired-InBounds i s c e b)
  ]

  -- A jump, a scroll report and a restored page are pages of the chapter, and come while no animation is
  -- under way.
  abbrev pub IsCalm : Reader → Event → Type 0
  IsCalm s (changes_page target) =
      (s.is_animating ≡ false) × (1 ≤ target) × (target ≤ v.pages_count)
  IsCalm s (reports_page page) = (s.is_animating ≡ false) × (1 ≤ page) × (page ≤ v.pages_count)
  IsCalm s scrolls_top = s.is_animating ≡ false
  IsCalm s e = Unit

  abbrev pub AreCalm : Reader → List Event → Type 0
  AreCalm s [] = Unit
  AreCalm s (e ∷ events) = IsCalm s e × AreCalm (step v s e).0 events

  step-InBounds : (s : Reader) (e : Event) → IsCalm s e → InBounds v s → InBounds v (step v s e).0
  unfolding step handle_page_change handle_scroll_top handle_start handle_release handle_cancel
      handle_move spring_back set_current_page
  step-InBounds s goes_next calm b = go_to_next_page-InBounds v s b
  step-InBounds s goes_prev calm b = go_to_prev_page-InBounds v s b
  step-InBounds s (fires i) calm b = timer_fires-InBounds i s b
  step-InBounds s (changes_page target) (idle, lo, hi) b = jump-InBounds v s target idle lo hi b
  step-InBounds s (reports_page page) (idle, lo, hi) (p, at, l, h, w) = (
    page,
    refl,
    lo,
    hi,
    subst (λ b. WaitsFor v page b (turns s.timers)) (sym idle) (quiet_of v s p idle w),
  )
  step-InBounds s (drags offset) calm (p, at, lo, hi, w) =
      if_reader-InBounds v s.is_animating _ _ (λ busy. (p, at, lo, hi, w))
        (λ idle. (p, at, lo, hi, w))
  step-InBounds s touches calm (p, at, lo, hi, w) =
      if_reader-InBounds v s.is_animating _ _ (λ busy. (p, at, lo, hi, w))
        (λ idle. (p, at, lo, hi, w))
  step-InBounds s releases calm b = b
  step-InBounds s cancels calm (p, at, lo, hi, w) =
      (p, at, lo, hi, subst (WaitsFor v p s.is_animating) (sym (turns-snoc_other s.timers)) w)
  step-InBounds s springs_back calm (p, at, lo, hi, w) =
      if_reader-InBounds v s.is_animating _ _ (λ busy. (p, at, lo, hi, w))
        (λ idle. slide-InBounds v s (pos 0) spring_ends p at lo hi (quiet_of v s p idle w) refl tt)
  step-InBounds s scrolls_top idle (p, at, lo, hi, w) =
      if_InBounds v (is_paged_mode v.reading_mode) _ _
        (λ paged. jump-InBounds v s 1 idle (omega arith) (omega arith) (p, at, lo, hi, w))
        (λ strip. (p, at, lo, hi, w))

  -- While a chapter is open, and where the reader begins on a page of it, its page stays between the first
  -- and the last one, and at most one animation is under way, under turns, touches, drags, springs back,
  -- jumps, scroll reports and timers in any order, as long as each jump, each scroll report and each restored page
  -- is a page of the chapter and comes while no animation is under way.
  pub run-InBounds :
      (s : Reader) (events : List Event)
      → AreCalm s events
      → InBounds v s
      → InBounds v (run v s events).0
  run-InBounds s [] calm b = b
  run-InBounds s (e ∷ events) (now, later) b =
      run-InBounds (step v s e).0 events later (step-InBounds s e now b)
