-- ===== src/ReaderPage/Racing.antt =====
-- A change of the page during the animation of a turn.
use kiyomi.Base.{
  ℕ, suc, ◌<◌, false, [], ◌∷◌, ◌≡◌, ap, ◌∙◌, lt→ltb, ℕ_eq, beq_of_ne, ◌≢◌, if_true, if_false, arith,
}
use kiyomi.Base.Int.{ℤ, pos}
use kiyomi.ReaderPage.Navigation.{
  View, Reader, goes_next, goes_prev, changes_page, fires, go_to_next_page, go_to_prev_page,
  handle_page_change, timer_fires, call_back, step, run, turns_next, turns_prev, Callback, slide,
  offset_next, offset_prev, jump,
}

-- No animation and no timer runs.
abbrev pub at_page : ℕ → Reader
at_page p = record {
  current_page = pos p;
  drag_offset = pos 0;
  is_animating = false;
  did_drag = false;
  timers = [];
}

module _ (v : View) where
  go_to_next_page-at_page :
      (p : ℕ)
      → p < v.pages_count
      → go_to_next_page v (at_page p) ≡ (slide (offset_next v) turns_next (at_page p), [])
  unfolding go_to_next_page
  go_to_next_page-at_page p h = if_true _ _ (lt→ltb p v.pages_count h)

  go_to_prev_page-at_page :
      (p : ℕ)
      → 1 < p
      → go_to_prev_page v (at_page p) ≡ (slide (offset_prev v) turns_prev (at_page p), [])
  unfolding go_to_prev_page
  go_to_prev_page-at_page p h = if_true _ _ (lt→ltb 1 p h)

  jump-slide :
      (p target : ℕ) (offset : ℤ) (c : Callback)
      → p ≢ target
      → jump target (slide offset c (at_page p)) ≡ record (at_page target) { timers = c ∷ [] }
  jump-slide p target offset c h = if_false _ _ (beq_of_ne p target h)

  -- From a page before the last one, with no animation under way, a jump to the last page during the turn
  -- to the next page ends behind the last page; and from a page behind the first one a jump to the first
  -- page during the turn to the previous page ends on page 0.
  pub run-beyond :
      (p : ℕ)
      → (p < v.pages_count
          → (run v
              (at_page p)
              (goes_next ∷ changes_page v.pages_count ∷ fires 0 ∷ [])).0.current_page
            ≡ pos (suc v.pages_count))
        × (1 < p
            → (run v (at_page p) (goes_prev ∷ changes_page 1 ∷ fires 0 ∷ [])).0.current_page
              ≡ pos 0)
  unfolding step handle_page_change timer_fires call_back
  run-beyond p = (
    λ h.
        ap (λ r. (timer_fires 0 (jump v.pages_count r.0)).0.current_page)
          (go_to_next_page-at_page p h)
        ∙ ap (λ s. (timer_fires 0 s).0.current_page)
            (jump-slide p v.pages_count (offset_next v) turns_next (λ e. absurd (omega arith))),
    λ h.
        ap (λ r. (timer_fires 0 (jump 1 r.0)).0.current_page) (go_to_prev_page-at_page p h)
        ∙ ap (λ s. (timer_fires 0 s).0.current_page)
            (jump-slide p 1 (offset_prev v) turns_prev (λ e. absurd (omega arith))),
  )
