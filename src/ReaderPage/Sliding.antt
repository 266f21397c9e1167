-- ===== src/ReaderPage/Sliding.antt =====
-- The bounds of the page of the reader, and that the steps which begin a turn, or jump, keep them.
use mathlib.Core.Path.{subst}
use kiyomi.Base.{
  ℕ, ◌<◌, ◌≤◌, Bool, true, false, List, [], ◌∷◌, ◌≡◌, refl, sym, ap, ◌∙◌, ltb→lt, ℕ_eq, String_eq,
  if◌then◌else◌,
}
use kiyomi.Base.Int.{ℤ, pos}
use kiyomi.ReaderPage.Navigation.{
  View, Reader, Callback, turns_next, turns_prev, opens_next, opens_prev, forgets_drag, Output,
  go_to_next_page, go_to_prev_page, slide, settle, jump, is_page, is_before, is_behind_one,
  has_chapter, offset_next, offset_prev,
}
use kiyomi.ReaderPage.Turns.{is_turn, turns, turns-snoc}

module _ (v : View) where
  -- Where a turn is under way, there is room for it.
  abbrev pub Fits : ℕ → Callback → Type 0
  Fits p turns_next = p < v.pages_count
  Fits p turns_prev = 1 < p
  Fits p c = Unit

  -- An animation is one turn or one spring-back that waits, and without an animation none waits.
  abbrev pub WaitsFor : ℕ → Bool → List Callback → Type 0
  WaitsFor p true ts = (c : Callback) × (ts ≡ c ∷ []) × Fits p c
  WaitsFor p false ts = ts ≡ []

  abbrev pub InBounds : Reader → Type 0
  InBounds s =
      (p : ℕ) × (s.current_page ≡ pos p)
      × (1 ≤ p)
      × (p ≤ v.pages_count)
      × WaitsFor p s.is_animating (turns s.timers)

  pub slide-InBounds :
      (s : Reader) (offset : ℤ) (c : Callback) (p : ℕ)
      → s.current_page ≡ pos p
      → 1 ≤ p
      → p ≤ v.pages_count
      → turns s.timers ≡ []
      → is_turn c ≡ true
      → Fits p c
      → InBounds (slide offset c s)
  slide-InBounds s offset c p at lo hi quiet turn fits =
      (p, at, lo, hi, (c, turns-snoc s.timers c ∙ rw (quiet, turn) refl, fits))

  pub settle-InBounds :
      (s : Reader) (p : ℕ)
      → s.current_page ≡ pos p
      → 1 ≤ p
      → p ≤ v.pages_count
      → turns s.timers ≡ []
      → InBounds (settle s)
  settle-InBounds s p at lo hi quiet =
      (p, at, lo, hi, turns-snoc s.timers forgets_drag ∙ rw quiet refl)

  pub if_InBounds :
      (b : Bool) (x y : Reader × List Output)
      → (b ≡ true → InBounds x.0)
      → (b ≡ false → InBounds y.0)
      → InBounds (if b then x else y).0
  if_InBounds true x y f g = f refl
  if_InBounds false x y f g = g refl

  pub quiet_of :
      (s : Reader) (p : ℕ)
      → s.is_animating ≡ false
      → WaitsFor p s.is_animating (turns s.timers)
      → turns s.timers ≡ []
  quiet_of s p idle w = subst (λ b. WaitsFor p b (turns s.timers)) idle w

  pub if_reader-InBounds :
      (b : Bool) (x y : Reader)
      → (b ≡ true → InBounds x)
      → (b ≡ false → InBounds y)
      → InBounds (if b then x else y)
  if_reader-InBounds true x y f g = f refl
  if_reader-InBounds false x y f g = g refl

  -- A jump without an animation.
  pub jump-InBounds :
      (s : Reader) (target : ℕ)
      → s.is_animating ≡ false
      → 1 ≤ target
      → target ≤ v.pages_count
      → InBounds s
      → InBounds (jump target s)
  jump-InBounds s target idle lo hi (p, at, l, h, w) =
      if_reader-InBounds (is_page s.current_page target) s _ (λ e. (p, at, l, h, w))
        (λ e. (target, refl, lo, hi, quiet_of s p idle w))

  pub go_to_next_page-InBounds : (s : Reader) → InBounds s → InBounds (go_to_next_page v s).0
  unfolding go_to_next_page
  go_to_next_page-InBounds s (p, at, lo, hi, w) =
      if_InBounds s.is_animating _ _ (λ busy. (p, at, lo, hi, w))
        (λ idle.
          if_InBounds (is_before s.current_page v.pages_count) _ _
            (λ room.
              slide-InBounds s (offset_next v) turns_next p at lo hi (quiet_of s p idle w) refl
                (ltb→lt p v.pages_count (sym (ap (λ n. is_before n v.pages_count) at) ∙ room)))
            (λ full.
              if_InBounds (has_chapter v.next_chapter) _ _
                (λ more.
                  slide-InBounds s (offset_next v) (opens_next v) p at lo hi (quiet_of s p idle w)
                    refl tt)
                (λ end. (p, at, lo, hi, w))))

  pub go_to_prev_page-InBounds : (s : Reader) → InBounds s → InBounds (go_to_prev_page v s).0
  unfolding go_to_prev_page
  go_to_prev_page-InBounds s (p, at, lo, hi, w) =
      if_InBounds s.is_animating _ _ (λ busy. (p, at, lo, hi, w))
        (λ idle.
          if_InBounds (is_behind_one s.current_page) _ _
            (λ room.
              slide-InBounds s (offset_prev v) turns_prev p at lo hi (quiet_of s p idle w) refl
                (ltb→lt 1 p (sym (ap is_behind_one at) ∙ room)))
            (λ first.
              if_InBounds (has_chapter v.prev_chapter) _ _
                (λ more.
                  slide-InBounds s (offset_prev v) (opens_prev v) p at lo hi (quiet_of s p idle w)
                    refl tt)
                (λ end. (p, at, lo, hi, w))))
