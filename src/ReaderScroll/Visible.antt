-- ===== src/ReaderScroll/Visible.antt =====
-- The page in view is the last one that begins above the middle.
use kiyomi.Base.{
  ℕ, suc, ◌+◌, ◌≤◌, true, false, Option, none, some, List, ◌≡◌, ◌≢◌, ◌⊎◌, ◌↔◌, ne_of_beq, inl, inr,
  refl, sym, ap, ◌∙◌, arith, get_elem?, Bool-cases, ◌==◌, ℕ_eq, eq_of_beq, beq_refl,
}
use kiyomi.Base.Int.{ℤ}
use kiyomi.ReaderScroll.{
  ScrollTracker, is_above_mid, visible_page_of, on_frame, FitMode, fit_width, fit_height,
  fit_original, get_stored_fit_mode, set_fit_mode,
}

-- The element at an index is there and begins above the middle.
abbrev pub IsAbove : Option ℕ → List (Option ℤ) → ℕ → Type 0
IsAbove inner els i =
    (top : ℤ) × (get_elem? els i ≡ some (some top)) × (is_above_mid inner top ≡ true)

-- `page` is the last of the elements above the middle, or `first` if there is none. The elements stand
-- from the index `idx` on.
abbrev pub IsLastAbove : Option ℕ → ℕ → List (Option ℤ) → ℕ → ℕ → Type 0
IsLastAbove inner idx els first page =
    ((page ≡ first) ⊎ ((i : ℕ) × (page ≡ suc (idx + i)) × IsAbove inner els i))
    × ((i : ℕ) → IsAbove inner els i → suc (idx + i) ≤ page)

-- A frame reports a page exactly if there are pages and the page in view is not the one reported
-- last; then it is the one in view. After a frame the next scroll asks for another one, and a second
-- frame on the same elements reports nothing.
pub on_frame-reports :
    (inner : Option ℕ) (pages_count page : ℕ) (els : List (Option ℤ)) (s : ScrollTracker)
    → (((on_frame inner pages_count els s).1 ≡ some page)
        ↔ ((pages_count ≢ 0) × (page ≡ visible_page_of inner els) × (page ≢ s.last_reported_page)))
      × ((on_frame inner pages_count els s).0.raf_pending ≡ false)
      × ((on_frame inner pages_count els (on_frame inner pages_count els s).0).1 ≡ none)
unfolding on_frame
on_frame-reports inner pages_count page els s = elim (Bool-cases (pages_count == 0)) [
  | inl z ↦ rw z (
    (λ h. cc, λ (some_pages, same, other). absurd (some_pages (eq_of_beq pages_count 0 z))),
    refl,
    refl,
  )
  | inr z ↦ elim (Bool-cases (visible_page_of inner els == s.last_reported_page)) [
    | inl e ↦
        rw (z, e)
          (
            (λ h. cc, λ (some_pages, same, other). absurd (other (same ∙ eq_of_beq _ _ e))),
            refl,
            rw e refl,
          )
    | inr e ↦
        rw (z, e, beq_refl (visible_page_of inner els))
          (
            (
              λ h.
                  let same : visible_page_of inner els ≡ page = ground arith in
                  (ne_of_beq pages_count 0 z, sym same, λ q. ne_of_beq _ _ e (same ∙ q)),
              λ (some_pages, same, other). ap some (sym same),
            ),
            refl,
            refl,
          )
  ]
]

-- What `setFitMode` stores is read back as the mode that was set.
pub set_fit_mode-stored :
    (mode : FitMode) → get_stored_fit_mode (set_fit_mode mode).1 ≡ (set_fit_mode mode).0
unfolding get_stored_fit_mode set_fit_mode
set_fit_mode-stored fit_width = refl
set_fit_mode-stored fit_height = refl
set_fit_mode-stored fit_original = refl
