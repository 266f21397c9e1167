-- ===== src/ReaderScroll.antt =====
-- web/src/hooks/useReaderScrollTracker.ts and web/src/hooks/useReaderFitMode.ts: which page of a strip
-- is in view, and how a page fits. A page element is `none` where there is none; an element is its
-- `getBoundingClientRect().top`, in whole pixels.
pub mod Visible
mod Tests
use kiyomi.Base.{
  ℕ, suc, ◌*◌, ◌-◌, Bool, true, false, ◌||◌, String, Option, none, some, List, [], ◌∷◌, ◌==◌, ℕ_eq,
  String_eq, ◌otherwise◌, get_elem?, is_some, if◌then◌else◌,
}
use kiyomi.Base.Int.{ℤ, pos, negsuc, leb_ℤ}

-- `raf_pending` is whether an animation frame was asked for and has not come.
pub record ScrollTracker : Type 0 where
  pub last_reported_page : ℕ
  pub raf_pending : Bool

unfoldable pub set_reported_page : ℕ → ScrollTracker → ScrollTracker
set_reported_page page s = record s { last_reported_page = page }

-- The scroll listener asks for one frame at a time.
unfoldable pub handle_scroll : Bool → ScrollTracker → ScrollTracker
handle_scroll is_paged s = if is_paged || s.raf_pending then s else record s { raf_pending = true }

-- `rect.top <= window.innerHeight * 0.5`, over whole numbers; without a window the middle is at 400.
abbrev pub double : ℤ → ℤ
double (pos n) = pos (2 * n)
double (negsuc n) = negsuc (suc (2 * n))

abbrev pub is_above_mid : Option ℕ → ℤ → Bool
is_above_mid inner_height top = leb_ℤ (double top) (pos (inner_height otherwise 800))

-- The loop over the page elements, at the index `idx`.
unfoldable pub visible_from : Option ℕ → ℕ → List (Option ℤ) → ℕ → ℕ
visible_from inner_height idx [] visible_page = visible_page
visible_from inner_height idx (none ∷ els) visible_page =
    visible_from inner_height (suc idx) els visible_page
visible_from inner_height idx (some top ∷ els) visible_page =
    visible_from inner_height (suc idx) els
      (if is_above_mid inner_height top then suc idx else visible_page)

abbrev pub visible_page_of : Option ℕ → List (Option ℤ) → ℕ
visible_page_of inner_height els = visible_from inner_height 0 els 1

-- The frame: the new state, and the page that `onPageVisible` is called with.
unfoldable pub on_frame : Option ℕ → ℕ → List (Option ℤ) → ScrollTracker → ScrollTracker × Option ℕ
unfolding visible_from
on_frame inner_height pages_count els s =
    let page = visible_page_of inner_height els in
    let done = record s { raf_pending = false } in
    if pages_count == 0
    then (done, none)
    else if page == s.last_reported_page
    then (done, none)
    else (record done { last_reported_page = page }, some page)

-- The index of the element that `scrollToPage` scrolls to, if there is one.
unfoldable pub scroll_to_page : ℕ → List (Option ℤ) → Option ℕ
scroll_to_page page els =
    if is_some (get_elem? els (page - 1) otherwise none) then some (page - 1) else none

pub data FitMode : Type 0 where
  fit_width fit_height fit_original : FitMode

abbrev pub mode_text : FitMode → String
mode_text fit_width = "fit-width"
mode_text fit_height = "fit-height"
mode_text fit_original = "fit-original"

-- `getStoredFitMode`, of what `localStorage.getItem` answers where there is a window.
unfoldable pub get_stored_fit_mode : Option String → FitMode
get_stored_fit_mode none = fit_height
get_stored_fit_mode (some stored) =
    if stored == "fit-width"
    then fit_width
    else if stored == "fit-height"
    then fit_height
    else if stored == "fit-original"
    then fit_original
    else fit_height

-- The state and what is stored, after `setFitMode`.
unfoldable pub set_fit_mode : FitMode → FitMode × Option String
set_fit_mode mode = (mode, some (mode_text mode))
