-- ===== src/ReaderScroll/Tests.antt =====
-- Runs of useReaderScrollTracker.ts, and the theorems at concrete pages.
use kiyomi.Base.{true, Option, none, some, List, [], ◌∷◌, ◌≡◌, refl}
use kiyomi.Base.Int.{ℤ, pos, negsuc}
use kiyomi.ReaderScroll.{ScrollTracker, on_frame}

abbrev tops : List (Option ℤ)
tops = some (negsuc 899) ∷ none ∷ some (pos 300) ∷ some (pos 1200) ∷ []

abbrev at_first : ScrollTracker
at_first = record { last_reported_page = 1; raf_pending = true }

reports_page_three : (on_frame (some 800) 4 tops at_first).1 ≡ some 3
unfolding on_frame
reports_page_three = refl
