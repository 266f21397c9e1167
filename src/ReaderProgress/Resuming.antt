-- ===== src/ReaderProgress/Resuming.antt =====
-- Where useReaderProgressTracker.ts resumes a chapter.
use kiyomi.Base.{
  ℕ, ◌≤◌, ◌<◌, true, false, not, ◌&&◌, [], inl, inr, ◌≡◌, refl, arith, ltb, is_blank, Bool-cases,
  beq_of_ne, ◌==◌, ℕ_eq, String_eq, if◌then◌else◌,
}
use kiyomi.Base.Int.{ℤ, pos, negsuc}
use kiyomi.ReaderProgress.{
  SearchPage, absent, last, not_a_number, number, Options, Tracker, clamp, saved_page,
  page_of_search, target_resume_page, restore_effect,
}

abbrev pub IsPage : ℕ → ℕ → Type 0
IsPage page pages_count = (1 ≤ page) × (page ≤ pages_count)

clamp-IsPage :
    (n : ℤ) (pages_count : ℕ) → 0 < pages_count → IsPage (clamp n pages_count) pages_count
clamp-IsPage (pos n) pages_count h = (omega arith, omega arith)
clamp-IsPage (negsuc n) pages_count h = (omega arith, omega arith)

saved_page-IsPage : (o : Options) → 0 < o.pages_count → IsPage (saved_page o) o.pages_count
saved_page-IsPage o h =
    elim (Bool-cases (not o.is_chapter_read && ltb 1 o.chapter_last_read_page)) [
      | inl e ↦ rw e (clamp-IsPage (pos o.chapter_last_read_page) o.pages_count h)
      | inr e ↦ rw e (omega arith, omega arith)
    ]

page_of_search-IsPage :
    (o : Options) (p : SearchPage) → 0 < o.pages_count → IsPage (page_of_search o p) o.pages_count
page_of_search-IsPage o absent h = saved_page-IsPage o h
page_of_search-IsPage o not_a_number h = saved_page-IsPage o h
page_of_search-IsPage o last h = (omega arith, omega arith)
page_of_search-IsPage o (number n) h = clamp-IsPage n o.pages_count h

-- A chapter with pages is resumed at one of its pages, whatever the address and the saved progress
-- say.
pub target_resume_page-IsPage :
    (o : Options) → 0 < o.pages_count → IsPage (target_resume_page o) o.pages_count
unfolding target_resume_page
target_resume_page-IsPage o h = page_of_search-IsPage o o.search_page h

-- What the effect does to a chapter that has an id and pages.
pub restore_effect-page :
    (o : Options) (s : Tracker)
    → is_blank o.chapter_id ≡ false
    → 0 < o.pages_count
    → ((restore_effect o s).0.has_resumed ≡ true)
      × ((restore_effect o s).0.current_page
          ≡ (if s.has_resumed then s.current_page else target_resume_page o))
unfolding restore_effect
restore_effect-page o s named h =
    let some_pages : (o.pages_count == 0) ≡ false = beq_of_ne o.pages_count 0 (λ e. omega arith) in
    elim (Bool-cases s.has_resumed) [
      | inl e ↦ rw (named, some_pages, e) (refl, refl)
      | inr e ↦ rw (named, some_pages, e) (refl, refl)
    ]

resumed-restore_effect :
    (o : Options) (s : Tracker) → s.has_resumed ≡ true → restore_effect o s ≡ (s, [])
unfolding restore_effect
resumed-restore_effect o s e = elim (Bool-cases (is_blank o.chapter_id)) [
  | inl b ↦ rw b refl
  | inr b ↦ elim (Bool-cases (o.pages_count == 0)) [
    | inl z ↦ rw (b, z) refl
    | inr z ↦ rw (b, z, e) refl
  ]
]

-- The reading position is restored once: after the effect has run for a chapter with an id and
-- pages, it changes nothing and scrolls nowhere, whatever the next render brings.
pub restore_effect-once :
    (o next : Options) (s : Tracker)
    → is_blank o.chapter_id ≡ false
    → 0 < o.pages_count
    → restore_effect next (restore_effect o s).0 ≡ ((restore_effect o s).0, [])
restore_effect-once o next s named h =
    resumed-restore_effect next (restore_effect o s).0 (restore_effect-page o s named h).0
