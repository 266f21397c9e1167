-- ===== src/ChapterFilters/Pages.antt =====
-- The pages of useChapterFilters.ts.
use native.Mathlib.Nat.{mul-le-mul_right}
use kiyomi.Base.{
  ℕ, zero, suc, ◌+◌, ◌-◌, ◌*◌, ◌/◌, ◌%◌, ◌≤◌, ◌<◌, max, List, [], ◌∷◌, ◌++◌, ◌≡◌, refl, sym, ap,
  ◌∙◌, arith, ℕ_eq, length, take, drop, slice, length-take, length-drop,
}
use kiyomi.Api.{Chapter}
use kiyomi.ChapterFilters.{total_pages, safe_page, paginated_chapters}

-- The page that is shown is one of the pages that there are, the first if there are none.
pub safe_page_bounds :
    (total page : ℕ) → (1 ≤ safe_page total page) × (safe_page total page ≤ max 1 total)
unfolding safe_page
safe_page_bounds total page = (ground arith, ground arith)

safe_page_self : (total page : ℕ) → 1 ≤ page → page ≤ total → safe_page total page ≡ page
unfolding safe_page
safe_page_self total page low high = ground arith

-- Just enough pages.
total_pages_bounds :
    (page_size count : ℕ)
    → 0 < page_size
    → (count ≤ total_pages page_size count * page_size)
      × (total_pages page_size count * page_size < count + page_size)
unfolding total_pages
total_pages_bounds page_size count h =
    let n = count + (page_size - 1) in
    let split : n / page_size * page_size + n % page_size ≡ n = grind arith in
    let rest : n % page_size < page_size = omega arith in (omega arith, omega arith)

take-nil {ℓ} : {A : Type ℓ} (n : ℕ) → take {A = A} n [] ≡ []
take-nil zero = refl
take-nil (suc n) = refl

take-add {ℓ} :
    {A : Type ℓ} (n m : ℕ) (xs : List A) → take n xs ++ take m (drop n xs) ≡ take (n + m) xs
take-add zero m xs = ap (λ k. take k xs) (omega arith)
take-add (suc n) m [] = take-nil m ∙ sym (take-nil (suc n + m))
take-add (suc n) m (x ∷ xs) =
    let e : suc n + m ≡ suc (n + m) = omega arith in rw e (ap (λ ys. x ∷ ys) (take-add n m xs))

take_of_length-le {ℓ} : {A : Type ℓ} (n : ℕ) (xs : List A) → length xs ≤ n → take n xs ≡ xs
take_of_length-le zero [] h = refl
take_of_length-le zero (x ∷ xs) h = absurd (omega arith)
take_of_length-le (suc n) [] h = refl
take_of_length-le (suc n) (x ∷ xs) h = ap (λ ys. x ∷ ys) (take_of_length-le n xs (omega arith))

-- The first `n` pages, one after the other.
abbrev pub first_pages : ℕ → ℕ → List Chapter → List Chapter
first_pages page_size zero filtered = []
first_pages page_size (suc n) filtered =
    first_pages page_size n filtered ++ paginated_chapters page_size (suc n) filtered

paginated_chapters-page :
    (page_size n : ℕ) (filtered : List Chapter)
    → n < total_pages page_size (length filtered)
    → paginated_chapters page_size (suc n) filtered ≡ take page_size (drop (n * page_size) filtered)
unfolding paginated_chapters
paginated_chapters-page page_size n filtered h =
    let total = total_pages page_size (length filtered) in
    let e : safe_page total (suc n) ≡ suc n = safe_page_self total (suc n) (omega arith) h in
    let start : (suc n - 1) * page_size ≡ n * page_size = ap (λ k. k * page_size) (omega arith) in
    let size : suc n * page_size - n * page_size ≡ page_size = omega arith in
    rw (e, start, size) refl

first_pages-take :
    (page_size n : ℕ) (filtered : List Chapter)
    → n ≤ total_pages page_size (length filtered)
    → first_pages page_size n filtered ≡ take (n * page_size) filtered
first_pages-take page_size zero filtered h =
    let e : ◌≡◌ {A = ℕ} 0 (zero * page_size) = omega arith in ap (λ k. take k filtered) e
first_pages-take page_size (suc n) filtered h =
    let e : n * page_size + page_size ≡ suc n * page_size = omega arith in
    rw
      (
        first_pages-take page_size n filtered (omega arith),
        paginated_chapters-page page_size n filtered h,
        take-add (n * page_size) page_size filtered,
      )
      (ap (λ k. take k filtered) e)

-- With a page size that is not 0, the pages from the first to the last show every chapter once, in
-- order.
pub first_pages-all :
    (page_size : ℕ) (filtered : List Chapter)
    → 0 < page_size
    → first_pages page_size (total_pages page_size (length filtered)) filtered ≡ filtered
first_pages-all page_size filtered h =
    first_pages-take page_size (total_pages page_size (length filtered)) filtered (omega arith)
    ∙ take_of_length-le _ filtered (total_pages_bounds page_size (length filtered) h).0

paginated_chapters-slice :
    (page_size page : ℕ) (filtered : List Chapter)
    → paginated_chapters page_size page filtered
      ≡ slice
          ((safe_page (total_pages page_size (length filtered)) page - 1) * page_size)
          (safe_page (total_pages page_size (length filtered)) page * page_size)
          filtered
unfolding paginated_chapters
paginated_chapters-slice page_size page filtered = refl

page_start-lt :
    (page_size n total count : ℕ)
    → suc n ≤ max 1 total
    → total * page_size < count + page_size
    → 0 < count
    → n * page_size < count
page_start-lt page_size zero total count high enough some_row = omega arith
page_start-lt page_size (suc n) total count high enough some_row =
    let e : suc (suc n) ≤ total = omega arith in
    let m : suc (suc n) * page_size ≤ total * page_size = mul-le-mul_right page_size e in
    omega arith

slice_size :
    (page_size s total : ℕ) (filtered : List Chapter)
    → 0 < page_size
    → 1 ≤ s
    → s ≤ max 1 total
    → total * page_size < length filtered + page_size
    → (length (slice ((s - 1) * page_size) (s * page_size) filtered) ≤ page_size)
      × (0 < length filtered → 0 < length (slice ((s - 1) * page_size) (s * page_size) filtered))
slice_size page_size zero total filtered pos low high enough = absurd (omega arith)
slice_size page_size (suc n) total filtered pos low high enough =
    let start : (suc n - 1) * page_size ≡ n * page_size = ap (λ k. k * page_size) (omega arith) in
    let size : suc n * page_size - n * page_size ≡ page_size = omega arith in
    let size_of_take = length-take page_size (drop (n * page_size) filtered) in
    let size_of_drop = length-drop (n * page_size) filtered in
    rw (start, size)
      (
        omega (arith, size_of_take),
        λ some_row. omega (
          arith,
          size_of_take,
          size_of_drop,
          page_start-lt page_size n total (length filtered) high enough some_row,
        ),
      )

-- With a page size that is not 0, whatever page is asked for, the page that is shown holds at most
-- `page_size` chapters, and at least one if there are any.
pub paginated_chapters_size :
    (page_size page : ℕ) (filtered : List Chapter)
    → 0 < page_size
    → (length (paginated_chapters page_size page filtered) ≤ page_size)
      × (0 < length filtered → 0 < length (paginated_chapters page_size page filtered))
paginated_chapters_size page_size page filtered h =
    let total = total_pages page_size (length filtered) in
    let (low, high) = safe_page_bounds total page in
    rw paginated_chapters-slice (
      slice_size page_size (safe_page total page) total filtered h low high
        (total_pages_bounds page_size (length filtered) h).1)
