-- ===== src/ReadingCta.antt =====
-- web/src/utils/readingCta.ts: which chapter the reading button of a manga opens, and at which page.
pub mod Finding
pub mod Picking
pub mod Choice
mod Tests
use kiyomi.Base.{
  ℕ, suc, Bool, true, false, not, ◌&&◌, ◌||◌, String, Option, none, some, List, [], ◌∷◌, length,
  drop, filter_by, find, find_index, last?, ltb, is_blank, truthy, and_then, ◌<|>◌, ◌otherwise◌,
  ◌==◌, ℕ_eq, String_eq, if◌then◌else◌,
}
use kiyomi.Base.Int.{ℤ, pos, ◌-ℤ◌}
use kiyomi.Base.Sort.{sort}
use kiyomi.Base.Text.{ℕ_text}
use kiyomi.Api.{Chapter, Manga}
use kiyomi.Api.Numbers.{number_text, ◌+text◌}

pub data CtaType : Type 0 where
  start resume next reread : CtaType

pub record ReadingCtaInfo : Type 0 where
  pub label : String
  pub chapter_id : String
  pub page : ℕ
  pub is_resume : Bool
  pub is_completed : Bool
  pub kind : CtaType

unfoldable pub get_is_read : Chapter → Bool
get_is_read c =
    truthy c.is_read || truthy c.is_read_camel || truthy (and_then c.meta (λ m. m.is_read))

unfoldable pub get_last_page : Chapter → ℕ
get_last_page c =
    c.last_read_page <|> c.last_read_page_camel <|> and_then c.meta (λ m. m.last_read_page)
    otherwise 0

-- The second argument: an id, a manga, or nothing.
pub data LastRead : Type 0 where
  by_id : String → LastRead
  by_manga : Manga → LastRead
  nothing : LastRead

unfoldable pub last_read_chapter_id : LastRead → Option String
last_read_chapter_id (by_id id) = some id
last_read_chapter_id (by_manga m) =
    m.user_state.last_read_chapter_id <|> m.last_read_chapter_id_camel <|> m.last_read_chapter_id
last_read_chapter_id nothing = none

-- An empty id counts as none.
unfoldable pub last_read_chapter : List Chapter → LastRead → Option Chapter
unfolding last_read_chapter_id
last_read_chapter chapters last_read = elim (last_read_chapter_id last_read) [
  | none ↦ none
  | some id ↦ if is_blank id then none else find (λ c. c.id == id) chapters
]

-- `(a.number ?? 0) - (b.number ?? 0)`
unfoldable pub by_number : Chapter → Chapter → ℤ
by_number a b = (a.number otherwise pos 0) -ℤ (b.number otherwise pos 0)

unfoldable pub is_in_progress : Chapter → Bool
is_in_progress c = not (get_is_read c) && ltb 1 (get_last_page c)

abbrev keep_if {ℓ} : {A : Type ℓ} → (A → Bool) → Option A → Option A
keep_if p none = none
keep_if p (some a) = if p a then some a else none

-- The last-read chapter if it is in progress, else the last one in progress.
unfoldable pub in_progress_chapter : List Chapter → Option Chapter → Option Chapter
unfolding is_in_progress
in_progress_chapter sorted last =
    keep_if is_in_progress last <|> last? (filter_by is_in_progress sorted)

-- The first unread chapter behind the given one.
unfoldable pub unread_after : List Chapter → Chapter → Option Chapter
unread_after sorted c =
    and_then (find_index (λ d. d.id == c.id) sorted)
      (λ i. find (λ d. not (get_is_read d)) (drop (suc i) sorted))

unfoldable pub next_chapter : List Chapter → Option Chapter → Option Chapter
unfolding unread_after
next_chapter sorted last =
    and_then (keep_if get_is_read last) (unread_after sorted)
    <|> and_then (last? (filter_by get_is_read sorted)) (unread_after sorted)
    <|> find (λ c. not (get_is_read c)) sorted

-- The four results.
abbrev chapter_number : Chapter → String
chapter_number c = number_text (c.number otherwise pos 1000)

unfoldable pub resume_info : Chapter → ReadingCtaInfo
resume_info c =
    let last_page : ℕ = if get_last_page c == 0 then 1 else get_last_page c in
    record {
      kind = resume;
      label = "Resume Ch. " +text chapter_number c +text " (p. " +text ℕ_text last_page +text ")";
      chapter_id = c.id;
      page = last_page;
      is_resume = true;
      is_completed = false;
    }

unfoldable pub start_info : Chapter → ReadingCtaInfo
start_info first = record {
  kind = start;
  label = "Start Reading";
  chapter_id = first.id;
  page = 1;
  is_resume = false;
  is_completed = false;
}

unfoldable pub reread_info : Chapter → ReadingCtaInfo
reread_info first = record {
  kind = reread;
  label = "Re-read Ch. " +text chapter_number first;
  chapter_id = first.id;
  page = 1;
  is_resume = false;
  is_completed = true;
}

unfoldable pub next_info : Chapter → ReadingCtaInfo
next_info c = record {
  kind = next;
  label = "Read Ch. " +text chapter_number c;
  chapter_id = c.id;
  page = 1;
  is_resume = false;
  is_completed = false;
}

unfoldable pub info_of_read : List Chapter → Chapter → Option Chapter → ReadingCtaInfo
info_of_read sorted first last =
    if length (filter_by get_is_read sorted) == 0
    then start_info first
    else if length (filter_by get_is_read sorted) == length sorted
    then reread_info first
    else elim (next_chapter sorted last) [ some c ↦ next_info c | none ↦ start_info first ]

unfoldable pub info_of : List Chapter → Chapter → Option Chapter → ReadingCtaInfo
unfolding info_of_read
info_of sorted first last = elim (in_progress_chapter sorted last) [
  | some c ↦ resume_info c
  | none ↦ info_of_read sorted first last
]

-- `sorted[0]` of a list that is not empty.
unfoldable pub info_of_sorted : List Chapter → Option Chapter → Option ReadingCtaInfo
unfolding info_of
info_of_sorted [] last = none
info_of_sorted (first ∷ rest) last = some (info_of (first ∷ rest) first last)

unfoldable pub get_reading_cta_info : Option (List Chapter) → LastRead → Option ReadingCtaInfo
unfolding info_of_sorted
get_reading_cta_info none last_read = none
get_reading_cta_info (some []) last_read = none
get_reading_cta_info (some (c ∷ cs)) last_read =
    info_of_sorted (sort by_number (c ∷ cs)) (last_read_chapter (c ∷ cs) last_read)
