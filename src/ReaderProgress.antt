-- ===== src/ReaderProgress.antt =====
-- web/src/hooks/useReaderProgressTracker.ts: where a chapter is resumed, when progress is saved, and
-- when a chapter is marked as read. The refs and the state of the hook are one record. An effect is
-- a function that gives the new record and the calls of `onUpdateProgress`, `onScrollToPage` and
-- `window.scrollTo` that it makes. React runs the cleanup, then the effects in their order, each
-- with the values of the render: the page of a commit is the page that was rendered. The callbacks
-- are given; a scroll that `setTimeout(…, 0)` puts off counts as a call of the effect.
pub mod Resuming
pub mod Marking
pub mod Pending
pub mod Stale
mod Tests
use kiyomi.Base.{
  ℕ, suc, Bool, true, false, not, ◌&&◌, ◌||◌, String, Option, none, some, List, [], ◌∷◌, ◌++◌, ltb,
  min, max, is_blank, ◌otherwise◌, ◌==◌, ℕ_eq, String_eq, if◌then◌else◌,
}
use kiyomi.Base.Int.{ℤ, pos, negsuc}

-- `searchPage`: not given (or empty), `'last'`, what `Number(…)` makes an integer of, or no number.
pub data SearchPage : Type 0 where
  absent last not_a_number : SearchPage
  number : ℤ → SearchPage

pub record Options : Type 0 where
  pub effective_manga_id : Option String
  pub chapter_id : String
  pub chapter_provider_id : Option String
  pub pages_count : ℕ
  pub is_paged : Bool
  pub is_chapter_read : Bool
  pub chapter_last_read_page : ℕ
  pub search_page : SearchPage
  pub has_next_chapter : Bool
  pub user_status : Option String

-- The argument of `onUpdateProgress`.
pub record Update : Type 0 where
  pub manga_id : String
  pub chapter_id : String
  pub provider_id : Option String
  pub is_read : Option Bool
  pub last_read_page : Option ℕ

pub data Output : Type 0 where
  update : Update → Output
  scroll_to_page : ℕ → Output
  scroll_to_top : Output

-- `save_timeout` is what the pending timer will send; `none` where it was cleared or has fired. Each
-- `setTimeout` of the hook comes behind a `clearTimeout` of the one before, so one timer is enough.
pub record Tracker : Type 0 where
  pub current_page : ℕ
  pub show_completion_dialog : Bool
  pub active_chapter_id : Option String
  pub has_marked_read : Bool
  pub has_resumed : Bool
  pub has_dismissed_completion : Bool
  pub save_timeout : Option Update

abbrev pub initial : Tracker
initial = record {
  current_page = 1;
  show_completion_dialog = false;
  active_chapter_id = none;
  has_marked_read = false;
  has_resumed = false;
  has_dismissed_completion = false;
  save_timeout = none;
}

abbrev pub is_active : Option String → String → Bool
is_active none id = false
is_active (some active) id = active == id

-- The effect that notices another chapter.
unfoldable pub reset_effect : Options → Tracker → Tracker
reset_effect o s = if is_active s.active_chapter_id o.chapter_id then s else record s {
  active_chapter_id = some o.chapter_id;
  has_marked_read = o.is_chapter_read;
  has_resumed = false;
  has_dismissed_completion = false;
  save_timeout = none;
}

-- `Math.min(Math.max(1, page), pagesCount)`
abbrev pub clamp : ℤ → ℕ → ℕ
clamp (pos n) pages_count = min (max 1 n) pages_count
clamp (negsuc n) pages_count = min 1 pages_count

-- The branches that do not look at the address.
abbrev pub saved_page : Options → ℕ
saved_page o =
    if not o.is_chapter_read && ltb 1 o.chapter_last_read_page
    then clamp (pos o.chapter_last_read_page) o.pages_count
    else 1

abbrev pub page_of_search : Options → SearchPage → ℕ
page_of_search o last = o.pages_count
page_of_search o (number n) = clamp n o.pages_count
page_of_search o absent = saved_page o
page_of_search o not_a_number = saved_page o

unfoldable pub target_resume_page : Options → ℕ
target_resume_page o = page_of_search o o.search_page

-- The effect that restores the reading position.
unfoldable pub restore_effect : Options → Tracker → Tracker × List Output
unfolding target_resume_page
restore_effect o s =
    let target = target_resume_page o in
    let scroll = if ltb 1 target then scroll_to_page target else scroll_to_top in
    if is_blank o.chapter_id || o.pages_count == 0 || s.has_resumed then (s, []) else (
      record s { has_resumed = true; current_page = target },
      if o.is_paged then [] else scroll ∷ [],
    )

abbrev pub progress : Options → String → Option Bool → Option ℕ → Update
progress o manga_id is_read last_read_page = record {
  manga_id = manga_id;
  chapter_id = o.chapter_id;
  provider_id = o.chapter_provider_id;
  is_read = is_read;
  last_read_page = last_read_page;
}

abbrev pub is_reading : Options → Bool
is_reading o = (o.user_status otherwise "") == "reading"

-- The branch of the last page.
unfoldable pub on_last_page : Options → String → ℕ → Tracker → Tracker × List Output
on_last_page o manga_id page s =
    let asks = not o.has_next_chapter && not s.has_dismissed_completion && is_reading o in
    if s.has_marked_read then (record s { save_timeout = none }, []) else (
      record s {
        save_timeout = none;
        has_marked_read = true;
        has_dismissed_completion = s.has_dismissed_completion || asks;
        show_completion_dialog = s.show_completion_dialog || asks;
      },
      update (progress o manga_id (some true) (some page)) ∷ [],
    )

-- The effect that saves and marks, at the page that was rendered.
unfoldable pub save_effect : Options → ℕ → Tracker → Tracker × List Output
unfolding on_last_page
save_effect o page s =
    let manga_id = o.effective_manga_id otherwise "" in
    if is_blank manga_id || is_blank o.chapter_id || o.pages_count == 0 || not s.has_resumed
    then (s, [])
    else if page == o.pages_count
    then on_last_page o manga_id page s
    else (record s { save_timeout = some (progress o manga_id none (some page)) }, [])

-- The cleanup of the effect above.
abbrev pub cleanup : Tracker → Tracker
cleanup s = record s { save_timeout = none }

-- Which effects have a dependency that changed.
pub record Changed : Type 0 where
  pub reset : Bool
  pub restore : Bool
  pub save : Bool

abbrev pub then_run :
    Bool → (Tracker → Tracker × List Output) → Tracker × List Output → Tracker × List Output
then_run run effect (s, out) = if run then ((effect s).0, out ++ (effect s).1) else (s, out)

-- The cleanup and the effect that resets.
unfoldable pub prepared : Changed → Options → Tracker → Tracker
unfolding reset_effect
prepared c o s =
    let cleaned = if c.save then cleanup s else s in
    if c.reset then reset_effect o cleaned else cleaned

unfoldable pub restored : Changed → Options → Tracker → Tracker × List Output
restored c o s = then_run c.restore (restore_effect o) (prepared c o s, [])

-- One commit of the component.
unfoldable pub commit : Changed → Options → Tracker → Tracker × List Output
commit c o s = then_run c.save (save_effect o s.current_page) (restored c o s)

-- `markChapterRead`
unfoldable pub mark_chapter_read : Options → Option ℕ → Tracker → Tracker × List Output
mark_chapter_read o last_read_page s =
    let manga_id = o.effective_manga_id otherwise "" in
    if is_blank manga_id || is_blank o.chapter_id then (s, []) else (
      record s { has_marked_read = true },
      update (progress o manga_id (some true) last_read_page) ∷ [],
    )

-- The timer's callback.
abbrev pub sent : Option Update → List Output
sent none = []
sent (some u) = update u ∷ []

unfoldable pub timer_fires : Tracker → Tracker × List Output
timer_fires s = (record s { save_timeout = none }, sent s.save_timeout)

pub data Event : Type 0 where
  commits : Changed → Options → Event
  sets_page : ℕ → Event
  sets_dialog : Bool → Event
  marks : Options → Option ℕ → Event
  fires unmounts : Event

unfoldable pub step : Tracker → Event → Tracker × List Output
step s (commits c o) = commit c o s
step s (sets_page page) = (record s { current_page = page }, [])
step s (sets_dialog shown) = (record s { show_completion_dialog = shown }, [])
step s (marks o last_read_page) = mark_chapter_read o last_read_page s
step s fires = timer_fires s
step s unmounts = (cleanup s, [])

-- A sequence of events, and the calls made on the way.
abbrev pub run : Tracker → List Event → Tracker × List Output
run s [] = (s, [])
run s (e ∷ es) = let rest = run (step s e).0 es in (rest.0, (step s e).1 ++ rest.1)
