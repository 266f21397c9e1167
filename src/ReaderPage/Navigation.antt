-- ===== src/ReaderPage/Navigation.antt =====
-- How the reader turns pages and goes to other chapters. A turn is an animation: a timer changes the page
-- at its end. The state is what the handlers change, with the timers that run, each with the values of the
-- render that set it.
use kiyomi.Base.{
  ℕ, zero, suc, Bool, true, false, not, String, Option, none, some, List, [], ◌∷◌, ◌++◌, get_elem?,
  ltb, is_blank, ◌==◌, ℕ_eq, String_eq, if◌then◌else◌,
}
use kiyomi.Base.Int.{ℤ, pos, negsuc, negate}
use kiyomi.EditMetadata.{without_index}
use kiyomi.DetailsManga.{both_given}
use kiyomi.ReaderPage.{is_paged_mode}

-- The values of a render that the handlers use; the ids of the chapters around are blank where there are
-- none.
pub record View : Type 0 where
  pub manga_id : String
  pub provider_id : String
  pub remote_id : String
  pub pages_count : ℕ
  pub next_chapter : Option String
  pub prev_chapter : Option String
  pub reading_mode : String
  pub container_width : ℕ

-- What a timer does: the last one is the timer of the gesture hook at the end of a spring-back.
pub data Callback : Type 0 where
  turns_next turns_prev : Callback
  opens_next opens_prev : View → Callback
  forgets_drag spring_ends : Callback

pub record Reader : Type 0 where
  pub current_page : ℤ
  pub drag_offset : ℤ
  pub is_animating : Bool
  pub did_drag : Bool
  pub timers : List Callback

-- The routes that show a chapter.
pub data Destination : Type 0 where
  manga_chapter : String → String → Destination
  provider_chapter : String → String → String → Destination
  reader_chapter : String → Destination

pub data TargetPage : Type 0 where
  page : ℕ → TargetPage
  last : TargetPage

pub data Output : Type 0 where
  navigates : Destination → Option TargetPage → Output
  marks_read replaces_page scrolls_to : ℕ → Output
  scrolls_to_top : Output

unfoldable pub handle_select_chapter : View → String → Option TargetPage → List Output
handle_select_chapter v target target_page =
    if not (is_blank v.manga_id)
    then navigates (manga_chapter v.manga_id target) target_page ∷ []
    else if both_given v.provider_id v.remote_id
    then navigates (provider_chapter v.provider_id v.remote_id target) target_page ∷ []
    else navigates (reader_chapter target) target_page ∷ []

unfoldable pub handle_prev_chapter : View → List Output
handle_prev_chapter v = elim v.prev_chapter [
  | none ↦ []
  | some id ↦ handle_select_chapter v id (some last)
]

unfoldable pub handle_next_chapter : View → List Output
handle_next_chapter v =
    marks_read v.pages_count
    ∷ elim v.next_chapter [ none ↦ [] | some id ↦ handle_select_chapter v id none ]

abbrev pub has_chapter : Option String → Bool
has_chapter none = false
has_chapter (some id) = true

-- `page + 1`, `page - 1`, `page < count` and `page > 1`.
abbrev pub next_number : ℤ → ℤ
next_number (pos n) = pos (suc n)
next_number (negsuc zero) = pos 0
next_number (negsuc (suc n)) = negsuc n

abbrev pub prev_number : ℤ → ℤ
prev_number (pos zero) = negsuc 0
prev_number (pos (suc n)) = pos n
prev_number (negsuc n) = negsuc (suc n)

abbrev pub is_before : ℤ → ℕ → Bool
is_before (pos n) count = ltb n count
is_before (negsuc n) count = true

abbrev pub is_behind_one : ℤ → Bool
is_behind_one (pos n) = ltb 1 n
is_behind_one (negsuc n) = false

abbrev pub is_page : ℤ → ℕ → Bool
is_page (pos n) target = n == target
is_page (negsuc n) target = false

-- Where the page slides, to the next and to the previous one.
abbrev pub offset_next : View → ℤ
offset_next v =
    if v.reading_mode == "rtl" then pos v.container_width else negate (pos v.container_width)

abbrev pub offset_prev : View → ℤ
offset_prev v =
    if v.reading_mode == "rtl" then negate (pos v.container_width) else pos v.container_width

abbrev pub slide : ℤ → Callback → Reader → Reader
slide offset callback s = record s {
  is_animating = true;
  drag_offset = offset;
  timers = s.timers ++ callback ∷ [];
}

unfoldable pub go_to_next_page : View → Reader → Reader × List Output
go_to_next_page v s =
    if s.is_animating
    then (s, [])
    else if is_before s.current_page v.pages_count
    then (slide (offset_next v) turns_next s, [])
    else if has_chapter v.next_chapter
    then (slide (offset_next v) (opens_next v) s, marks_read v.pages_count ∷ [])
    else (s, marks_read v.pages_count ∷ [])

unfoldable pub go_to_prev_page : View → Reader → Reader × List Output
go_to_prev_page v s =
    if s.is_animating
    then (s, [])
    else if is_behind_one s.current_page
    then (slide (offset_prev v) turns_prev s, [])
    else if has_chapter v.prev_chapter
    then (slide (offset_prev v) (opens_prev v) s, [])
    else (s, [])

-- The end of an animation, and the timer that is set then.
abbrev pub settle : Reader → Reader
settle s = record s {
  drag_offset = pos 0;
  is_animating = false;
  timers = s.timers ++ forgets_drag ∷ [];
}

unfoldable pub call_back : Callback → Reader → Reader × List Output
call_back turns_next s = (settle (record s { current_page = next_number s.current_page }), [])
call_back turns_prev s = (settle (record s { current_page = prev_number s.current_page }), [])
call_back (opens_next v) s = (settle s, handle_next_chapter v)
call_back (opens_prev v) s = (settle s, handle_prev_chapter v)
call_back forgets_drag s = (record s { did_drag = false }, [])
call_back spring_ends s = (record s { is_animating = false; did_drag = false }, [])

-- The timer at a position runs out.
abbrev pub call_at : ℕ → Option Callback → Reader → Reader × List Output
call_at i none s = (s, [])
call_at i (some c) s = call_back c (record s { timers = without_index i s.timers })

unfoldable pub timer_fires : ℕ → Reader → Reader × List Output
timer_fires i s = call_at i (get_elem? s.timers i) s

abbrev pub jump : ℕ → Reader → Reader
jump target s =
    if is_page s.current_page target
    then s
    else record s { drag_offset = pos 0; is_animating = false; current_page = pos target }

unfoldable pub handle_page_change : View → ℕ → Reader → Reader × List Output
handle_page_change v target s = (
  jump target s,
  (if is_paged_mode v.reading_mode then [] else scrolls_to target ∷ [])
      ++ replaces_page target ∷ [],
)

unfoldable pub handle_scroll_top : View → Reader → Reader × List Output
handle_scroll_top v s =
    if is_paged_mode v.reading_mode then (jump 1 s, []) else (s, scrolls_to_top ∷ [])

-- What the gesture hook does to the same state, unless an animation is under way: a touch forgets an old
-- drag, a move drags the page, and a release that turns no page lets it spring back.
unfoldable pub handle_start : Reader → Reader
handle_start s = if s.is_animating then s else record s { did_drag = false; drag_offset = pos 0 }

unfoldable pub handle_move : ℤ → Reader → Reader
handle_move offset s =
    if s.is_animating then s else record s { did_drag = true; drag_offset = offset }

unfoldable pub spring_back : Reader → Reader
spring_back s =
    if s.is_animating then record s { drag_offset = pos 0 } else slide (pos 0) spring_ends s

-- A release after no drag, and a touch that the browser cancels.
unfoldable pub handle_release : Reader → Reader
handle_release s = record s { drag_offset = pos 0 }

unfoldable pub handle_cancel : Reader → Reader
handle_cancel s = record s { drag_offset = pos 0; timers = s.timers ++ forgets_drag ∷ [] }

-- `setCurrentPage` of the scroll tracker and of the effect that restores the saved page.
unfoldable pub set_current_page : ℕ → Reader → Reader
set_current_page new_page s = record s { current_page = pos new_page }

pub data Event : Type 0 where
  goes_next goes_prev scrolls_top touches springs_back releases cancels : Event
  changes_page reports_page fires : ℕ → Event
  drags : ℤ → Event

unfoldable pub step : View → Reader → Event → Reader × List Output
step v s goes_next = go_to_next_page v s
step v s goes_prev = go_to_prev_page v s
step v s scrolls_top = handle_scroll_top v s
step v s (changes_page target) = handle_page_change v target s
step v s (fires i) = timer_fires i s
step v s (drags offset) = (handle_move offset s, [])
step v s touches = (handle_start s, [])
step v s releases = (handle_release s, [])
step v s cancels = (handle_cancel s, [])
step v s springs_back = (spring_back s, [])
step v s (reports_page new_page) = (set_current_page new_page s, [])

-- A sequence of events, and what was done on the way.
abbrev pub run : View → Reader → List Event → Reader × List Output
run v s [] = (s, [])
run v s (e ∷ events) = let rest = run v (step v s e).0 events in (rest.0, (step v s e).1 ++ rest.1)
