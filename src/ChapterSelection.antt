-- ===== src/ChapterSelection.antt =====
-- web/src/components/chapter-list/hooks/useChapterSelection.ts: the selected rows of a chapter list.
-- A handler is a function of the state; the callback `onBatchRemove` is the list of ids that it gets.
pub mod Sets
pub mod Ranges
mod Tests
use kiyomi.Base.{
  ℕ, suc, ◌+◌, Bool, true, false, not, ◌&&◌, ◌||◌, String, Option, none, some, List, [], ◌∷◌, map,
  length, any_of, find_index, slice, ltb, min, max, truthy, and_then, is_blank, ◌<|>◌, ◌otherwise◌,
  ◌==◌, ℕ_eq, String_eq, if◌then◌else◌,
}
use kiyomi.Base.Sets.{has, add, delete, add_all, of_list}
use kiyomi.Api.{Chapter}

pub record Selection : Type 0 where
  pub is_selection_mode : Bool
  pub selected_chapter_ids : List String
  pub last_selected_id : Option String
  pub is_confirm_remove_open : Bool

abbrev pub ids : List Chapter → List String
ids cs = map (λ c. c.id) cs

abbrev pub initial : Selection
initial = record {
  is_selection_mode = false;
  selected_chapter_ids = [];
  last_selected_id = none;
  is_confirm_remove_open = false;
}

-- The effect that runs when the manga changes; the dialog's flag stays.
unfoldable pub reset : Selection → Selection
reset s = record s { is_selection_mode = false; selected_chapter_ids = []; last_selected_id = none }

unfoldable pub selected_count : Selection → ℕ
selected_count s = length s.selected_chapter_ids

-- `c.is_downloaded ?? c.isDownloaded ?? c.meta?.is_downloaded ?? c.isDownloaded`, as a truth value.
unfoldable pub is_downloaded : Chapter → Bool
is_downloaded c = truthy (
    c.is_downloaded
    <|> c.is_downloaded_camel
    <|> and_then c.meta (λ m. m.is_downloaded)
    <|> c.is_downloaded_camel)

unfoldable pub downloaded_pages : Chapter → ℕ
downloaded_pages c =
    c.downloaded_pages
      <|> c.downloaded_pages_camel
      <|> and_then c.meta (λ m. m.downloaded_pages)
      <|> c.downloaded_pages_camel
    otherwise 0

unfoldable pub has_downloads : Chapter → Bool
unfolding is_downloaded downloaded_pages
has_downloads c =
    is_downloaded c
    || ltb 0 (downloaded_pages c)
    || not (is_blank (and_then c.meta (λ m. m.downloaded_at) otherwise ""))

unfoldable pub has_downloaded_in_selection : List Chapter → Selection → Bool
unfolding has_downloads
has_downloaded_in_selection chapters s =
    if length s.selected_chapter_ids == 0
    then false
    else any_of (λ c. has s.selected_chapter_ids c.id && has_downloads c) chapters

unfoldable pub handle_select_all : List Chapter → Selection → Selection
handle_select_all filtered s = record s { selected_chapter_ids = of_list (ids filtered) }

unfoldable pub handle_select_none : Selection → Selection
handle_select_none s = record s { selected_chapter_ids = []; last_selected_id = none }

-- The loop of `handleInvertSelection`, over the set that it fills.
unfoldable pub invert_from : List String → List Chapter → List String → List String
invert_from selected [] chosen = chosen
invert_from selected (c ∷ cs) chosen =
    invert_from selected cs (if not (has selected c.id) then add c.id chosen else chosen)

unfoldable pub handle_invert_selection : List Chapter → Selection → Selection
unfolding invert_from
handle_invert_selection filtered s = record s {
  selected_chapter_ids = invert_from s.selected_chapter_ids filtered [];
}

unfoldable pub handle_exit_selection_mode : Selection → Selection
handle_exit_selection_mode s = record s {
  is_selection_mode = false;
  selected_chapter_ids = [];
  last_selected_id = none;
}

unfoldable pub toggle : String → List String → List String
toggle id set = if has set id then delete id set else add id set

abbrev pub index_of : String → List Chapter → Option ℕ
index_of id cs = find_index (λ c. c.id == id) cs

-- The ids between two rows, whichever comes first.
unfoldable pub range_ids : List Chapter → ℕ → ℕ → List String
range_ids filtered i j = ids (slice (min i j) (suc (max i j)) filtered)

-- The indices of the anchor and of the row, where the shift key is held and both are listed.
unfoldable pub range_of : List Chapter → Option String → Bool → String → Option (ℕ × ℕ)
range_of filtered none shift id = none
range_of filtered (some anchor) false id = none
range_of filtered (some anchor) true id =
    and_then (index_of anchor filtered) (λ i. and_then (index_of id filtered) (λ j. some (i, j)))

abbrev pub with_range : List Chapter → String → Selection → Option (ℕ × ℕ) → Selection
with_range filtered id s (some (i, j)) = record s {
  selected_chapter_ids = add_all (range_ids filtered i j) s.selected_chapter_ids;
  last_selected_id = some id;
}
with_range filtered id s none = record s {
  selected_chapter_ids = toggle id s.selected_chapter_ids;
  last_selected_id = some id;
}

unfoldable pub handle_toggle_row : List Chapter → String → Bool → Selection → Selection
unfolding range_of
handle_toggle_row filtered id shift s =
    with_range filtered id s (range_of filtered s.last_selected_id shift id)

-- With a callback, the ids that it gets; without, nothing happens.
unfoldable pub handle_confirm_remove : Bool → Selection → Selection × Option (List String)
handle_confirm_remove false s = (s, none)
handle_confirm_remove true s = (
  record s { is_confirm_remove_open = false; selected_chapter_ids = []; last_selected_id = none },
  some s.selected_chapter_ids,
)

-- What the user can do, with the rows shown at that moment.
pub data Event : Type 0 where
  manga_changes select_none exit : Event
  select_all invert : List Chapter → Event
  toggle_row : List Chapter → String → Bool → Event
  confirm_remove : Bool → Event
  set_mode set_confirm_open : Bool → Event

unfoldable pub step : Selection → Event → Selection
step s manga_changes = reset s
step s select_none = handle_select_none s
step s exit = handle_exit_selection_mode s
step s (select_all filtered) = handle_select_all filtered s
step s (invert filtered) = handle_invert_selection filtered s
step s (toggle_row filtered id shift) = handle_toggle_row filtered id shift s
step s (confirm_remove wired) = (handle_confirm_remove wired s).0
step s (set_mode mode) = record s { is_selection_mode = mode }
step s (set_confirm_open open_now) = record s { is_confirm_remove_open = open_now }
