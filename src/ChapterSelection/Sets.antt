-- ===== src/ChapterSelection/Sets.antt =====
-- Which ids are selected after each handler of useChapterSelection.ts.
use kiyomi.Base.{
  ℕ, Bool, true, false, not, ◌&&◌, ◌||◌, String, Option, none, some, List, [], ◌∷◌, inl, inr, ◌≡◌,
  refl, ap, arith, Bool-cases, ◌==◌, String_eq, eq_iff, if◌then◌else◌,
}
use kiyomi.Base.Sets.{has, add, of_list, IsDistinct}
use kiyomi.Base.Sets.Laws.{
  has_congr, has-add, has-of_list, has-delete, add-IsDistinct, add_all-IsDistinct,
  of_list-IsDistinct, delete-IsDistinct,
}
use kiyomi.Api.{Chapter}
use kiyomi.ChapterSelection.{
  Selection, ids, reset, handle_select_all, handle_select_none, invert_from,
  handle_invert_selection, handle_exit_selection_mode, toggle, range_ids, range_of, with_range,
  handle_toggle_row, handle_confirm_remove, Event, manga_changes, select_none, exit, select_all,
  invert, toggle_row, confirm_remove, set_mode, set_confirm_open, step,
}

-- What `selectedChapterIds.has(id)` answers.
abbrev pub is_selected : Selection → String → Bool
is_selected s id = has s.selected_chapter_ids id

pub toggle-IsDistinct :
    (id : String) (set : List String) → IsDistinct set → IsDistinct (toggle id set)
unfolding toggle
toggle-IsDistinct id set d = elim (Bool-cases (has set id)) [
  | inl e ↦ rw e (delete-IsDistinct id set d)
  | inr e ↦ rw e (add-IsDistinct id set d)
]

has-toggle :
    (id k : String) (set : List String)
    → IsDistinct set
    → has (toggle id set) k ≡ (if id == k then not (has set k) else has set k)
unfolding toggle
has-toggle id k set d = elim (Bool-cases (id == k)) [
  | inl same ↦
      let e : id ≡ k = (eq_iff _ _).0 same in
      ground (arith, has-delete id k set d, has-add id k set, ap (has set) e)
  | inr other ↦ ground (arith, has-delete id k set d, has-add id k set)
]

invert_from-IsDistinct :
    (selected : List String) (cs : List Chapter) (chosen : List String)
    → IsDistinct chosen
    → IsDistinct (invert_from selected cs chosen)
unfolding invert_from
invert_from-IsDistinct selected [] chosen d = d
invert_from-IsDistinct selected (c ∷ cs) chosen d = elim (Bool-cases (has selected c.id)) [
  | inl e ↦ rw e (invert_from-IsDistinct selected cs chosen d)
  | inr e ↦
      rw e (invert_from-IsDistinct selected cs (add c.id chosen) (add-IsDistinct c.id chosen d))
]

has-invert_from :
    (selected : List String) (cs : List Chapter) (chosen : List String) (k : String)
    → has (invert_from selected cs chosen) k
      ≡ (has chosen k || has (ids cs) k && not (has selected k))
unfolding invert_from has
has-invert_from selected [] chosen k = ground arith
has-invert_from selected (c ∷ cs) chosen k = ground (
  arith,
  has-invert_from selected cs chosen k,
  has-invert_from selected cs (add c.id chosen) k,
  has-add c.id k chosen,
  has_congr c.id k selected,
)

with_range-IsDistinct :
    (filtered : List Chapter) (id : String) (s : Selection) (r : Option (ℕ × ℕ))
    → IsDistinct s.selected_chapter_ids
    → IsDistinct (with_range filtered id s r).selected_chapter_ids
with_range-IsDistinct filtered id s none d = toggle-IsDistinct id _ d
with_range-IsDistinct filtered id s (some (i, j)) d =
    add_all-IsDistinct (range_ids filtered i j) _ d

pub handle_toggle_row-IsDistinct :
    (filtered : List Chapter) (id : String) (shift : Bool) (s : Selection)
    → IsDistinct s.selected_chapter_ids
    → IsDistinct (handle_toggle_row filtered id shift s).selected_chapter_ids
unfolding handle_toggle_row
handle_toggle_row-IsDistinct filtered id shift s d =
    with_range-IsDistinct filtered id s (range_of filtered s.last_selected_id shift id) d

-- Every event keeps the selected ids free of repetition, so that `size` counts them.
pub step-IsDistinct :
    (s : Selection) (e : Event)
    → IsDistinct s.selected_chapter_ids
    → IsDistinct (step s e).selected_chapter_ids
unfolding step reset handle_select_none handle_exit_selection_mode handle_select_all
    handle_invert_selection handle_confirm_remove
step-IsDistinct s manga_changes d = tt
step-IsDistinct s select_none d = tt
step-IsDistinct s exit d = tt
step-IsDistinct s (select_all filtered) d = of_list-IsDistinct (ids filtered)
step-IsDistinct s (invert filtered) d = invert_from-IsDistinct s.selected_chapter_ids filtered [] tt
step-IsDistinct s (toggle_row filtered id shift) d =
    handle_toggle_row-IsDistinct filtered id shift s d
step-IsDistinct s (confirm_remove true) d = tt
step-IsDistinct s (confirm_remove false) d = d
step-IsDistinct s (set_mode mode) d = d
step-IsDistinct s (set_confirm_open open_now) d = d

pub range_of_plain :
    (filtered : List Chapter) (last : Option String) (id : String)
    → range_of filtered last false id ≡ none
unfolding range_of
range_of_plain filtered none id = refl
range_of_plain filtered (some anchor) id = refl

-- A click without the shift key flips the clicked row and no other.
pub handle_toggle_row-plain :
    (filtered : List Chapter) (id k : String) (s : Selection)
    → IsDistinct s.selected_chapter_ids
    → is_selected (handle_toggle_row filtered id false s) k
      ≡ (if id == k then not (is_selected s k) else is_selected s k)
unfolding handle_toggle_row
handle_toggle_row-plain filtered id k s d =
    rw (range_of_plain filtered s.last_selected_id id) (has-toggle id k s.selected_chapter_ids d)

-- Two clicks on one row, the second without the shift key, leave every row as it was.
pub handle_toggle_row-twice :
    (filtered : List Chapter) (id k : String) (s : Selection)
    → IsDistinct s.selected_chapter_ids
    → is_selected (handle_toggle_row filtered id false (handle_toggle_row filtered id false s)) k
      ≡ is_selected s k
handle_toggle_row-twice filtered id k s d = ground (
  arith,
  handle_toggle_row-plain filtered id k s d,
  handle_toggle_row-plain filtered id k (handle_toggle_row filtered id false s)
      (handle_toggle_row-IsDistinct filtered id false s d),
)

-- After an inversion a row is selected exactly if it is shown and was not selected before.
pub has-handle_invert_selection :
    (filtered : List Chapter) (s : Selection) (k : String)
    → is_selected (handle_invert_selection filtered s) k
      ≡ (has (ids filtered) k && not (is_selected s k))
unfolding handle_invert_selection has
has-handle_invert_selection filtered s k = has-invert_from s.selected_chapter_ids filtered [] k

-- Inverting twice keeps the selected rows that are shown, and drops those that are not.
pub handle_invert_selection-twice :
    (filtered : List Chapter) (s : Selection) (k : String)
    → is_selected (handle_invert_selection filtered (handle_invert_selection filtered s)) k
      ≡ (has (ids filtered) k && is_selected s k)
handle_invert_selection-twice filtered s k = ground (
  arith,
  has-handle_invert_selection filtered s k,
  has-handle_invert_selection filtered (handle_invert_selection filtered s) k,
)

-- Selecting all and then inverting selects nothing.
pub handle_select_all-invert :
    (filtered : List Chapter) (s : Selection) (k : String)
    → is_selected (handle_invert_selection filtered (handle_select_all filtered s)) k ≡ false
unfolding handle_select_all
handle_select_all-invert filtered s k = ground (
  arith,
  has-handle_invert_selection filtered (record s { selected_chapter_ids = of_list (ids filtered) })
      k,
  has-of_list (ids filtered) k,
)
