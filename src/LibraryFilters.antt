-- ===== src/LibraryFilters.antt =====
-- web/src/components/library/hooks/useLibraryFilters.ts: shelves, counts, filters and order of the
-- library. `to_lower_case`, `locale_compare` and `get_time`, which reads a date as milliseconds, are
-- the platform's. The deferred search text is the text that the list was last rendered with.
pub mod Counts
pub mod Shown
mod Tests
use kiyomi.Base.{
  ℕ, suc, Bool, true, false, not, ◌&&◌, ◌||◌, String, Option, none, some, List, [], ◌∷◌, ◌++◌, map,
  length, filter_by, any_of, concat, and_then, is_some, truthy, is_blank, ◌<|>◌, ◌otherwise◌, ◌==◌,
  ℕ_eq, String_eq, if◌then◌else◌,
}
use kiyomi.Base.Int.{ℤ, pos, negsuc, ◌-ℤ◌, pos_part, neg_part}
use kiyomi.Base.Sets.{of_list}
use kiyomi.Base.Sort.{sort}
use kiyomi.Base.Text.{trim, includes, starts_with, drop_front, text_order}
use kiyomi.Api.Numbers.{◌+text◌}
use kiyomi.Api.{Manga}

pub record ShelfItem : Type 0 where
  pub id : String
  pub label : String
  pub is_favorite : Option Bool

abbrev shelf : String → String → ShelfItem
shelf new_id new_label = record { id = new_id; label = new_label; is_favorite = none }

abbrev pub default_shelves : List ShelfItem
default_shelves =
    shelf "all" "All"
    ∷ shelf "reading" "Reading"
    ∷ record { id = "favorites"; label = "Favorites"; is_favorite = some true }
    ∷ shelf "plan_to_read" "Plan to Read"
    ∷ shelf "completed" "Completed"
    ∷ shelf "on_hold" "On Hold"
    ∷ shelf "dropped" "Dropped"
    ∷ shelf "unread" "Unread"
    ∷ []

pub record Filters : Type 0 where
  pub active_shelf : String
  pub selected_tag : String
  pub filter_search : String
  pub sort_by : String

unfoldable pub clear_filters : Filters → Filters
clear_filters s = record s { active_shelf = "all"; selected_tag = ""; filter_search = "" }

-- The fields of a manga, with the older spellings behind them.
abbrev pub status_of : Manga → String
status_of m =
    some m.user_state.status
      <|> m.user_status_camel
      <|> m.user_status
      <|> and_then m.meta (λ x. x.user_status)
    otherwise "unread"

abbrev pub is_favorite : Manga → Bool
is_favorite m = truthy (
    some m.user_state.favorite
    <|> m.user_favorite_camel
    <|> m.user_favorite
    <|> and_then m.meta (λ x. x.user_favorite))

abbrev pub rating_of : Manga → ℤ
rating_of m =
    some m.user_state.rating
      <|> m.user_rating_camel
      <|> m.user_rating
      <|> and_then m.meta (λ x. x.user_rating)
    otherwise pos 0

abbrev pub shelves_of : Manga → List String
shelves_of m = m.shelves otherwise []

abbrev pub tags_of : Manga → List String
tags_of m = some m.metadata.tags <|> m.tags <|> m.genres otherwise []

abbrev pub title_of : Manga → String
title_of m = some m.metadata.title <|> m.title otherwise ""

abbrev pub single : String → List String
single author = if is_blank author then [] else author ∷ []

abbrev pub authors_of : Manga → List String
authors_of m = some m.metadata.authors <|> m.authors otherwise single (m.author otherwise "")

unfoldable pub custom_shelves : List Manga → List String
custom_shelves library_manga =
    filter_by (λ s. not (is_blank s)) (of_list (concat (map shelves_of library_manga)))

unfoldable pub all_tags : List Manga → List String
all_tags library_manga = sort text_order (of_list (concat (map tags_of library_manga)))

abbrev pub custom_key : String → String
custom_key s = "custom:" +text s

unfoldable pub all_shelves : List Manga → List ShelfItem
unfolding custom_shelves
all_shelves library_manga =
    default_shelves ++ map (λ s. shelf (custom_key s) s) (custom_shelves library_manga)

-- The record of the counts: what a key holds, `none` for a key that it does not have.
abbrev pub Counts : Type 0
Counts = String → Option ℕ

-- `res[key] = (res[key] || 0) + 1`
abbrev pub bump : String → Counts → Counts
bump key res other = if key == other then some (suc (res key otherwise 0)) else res other

abbrev pub no_counts : ℕ → Counts
no_counts all key =
    if key == "all"
    then some all
    else if key == "reading"
        || key == "favorites"
        || key == "plan_to_read"
        || key == "completed"
        || key == "on_hold"
        || key == "dropped"
        || key == "unread"
    then some 0
    else none

abbrev pub count_shelves : List String → Counts → Counts
count_shelves [] res = res
count_shelves (s ∷ shelves) res = count_shelves shelves (bump (custom_key s) res)

-- The body of the loop.
unfoldable pub count_manga : Manga → Counts → Counts
count_manga m res =
    let with_status = if is_some (res (status_of m)) then bump (status_of m) res else res in
    let with_favorite = if is_favorite m then bump "favorites" with_status else with_status in
    count_shelves (shelves_of m) with_favorite

unfoldable pub count_all : List Manga → Counts → Counts
unfolding count_manga
count_all [] res = res
count_all (m ∷ ms) res = count_all ms (count_manga m res)

unfoldable pub counts : List Manga → Counts
unfolding count_all
counts library_manga = count_all library_manga (no_counts (length library_manga))

-- The tests of the shelf, each with its early return.
unfoldable pub on_shelf : String → Manga → Bool
on_shelf active m =
    if active == "reading" && not (status_of m == "reading")
    then false
    else if active == "favorites" && not (is_favorite m)
    then false
    else if active == "plan_to_read" && not (status_of m == "plan_to_read")
    then false
    else if active == "completed" && not (status_of m == "completed")
    then false
    else if active == "on_hold" && not (status_of m == "on_hold")
    then false
    else if active == "dropped" && not (status_of m == "dropped")
    then false
    else if active == "unread" && not (status_of m == "unread")
    then false
    else if starts_with active "custom:"
    then any_of (λ s. s == drop_front "custom:" active) (shelves_of m)
    else true

abbrev pub has_tag : String → Manga → Bool
has_tag tag m = if is_blank tag then true else any_of (λ t. t == tag) (tags_of m)

abbrev pub same_rating : Manga → Manga → Bool
same_rating a b =
    pos_part (rating_of a) == pos_part (rating_of b)
    && neg_part (rating_of a) == neg_part (rating_of b)

module _ (to_lower_case : String → String) (locale_compare : String → String → ℤ)
    (get_time : String → ℤ) where
  abbrev pub matches_search : String → Manga → Bool
  matches_search search m =
      let q = to_lower_case search in
      if is_blank (trim search)
      then true
      else includes (to_lower_case (title_of m)) q
        || any_of (λ a. includes (to_lower_case a) q) (authors_of m)

  unfoldable pub keeps : Filters → Manga → Bool
  unfolding on_shelf
  keeps f m =
      if not (on_shelf f.active_shelf m)
      then false
      else if not (has_tag f.selected_tag m)
      then false
      else matches_search f.filter_search m

  -- A date that is given and not empty, else another one, else 0.
  abbrev pub time_of : Option String → Option String → ℤ
  time_of date other =
      if not (is_blank (date otherwise ""))
      then get_time (date otherwise "")
      else if not (is_blank (other otherwise ""))
      then get_time (other otherwise "")
      else pos 0

  abbrev pub added_time : Manga → ℤ
  added_time m = time_of m.user_state.added_at (and_then m.meta (λ x. x.added_at))

  abbrev pub updated_time : Manga → ℤ
  updated_time m = time_of m.user_state.updated_at (and_then m.meta (λ x. x.updated_at))

  abbrev pub by_title : Manga → Manga → ℤ
  by_title a b = locale_compare (title_of a) (title_of b)

  -- The comparator, for each value of `sortBy`.
  unfoldable pub comparator : String → Manga → Manga → ℤ
  comparator sort_by =
      if sort_by == "title_asc"
      then by_title
      else if sort_by == "title_desc"
      then (λ a b. by_title b a)
      else if sort_by == "rating_desc"
      then (λ a b. if same_rating a b then by_title a b else rating_of b -ℤ rating_of a)
      else if sort_by == "rating_asc"
      then (λ a b. if same_rating a b then by_title a b else rating_of a -ℤ rating_of b)
      else if sort_by == "added_desc"
      then (λ a b. added_time b -ℤ added_time a)
      else if sort_by == "updated_desc"
      then (λ a b. updated_time b -ℤ updated_time a)
      else λ a b. pos 0

  unfoldable pub filtered_manga : Filters → List Manga → List Manga
  unfolding keeps comparator
  filtered_manga f library_manga = sort (comparator f.sort_by) (filter_by (keeps f) library_manga)
