-- ===== src/LibraryFilters/Counts.antt =====
-- The counts of useLibraryFilters.ts are the sizes of the lists that the shelves show.
use kiyomi.Base.{
  ℕ, suc, ◌+◌, Bool, true, false, not, String, some, List, [], ◌∷◌, ◌≡◌, inl, inr, refl, sym, ap,
  ◌∙◌, arith, length, filter_by, is_some, Bool-cases, ◌==◌, String_eq, beq_refl, beq_of_ne,
  eq_of_beq, if◌then◌else◌, if_false,
}
use kiyomi.Base.Int.{ℤ}
use kiyomi.Base.Text.{starts_with, trim}
use kiyomi.Base.Text.Laws.{starts_with-append}
use kiyomi.Base.Sort.Laws.{length-sort}
use kiyomi.Api.{Manga}
use kiyomi.LibraryFilters.{
  Filters, status_of, is_favorite, shelves_of, custom_key, Counts, bump, no_counts, count_shelves,
  count_manga, count_all, counts, on_shelf, keeps, filtered_manga,
}

-- The shelves that stand for a status.
pub data Status : Type 0 where
  reading plan_to_read completed on_hold dropped unread : Status

abbrev pub text_of : Status → String
text_of reading = "reading"
text_of plan_to_read = "plan_to_read"
text_of completed = "completed"
text_of on_hold = "on_hold"
text_of dropped = "dropped"
text_of unread = "unread"

abbrev pub has_status : Status → Manga → Bool
has_status s m = status_of m == text_of s

custom_key-other : (s : Status) (name : String) → custom_key name == text_of s ≡ false
unfolding starts_with
custom_key-other s name =
    beq_of_ne (custom_key name) (text_of s)
      (λ e. cc (starts_with-append "custom:" name, ap (λ t. starts_with t "custom:") e, differs s))
  where
    differs : (s : Status) → starts_with (text_of s) "custom:" ≡ false
    differs reading = refl
    differs plan_to_read = refl
    differs completed = refl
    differs on_hold = refl
    differs dropped = refl
    differs unread = refl

if_not : (b : Bool) → (if not b then false else true) ≡ b
if_not true = refl
if_not false = refl

on_shelf-text_of : (s : Status) (m : Manga) → on_shelf (text_of s) m ≡ has_status s m
unfolding on_shelf starts_with
on_shelf-text_of reading m = if_not (status_of m == "reading")
on_shelf-text_of plan_to_read m = if_not (status_of m == "plan_to_read")
on_shelf-text_of completed m = if_not (status_of m == "completed")
on_shelf-text_of on_hold m = if_not (status_of m == "on_hold")
on_shelf-text_of dropped m = if_not (status_of m == "dropped")
on_shelf-text_of unread m = if_not (status_of m == "unread")

favorites-other : (s : Status) → "favorites" == text_of s ≡ false
favorites-other reading = refl
favorites-other plan_to_read = refl
favorites-other completed = refl
favorites-other on_hold = refl
favorites-other dropped = refl
favorites-other unread = refl

no_counts-text_of : (s : Status) (all : ℕ) → no_counts all (text_of s) ≡ some 0
no_counts-text_of reading all = refl
no_counts-text_of plan_to_read all = refl
no_counts-text_of completed all = refl
no_counts-text_of on_hold all = refl
no_counts-text_of dropped all = refl
no_counts-text_of unread all = refl

count_shelves-text_of :
    (s : Status) (shelves : List String) (res : Counts)
    → count_shelves shelves res (text_of s) ≡ res (text_of s)
count_shelves-text_of s [] res = refl
count_shelves-text_of s (name ∷ shelves) res =
    count_shelves-text_of s shelves (bump (custom_key name) res)
    ∙ if_false _ _ (custom_key-other s name)

-- The status of a manga, where it is counted at all.
with_status-text_of :
    (s : Status) (st : String) (res : Counts) (n : ℕ)
    → res (text_of s) ≡ some n
    → (if is_some (res st) then bump st res else res) (text_of s)
      ≡ some (if st == text_of s then suc n else n)
with_status-text_of s st res n h = elim (Bool-cases (st == text_of s)) [
  | inl e ↦
      let same : st ≡ text_of s = eq_of_beq st (text_of s) e in
      rw (same, h, beq_refl (text_of s), h) refl
  | inr e ↦ elim (Bool-cases (is_some (res st))) [ inl k ↦ rw (k, e) h | inr k ↦ rw (k, e) h ]
]

count_manga-text_of :
    (s : Status) (m : Manga) (res : Counts) (n : ℕ)
    → res (text_of s) ≡ some n
    → count_manga m res (text_of s) ≡ some (if has_status s m then suc n else n)
unfolding count_manga
count_manga-text_of s m res n h =
    count_shelves-text_of s (shelves_of m) _
    ∙ favorite
    ∙ with_status-text_of s (status_of m) res n h
  where
    known : Counts
    known = if is_some (res (status_of m)) then bump (status_of m) res else res

    favorite :
        (if is_favorite m then bump "favorites" known else known) (text_of s) ≡ known (text_of s)
    favorite = elim (Bool-cases (is_favorite m)) [
      | inl e ↦ rw e (if_false _ _ (favorites-other s))
      | inr e ↦ rw e refl
    ]

count_all-text_of :
    (s : Status) (ms : List Manga) (res : Counts) (n : ℕ)
    → res (text_of s) ≡ some n
    → count_all ms res (text_of s) ≡ some (n + length (filter_by (has_status s) ms))
unfolding count_all
count_all-text_of s [] res n h = h ∙ ap some (omega arith)
count_all-text_of s (m ∷ ms) res n h =
    count_all-text_of s ms (count_manga m res) _ (count_manga-text_of s m res n h)
    ∙ ap some (adds (has_status s m))
  where
    adds :
        (b : Bool)
        → (if b then suc n else n) + length (filter_by (has_status s) ms)
          ≡ n + length (if b then m ∷ filter_by (has_status s) ms else filter_by (has_status s) ms)
    adds true = omega arith
    adds false = refl

module _ (to_lower_case : String → String) (locale_compare : String → String → ℤ)
    (get_time : String → ℤ) where
  -- The filters that show one shelf and nothing else.
  abbrev pub only_shelf : String → String → Filters
  only_shelf shelf new_sort_by = record {
    active_shelf = shelf;
    selected_tag = "";
    filter_search = "";
    sort_by = new_sort_by;
  }

  keeps-text_of :
      (s : Status) (sort_by : String) (m : Manga)
      → keeps to_lower_case locale_compare get_time (only_shelf (text_of s) sort_by) m
        ≡ has_status s m
  unfolding keeps trim
  keeps-text_of s sort_by m =
      ap (λ b. if not b then false else true) (on_shelf-text_of s m) ∙ if_not _

  -- The number at the shelf of a status is the length of the list that this shelf shows where no tag
  -- and no search text is given, in any order, whatever the other shelves of the mangas are.
  pub counts-filtered_manga :
      (s : Status) (sort_by : String) (library_manga : List Manga)
      → counts library_manga (text_of s)
        ≡ some (
            length (
              filtered_manga to_lower_case locale_compare get_time
                (only_shelf (text_of s) sort_by)
                library_manga))
  unfolding counts filtered_manga
  counts-filtered_manga s sort_by library_manga =
      count_all-text_of s library_manga (no_counts (length library_manga)) 0
        (no_counts-text_of s (length library_manga))
      ∙ ap some (omega arith)
      ∙ ap (λ p. some (length (filter_by p library_manga)))
          (λ i m. sym (keeps-text_of s sort_by m) i)
      ∙ ap some (sym (length-sort _ _))
