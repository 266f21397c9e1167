-- ===== src/LibraryFilters/Shown.antt =====
-- Which mangas useLibraryFilters.ts shows, and in which order.
use mathlib.Core.List.{Perm}
use kiyomi.Base.{
  Bool, true, false, not, ◌&&◌, ◌||◌, String, List, [], ◌∷◌, ◌≡◌, refl, ap, ◌∙◌, arith, filter_by,
  ◌==◌, String_eq, ℕ_eq, if◌then◌else◌,
}
use kiyomi.Base.Int.{ℤ, pos, negsuc, ◌-ℤ◌, is_pos, pos_part, neg_part}
use kiyomi.Base.Sort.Laws.{IsSorted, sort-perm, sort-IsSorted}
use kiyomi.Base.Text.{trim, starts_with}
use kiyomi.Api.{Manga}
use kiyomi.Base.Sort.Collations.{
  IsCollation, IsConsistent-ascending, IsCollation-sub, IsCollation-by, IsCollation-flip,
  IsCollation-then,
}
use kiyomi.LibraryFilters.{
  Filters, clear_filters, title_of, rating_of, on_shelf, keeps, by_title, same_rating, comparator,
  filtered_manga, added_time, updated_time,
}

filter_by-all :
    {A : Type 0} (p : A → Bool) (xs : List A) → ((x : A) → p x ≡ true) → filter_by p xs ≡ xs
filter_by-all p [] h = refl
filter_by-all p (x ∷ xs) h = rw (h x) (ap (λ ys. x ∷ ys) (filter_by-all p xs h))

-- A rating is the same where neither is greater.
same_rating-is_pos :
    (a b : Manga)
    → same_rating a b
      ≡ not (is_pos (rating_of b -ℤ rating_of a) || is_pos (rating_of a -ℤ rating_of b))
unfolding ◌-ℤ◌
same_rating-is_pos a b = go (rating_of a) (rating_of b)
  where
    go :
        (r t : ℤ)
        → (pos_part r == pos_part t && neg_part r == neg_part t)
          ≡ not (is_pos (t -ℤ r) || is_pos (r -ℤ t))
    go (pos m) (pos n) = ground arith
    go (pos m) (negsuc n) = ground arith
    go (negsuc m) (pos n) = ground arith
    go (negsuc m) (negsuc n) = ground arith

or_comm : (a b : Bool) → (a || b) ≡ (b || a)
or_comm a b = ground arith

either :
    {A : Type 0} (b : Bool) {f g : A → A → ℤ}
    → IsCollation f
    → IsCollation g
    → IsCollation (if b then f else g)
either true h k = h
either false h k = k

module _ (to_lower_case : String → String) (locale_compare : String → String → ℤ)
    (get_time : String → ℤ) where
  -- The list that is shown holds the mangas that the filters keep, each as often as the library.
  filtered_manga-perm :
      (f : Filters) (library_manga : List Manga)
      → Perm
          (filtered_manga to_lower_case locale_compare get_time f library_manga)
          (filter_by (keeps to_lower_case locale_compare get_time f) library_manga)
  unfolding filtered_manga
  filtered_manga-perm f library_manga = sort-perm _ _

  keeps-clear_filters :
      (f : Filters) (m : Manga)
      → keeps to_lower_case locale_compare get_time (clear_filters f) m ≡ true
  unfolding keeps clear_filters on_shelf starts_with trim
  keeps-clear_filters f m = refl

  -- After the filters are cleared the whole library is shown, each manga once.
  pub clear_filters-perm :
      (f : Filters) (library_manga : List Manga)
      → Perm
          (filtered_manga to_lower_case locale_compare get_time (clear_filters f) library_manga)
          library_manga
  unfolding filtered_manga
  clear_filters-perm f library_manga =
      rw
        (filter_by-all (keeps to_lower_case locale_compare get_time (clear_filters f)) library_manga
          (keeps-clear_filters f))
        (sort-perm (comparator to_lower_case locale_compare get_time (clear_filters f).sort_by)
          library_manga)

  by_title-IsCollation :
      IsCollation locale_compare → IsCollation (by_title to_lower_case locale_compare get_time)
  by_title-IsCollation c = IsCollation-by c title_of

  comparator-IsCollation :
      (sort_by : String)
      → IsCollation locale_compare
      → IsCollation (comparator to_lower_case locale_compare get_time sort_by)
  unfolding comparator
  comparator-IsCollation sort_by c = either (sort_by == "title_asc") titles (
      either (sort_by == "title_desc") (IsCollation-flip titles) (
        either (sort_by == "rating_desc")
          (IsCollation-then titles (IsCollation-flip ratings) same_rating same_rating-is_pos)
          (either (sort_by == "rating_asc")
            (IsCollation-then titles ratings same_rating (λ a b.
              same_rating-is_pos a b
              ∙ ap not (
                  or_comm (is_pos (rating_of b -ℤ rating_of a))
                    (is_pos (rating_of a -ℤ rating_of b)))))
            (either (sort_by == "added_desc")
              (IsCollation-flip
                (IsCollation-sub (added_time to_lower_case locale_compare get_time)))
              (either (sort_by == "updated_desc")
                (IsCollation-flip
                  (IsCollation-sub (updated_time to_lower_case locale_compare get_time)))
                (record { turn = λ x y. refl; trans = λ x y z h k. refl }))))))
    where
      titles : IsCollation (by_title to_lower_case locale_compare get_time)
      titles = by_title-IsCollation c

      ratings : IsCollation (λ a b. rating_of a -ℤ rating_of b)
      ratings = IsCollation-sub rating_of

  -- Where the collation is an order, the list is in the order that is chosen: by title or by rating in
  -- either direction, equal ratings by title, or by a date, the latest first.
  pub filtered_manga-IsSorted :
      (f : Filters) (library_manga : List Manga)
      → IsCollation locale_compare
      → IsSorted
          (comparator to_lower_case locale_compare get_time f.sort_by)
          (filtered_manga to_lower_case locale_compare get_time f library_manga)
  unfolding filtered_manga
  filtered_manga-IsSorted f library_manga c =
      sort-IsSorted _ (IsConsistent-ascending (comparator-IsCollation f.sort_by c)) _
