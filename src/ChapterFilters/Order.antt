-- ===== src/ChapterFilters/Order.antt =====
-- The order of useChapterFilters.ts.
use mathlib.Core.List.{Perm}
use kiyomi.Base.{
  String, false, List, [], ◌∷◌, All, ◌≡◌, ◌≢◌, ◌⊎◌, inl, inr, sym, ◌∙◌, arith, Bool-cases, ◌==◌,
  String_eq, ◌otherwise◌, and_then, or_text, eq_of_beq, ne_of_beq,
}
use kiyomi.Base.Int.{ℤ, pos, ◌-ℤ◌, ◌≤ℤ◌, is_pos, is_pos-sub}
use kiyomi.Base.Sort.Collations.{
  IsCollation, is_pos-negate_turn, IsConsistent-ascending, IsConsistent-descending, IsCollation-sub,
}
use kiyomi.Base.Sort.Laws.{IsConsistent, IsSorted, sort-perm, sort-IsSorted}
use kiyomi.Api.{Chapter}
use kiyomi.ChapterFilters.{
  Direction, asc, desc, with_source_order, upload_text, search_chapters, comparison, directed,
  filtered_chapters,
}

-- Each element before another one of a list is related to it.
abbrev pub Pairwise : (Chapter → Chapter → Type 0) → List Chapter → Type 0
Pairwise R [] = Unit
Pairwise R (c ∷ cs) = All (R c) cs × Pairwise R cs

-- By a number, upwards or downwards.
abbrev pub IsByNumber : (Chapter → ℤ) → Direction → List Chapter → Type 0
IsByNumber key asc = Pairwise (λ a b. key a ≤ℤ key b)
IsByNumber key desc = Pairwise (λ a b. key b ≤ℤ key a)

-- By a text in the order of a collation, upwards or downwards.
abbrev pub IsByText : (String → String → ℤ) → (Chapter → String) → Direction → List Chapter → Type 0
IsByText locale_compare key asc = Pairwise (λ a b. is_pos (locale_compare (key a) (key b)) ≡ false)
IsByText locale_compare key desc = Pairwise (λ a b. is_pos (locale_compare (key b) (key a)) ≡ false)

-- By the chapter number, by the upload date, or else by the place in the source.
abbrev pub IsOrdered : (String → String → ℤ) → String → Direction → List Chapter → Type 0
IsOrdered locale_compare sort_by order cs =
    ((sort_by ≡ "number") × IsByNumber (λ c. c.number otherwise pos 0) order cs)
    ⊎ (((sort_by ≡ "date")
          × IsByText locale_compare
              (λ c. or_text (c.upload_date otherwise "") (
                or_text (c.uploaded_at otherwise "")
                  (and_then c.meta (λ m. m.upload_date) otherwise "")))
              order cs)
        ⊎ ((sort_by ≢ "number")
            × (sort_by ≢ "date")
            × IsByNumber (λ c. c.source_order otherwise pos 0) order cs))

All-weaken :
    (P Q : Chapter → Type 0) (cs : List Chapter) → ((c : Chapter) → P c → Q c) → All P cs → All Q cs
All-weaken P Q [] f h = tt
All-weaken P Q (c ∷ cs) f (p, h) = (f c p, All-weaken P Q cs f h)

IsSorted-Pairwise :
    (compare : Chapter → Chapter → ℤ) (R : Chapter → Chapter → Type 0) (cs : List Chapter)
    → ((a b : Chapter) → is_pos (compare a b) ≡ false → R a b)
    → IsSorted compare cs
    → Pairwise R cs
IsSorted-Pairwise compare R [] f s = tt
IsSorted-Pairwise compare R (c ∷ cs) f (h, s) =
    (All-weaken _ (R c) cs (f c) h, IsSorted-Pairwise compare R cs f s)

not_behind : (a b : ℤ) → is_pos (a -ℤ b) ≡ false → a ≤ℤ b
not_behind a b h = ground (arith, is_pos-sub a b)

module _ (to_lower_case : String → String) (locale_compare : String → String → ℤ) where
  comparison-IsCollation :
      (sort_by : String)
      → IsCollation locale_compare
      → IsCollation (comparison to_lower_case locale_compare sort_by)
  unfolding comparison
  comparison-IsCollation sort_by c = elim (Bool-cases (sort_by == "number")) [
    | inl e ↦ rw e (IsCollation-sub (λ a. a.number otherwise pos 0))
    | inr e ↦ rw e (elim (Bool-cases (sort_by == "date")) [
      | inl d ↦ rw d (record {
        turn = λ x y. c.turn (upload_text x) (upload_text y);
        trans = λ x y z. c.trans (upload_text x) (upload_text y) (upload_text z);
      })
      | inr d ↦ rw d (IsCollation-sub (λ a. a.source_order otherwise pos 0))
    ])
  ]

  directed-IsConsistent :
      (sort_by : String) (order : Direction)
      → IsCollation locale_compare
      → IsConsistent (directed to_lower_case locale_compare sort_by order)
  unfolding directed
  directed-IsConsistent sort_by asc c = IsConsistent-ascending (comparison-IsCollation sort_by c)
  directed-IsConsistent sort_by desc c = IsConsistent-descending (comparison-IsCollation sort_by c)

  -- The list that is shown holds the chapters that the search keeps, each once.
  pub filtered_chapters-perm :
      (sort_by : String) (order : Direction) (query : String) (chapters : List Chapter)
      → Perm
          (filtered_chapters to_lower_case locale_compare sort_by order query chapters)
          (search_chapters to_lower_case locale_compare query (with_source_order 0 chapters))
  unfolding filtered_chapters
  filtered_chapters-perm sort_by order query chapters = sort-perm _ _

  directed-asc :
      (sort_by : String) (a b : Chapter)
      → is_pos (directed to_lower_case locale_compare sort_by asc a b) ≡ false
      → is_pos (comparison to_lower_case locale_compare sort_by a b) ≡ false
  unfolding directed
  directed-asc sort_by a b h = h

  directed-desc :
      (sort_by : String) (a b : Chapter)
      → IsCollation locale_compare
      → is_pos (directed to_lower_case locale_compare sort_by desc a b) ≡ false
      → is_pos (comparison to_lower_case locale_compare sort_by b a) ≡ false
  unfolding directed
  directed-desc sort_by a b c h =
      sym (is_pos-negate_turn (comparison-IsCollation sort_by c) a b) ∙ h

  module _ (sort_by : String) where
    comparison-number :
        (a b : Chapter)
        → sort_by ≡ "number"
        → is_pos (comparison to_lower_case locale_compare sort_by a b) ≡ false
        → (a.number otherwise pos 0) ≤ℤ (b.number otherwise pos 0)
    unfolding comparison
    comparison-number a b number h = not_behind _ _ (rw number at h)

    comparison-date :
        (a b : Chapter)
        → sort_by ≡ "date"
        → is_pos (comparison to_lower_case locale_compare sort_by a b) ≡ false
        → is_pos (locale_compare (upload_text a) (upload_text b)) ≡ false
    unfolding comparison
    comparison-date a b date h = rw date at h

    comparison-source :
        (a b : Chapter)
        → (sort_by == "number") ≡ false
        → (sort_by == "date") ≡ false
        → is_pos (comparison to_lower_case locale_compare sort_by a b) ≡ false
        → (a.source_order otherwise pos 0) ≤ℤ (b.source_order otherwise pos 0)
    unfolding comparison
    comparison-source a b no_number no_date h = not_behind _ _ (rw (no_number, no_date) at h)

  sorted-IsOrdered :
      (sort_by : String) (order : Direction) (cs : List Chapter)
      → IsCollation locale_compare
      → IsSorted (directed to_lower_case locale_compare sort_by order) cs
      → IsOrdered locale_compare sort_by order cs
  sorted-IsOrdered sort_by asc cs c s = elim (Bool-cases (sort_by == "number")) [
    | inl e ↦
        let number : sort_by ≡ "number" = eq_of_beq _ _ e in
        inl (
          number,
          IsSorted-Pairwise (directed to_lower_case locale_compare sort_by asc) _ cs
              (λ a b h. comparison-number sort_by a b number (directed-asc sort_by a b h)) s,
        )
    | inr e ↦ elim (Bool-cases (sort_by == "date")) [
      | inl d ↦
          let date : sort_by ≡ "date" = eq_of_beq _ _ d in
          inr (
            inl (
              date,
              IsSorted-Pairwise (directed to_lower_case locale_compare sort_by asc) _ cs
                  (λ a b h. comparison-date sort_by a b date (directed-asc sort_by a b h)) s,
            ))
      | inr d ↦ inr (
          inr (
            ne_of_beq _ _ e,
            ne_of_beq _ _ d,
            IsSorted-Pairwise (directed to_lower_case locale_compare sort_by asc) _ cs
                (λ a b h. comparison-source sort_by a b e d (directed-asc sort_by a b h)) s,
          ))
    ]
  ]
  sorted-IsOrdered sort_by desc cs c s = elim (Bool-cases (sort_by == "number")) [
    | inl e ↦
        let number : sort_by ≡ "number" = eq_of_beq _ _ e in
        inl (
          number,
          IsSorted-Pairwise (directed to_lower_case locale_compare sort_by desc) _ cs
              (λ a b h. comparison-number sort_by b a number (directed-desc sort_by a b c h)) s,
        )
    | inr e ↦ elim (Bool-cases (sort_by == "date")) [
      | inl d ↦
          let date : sort_by ≡ "date" = eq_of_beq _ _ d in
          inr (
            inl (
              date,
              IsSorted-Pairwise (directed to_lower_case locale_compare sort_by desc) _ cs
                  (λ a b h. comparison-date sort_by b a date (directed-desc sort_by a b c h)) s,
            ))
      | inr d ↦ inr (
          inr (
            ne_of_beq _ _ e,
            ne_of_beq _ _ d,
            IsSorted-Pairwise (directed to_lower_case locale_compare sort_by desc) _ cs
                (λ a b h. comparison-source sort_by b a e d (directed-desc sort_by a b c h)) s,
          ))
    ]
  ]

  -- With a collation that is an order, the list that is shown is ordered by the chapter number, by the
  -- upload date, of whichever field has one, or, for any other choice, by the
  -- place in the source, from the lowest for the direction upwards and from the highest for the other
  -- one. A missing number or place counts as 0, a missing date as the empty text.
  pub filtered_chapters-IsOrdered :
      (sort_by : String) (order : Direction) (query : String) (chapters : List Chapter)
      → IsCollation locale_compare
      → IsOrdered locale_compare sort_by order
          (filtered_chapters to_lower_case locale_compare sort_by order query chapters)
  unfolding filtered_chapters
  filtered_chapters-IsOrdered sort_by order query chapters c =
      sorted-IsOrdered sort_by order _ c (sort-IsSorted _ (directed-IsConsistent sort_by order c) _)
