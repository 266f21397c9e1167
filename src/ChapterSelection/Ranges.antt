-- ===== src/ChapterSelection/Ranges.antt =====
-- Selecting a range of rows with the shift key, in useChapterSelection.ts.
use kiyomi.Base.{
  ℕ, zero, suc, ◌+◌, ◌-◌, ◌≤◌, min, max, true, false, ◌||◌, String, Option, some, List, [], ◌∷◌,
  inl, inr, ◌≡◌, ◌⊎◌, ◌↔◌, refl, sym, ap, ◌∙◌, arith, Bool-cases, ◌==◌, String_eq, eq_iff,
  get_elem?, slice, drop, get_elem?-take, get_elem?-take_of_lt, get_elem?-drop,
  find_index-get_elem?,
}
use kiyomi.Base.Sets.{has, add}
use kiyomi.Base.Sets.Laws.{has-add_all}
use kiyomi.Api.{Chapter}
use kiyomi.ChapterSelection.{
  Selection, ids, toggle, index_of, range_ids, range_of, handle_toggle_row,
}
use kiyomi.ChapterSelection.Sets.{is_selected, range_of_plain}

-- The row at a position between two others, these included, has the id `k`.
abbrev pub IsBetween : List Chapter → ℕ → ℕ → String → Type 0
IsBetween filtered i j k =
    (p : ℕ) × (c : Chapter) × (min i j ≤ p)
    × (p ≤ max i j)
    × (get_elem? filtered p ≡ some c)
    × (c.id ≡ k)

has-ids_sound :
    (cs : List Chapter) (k : String)
    → has (ids cs) k ≡ true
    → (p : ℕ) × (c : Chapter) × (get_elem? cs p ≡ some c) × (c.id ≡ k)
unfolding has
has-ids_sound [] k h = cc
has-ids_sound (c ∷ cs) k h = elim (Bool-cases (c.id == k)) [
  | inl e ↦ (0, c, refl, (eq_iff _ _).0 e)
  | inr e ↦ let (p, d, at_p, same) = has-ids_sound cs k (ground arith) in (suc p, d, at_p, same)
]

has-ids_complete :
    (cs : List Chapter) (p : ℕ) {c : Chapter} → get_elem? cs p ≡ some c → has (ids cs) c.id ≡ true
unfolding has
has-ids_complete [] p h = cc
has-ids_complete (d ∷ cs) zero {c} h =
    let e : d.id ≡ c.id = ground arith in ground (arith, eq_iff d.id c.id)
has-ids_complete (d ∷ cs) (suc p) {c} h = ground (arith, has-ids_complete cs p {c = c} h)

has-range_ids_iff :
    (filtered : List Chapter) (i j : ℕ) (k : String)
    → (has (range_ids filtered i j) k ≡ true) ↔ IsBetween filtered i j k
unfolding range_ids
has-range_ids_iff filtered i j k = (to, from)
  where
    start : ℕ
    start = min i j

    size : ℕ
    size = suc (max i j) - start

    to : has (ids (slice start (suc (max i j)) filtered)) k ≡ true → IsBetween filtered i j k
    to h =
        let (p, c, at_p, same) = has-ids_sound _ k h in
        let (lt, e) = get_elem?-take size (drop start filtered) p at_p in
        (start + p, c, omega arith, omega arith, sym (get_elem?-drop start filtered p) ∙ e, same)

    from : IsBetween filtered i j k → has (ids (slice start (suc (max i j)) filtered)) k ≡ true
    from (p, c, low, high, at_p, same) = rw (← same) (
        has-ids_complete (slice start (suc (max i j)) filtered) (p - start) {c = c} (
          get_elem?-take_of_lt size (drop start filtered) (p - start) (omega arith)
          ∙ get_elem?-drop start filtered (p - start)
          ∙ ap (get_elem? filtered) (omega arith)
          ∙ at_p))

range_of_found :
    (filtered : List Chapter) (last : Option String) (anchor id : String) (i j : ℕ)
    → last ≡ some anchor
    → index_of anchor filtered ≡ some i
    → index_of id filtered ≡ some j
    → range_of filtered last true id ≡ some (i, j)
unfolding range_of
range_of_found filtered last anchor id i j l at_i at_j = rw (l, range_of, at_i, at_j) refl

handle_toggle_row-has_range :
    (filtered : List Chapter) (anchor id k : String) (i j : ℕ) (s : Selection)
    → s.last_selected_id ≡ some anchor
    → index_of anchor filtered ≡ some i
    → index_of id filtered ≡ some j
    → is_selected (handle_toggle_row filtered id true s) k
      ≡ (is_selected s k || has (range_ids filtered i j) k)
unfolding handle_toggle_row
handle_toggle_row-has_range filtered anchor id k i j s l at_i at_j =
    rw (range_of_found filtered s.last_selected_id anchor id i j l at_i at_j)
      (has-add_all (range_ids filtered i j) s.selected_chapter_ids k)

-- A click with the shift key, where the row clicked before and this row are shown, selects the rows
-- between the two, both included, whichever comes first; what was selected stays selected, and
-- nothing else is.
pub handle_toggle_row-range :
    (filtered : List Chapter) (anchor id k : String) (i j : ℕ) (s : Selection)
    → s.last_selected_id ≡ some anchor
    → index_of anchor filtered ≡ some i
    → index_of id filtered ≡ some j
    → (is_selected (handle_toggle_row filtered id true s) k ≡ true)
      ↔ ((is_selected s k ≡ true) ⊎ IsBetween filtered i j k)
handle_toggle_row-range filtered anchor id k i j s l at_i at_j = (
  λ h. elim (Bool-cases (is_selected s k)) [
    | inl e ↦ inl e
    | inr e ↦ inr ((has-range_ids_iff filtered i j k).0 (ground (arith, all)))
  ],
  λ h. elim h [
    | inl e ↦ ground (arith, all)
    | inr b ↦ ground (arith, all, (has-range_ids_iff filtered i j k).1 b)
  ],
)
  where
    all :
        is_selected (handle_toggle_row filtered id true s) k
        ≡ (is_selected s k || has (range_ids filtered i j) k)
    all = handle_toggle_row-has_range filtered anchor id k i j s l at_i at_j

anchor-IsBetween :
    (filtered : List Chapter) (id : String) (i j : ℕ)
    → index_of id filtered ≡ some i
    → has (range_ids filtered i j) id ≡ true
anchor-IsBetween filtered id i j at_i =
    let (c, at, same) = find_index-get_elem? (λ c. c.id == id) filtered i at_i in
    (has-range_ids_iff filtered i j id).1
      (i, c, omega arith, omega arith, at, (eq_iff c.id id).0 same)

-- The first click, into an empty selection.
first_click :
    (filtered : List Chapter) (id : String) (s : Selection)
    → s.selected_chapter_ids ≡ []
    → (handle_toggle_row filtered id false s).selected_chapter_ids ≡ id ∷ []
unfolding handle_toggle_row toggle add has
first_click filtered id s none_yet =
    rw (range_of_plain filtered s.last_selected_id id, none_yet) refl

first_click-last :
    (filtered : List Chapter) (id : String) (s : Selection)
    → (handle_toggle_row filtered id false s).last_selected_id ≡ some id
unfolding handle_toggle_row
first_click-last filtered id s = rw (range_of_plain filtered s.last_selected_id id) refl

two_clicks :
    (filtered : List Chapter) (a b k : String) (i j : ℕ) (s : Selection)
    → s.selected_chapter_ids ≡ []
    → index_of a filtered ≡ some i
    → index_of b filtered ≡ some j
    → is_selected (handle_toggle_row filtered b true (handle_toggle_row filtered a false s)) k
      ≡ has (range_ids filtered i j) k
unfolding has
two_clicks filtered a b k i j s none_yet at_i at_j =
    handle_toggle_row-has_range filtered a b k i j (handle_toggle_row filtered a false s)
      (first_click-last filtered a s) at_i at_j
    ∙ rw (first_click filtered a s none_yet) within
  where
    within : ((a == k || false) || has (range_ids filtered i j) k) ≡ has (range_ids filtered i j) k
    within = elim (Bool-cases (a == k)) [
      | inl e ↦
          let same : a ≡ k = (eq_iff _ _).0 e in
          ground
            (arith, ap (has (range_ids filtered i j)) same, anchor-IsBetween filtered a i j at_i)
      | inr e ↦ ground arith
    ]

range_ids_comm :
    (filtered : List Chapter) (i j : ℕ) → range_ids filtered i j ≡ range_ids filtered j i
unfolding range_ids
range_ids_comm filtered i j =
    let low : min i j ≡ min j i = omega arith in
    let high : max i j ≡ max j i = omega arith in rw (low, high) refl

-- From an empty selection, a click on one row and a shift-click on another select the same rows as
-- the same two clicks in the other order.
pub handle_toggle_row-range_comm :
    (filtered : List Chapter) (a b k : String) (i j : ℕ) (s : Selection)
    → s.selected_chapter_ids ≡ []
    → index_of a filtered ≡ some i
    → index_of b filtered ≡ some j
    → is_selected (handle_toggle_row filtered b true (handle_toggle_row filtered a false s)) k
      ≡ is_selected (handle_toggle_row filtered a true (handle_toggle_row filtered b false s)) k
handle_toggle_row-range_comm filtered a b k i j s none_yet at_i at_j =
    two_clicks filtered a b k i j s none_yet at_i at_j
    ∙ ap (λ ks. has ks k) (range_ids_comm filtered i j)
    ∙ sym (two_clicks filtered b a k j i s none_yet at_j at_i)
