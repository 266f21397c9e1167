-- ===== src/MetadataSearch/Choosing.antt =====
-- The provider that the search begins with, and the manga that a click on a result selects.
use mathlib.Core.Path.{subst}
use kiyomi.Base.{
  Bool, true, false, not, ◌&&◌, String, String_eq, Option, none, some, List, [], ◌∷◌, find, ◌≡◌,
  refl, sym, ap, ◌⊎◌, inl, inr, Bool-cases, is_blank, or_text, beq_refl, if_true, if_false,
  ◌otherwise◌, arith,
}
use kiyomi.Api.{Manga, Source}
use kiyomi.Client.Providers.{get_provider_manga_details}
use kiyomi.MetadataSearch.{
  Options, Search, Output, asks, selects, Outcome, answers, fails, is_source, is_bound, first_id,
  source_id, wants_initial, default_provider_id, load_manga_details, details_settle, remote_id_of,
  handle_select_search_result,
}

abbrev pub HasId : Source → Type 0
HasId s = is_blank s.id ≡ false

first-is_source : (s : Source) (rest : List Source) → is_source (s ∷ rest) s.id ≡ true
first-is_source s rest = ground (arith, beq_refl s.id)

is_source-cons :
    (s : Source) (sources : List Source) (id : String)
    → is_source sources id ≡ true
    → is_source (s ∷ sources) id ≡ true
is_source-cons s sources id h = ground (arith, h)

-- No id, or that of one of the providers.
abbrev IsIdOf : List Source → Option Source → Type 0
IsIdOf sources o = (is_blank (source_id o) ≡ true) ⊎ (is_source sources (source_id o) ≡ true)

find-IsIdOf : (p : Source → Bool) (sources : List Source) → IsIdOf sources (find p sources)
find-IsIdOf p [] = inl refl
find-IsIdOf p (s ∷ sources) = elim (Bool-cases (p s)) [
  | inl e ↦
      subst (IsIdOf (s ∷ sources)) (sym (if_true (some s) (find p sources) e))
        (inr (first-is_source s sources))
  | inr e ↦
      subst (IsIdOf (s ∷ sources)) (sym (if_false (some s) (find p sources) e))
        (elim (find-IsIdOf p sources) [
          | inl b ↦ inl b
          | inr f ↦ inr (is_source-cons s sources (source_id (find p sources)) f)
        ])
]

-- The one that is bound, or the first one.
or_first-is_source :
    (s : Source) (rest : List Source) (o : Option Source)
    → IsIdOf (s ∷ rest) o
    → is_source (s ∷ rest) (or_text (source_id o) s.id) ≡ true
or_first-is_source s rest o h = elim (Bool-cases (is_blank (source_id o))) [
  | inl b ↦
      subst (λ id. is_source (s ∷ rest) id ≡ true) (sym (if_true s.id (source_id o) b))
        (first-is_source s rest)
  | inr n ↦
      subst (λ id. is_source (s ∷ rest) id ≡ true) (sym (if_false s.id (source_id o) n))
        (elim h [ inl b ↦ absurd (ground (arith, b, n)) | inr f ↦ f ])
]

-- The search begins with one of the providers, where there is one: with the one that the dialog was opened
-- for if it is among them.
pub default_provider_id-is_source :
    (o : Options) (s : Source) (rest : List Source)
    → o.sources ≡ s ∷ rest
    → (is_source o.sources (default_provider_id o) ≡ true)
      × (wants_initial o ≡ true → default_provider_id o ≡ (o.initial_provider_id otherwise ""))
unfolding default_provider_id
default_provider_id-is_source o s rest e = (
  elim (Bool-cases (wants_initial o)) [
    | inl w ↦
        subst (λ id. is_source o.sources id ≡ true)
          (sym (if_true _ (or_text bound (first_id o.sources)) w)) (ground (arith, w))
    | inr n ↦
        subst (λ id. is_source o.sources id ≡ true)
          (sym (if_false (o.initial_provider_id otherwise "") _ n))
          (subst
            (λ all.
              is_source all (
                or_text (source_id (find (is_bound o.manga.bindings.providers) all)) (first_id all))
              ≡ true)
            (sym e)
            (or_first-is_source s rest (find (is_bound o.manga.bindings.providers) (s ∷ rest))
              (find-IsIdOf (is_bound o.manga.bindings.providers) (s ∷ rest))))
  ],
  λ w. if_true _ _ w,
)
  where
    bound : String
    bound = source_id (find (is_bound o.manga.bindings.providers) o.sources)

-- The manga that is selected: the details where the provider answers, and else the result itself.
abbrev pub selected : Manga → Outcome Manga → Manga
selected m (answers n) = n
selected m (fails err) = m

-- A click on a result without an id, or without a provider, selects the result at once and changes nothing
-- else. Any other click asks the selected provider for the details, and the end of that request selects the
-- details, or the result where the request fails, and leaves neither an error nor a request that is under
-- way.
pub handle_select_search_result-selects :
    (m : Manga) (s : Search)
    → (((is_blank s.selected_provider_id ≡ true) ⊎ (is_blank (remote_id_of m) ≡ true))
        × (handle_select_search_result m s ≡ (s, selects m ∷ [])))
      ⊎ ((is_blank s.selected_provider_id ≡ false)
          × (is_blank (remote_id_of m) ≡ false)
          × ((handle_select_search_result m s).1
              ≡ asks (get_provider_manga_details s.selected_provider_id (remote_id_of m)) ∷ [])
          × ((outcome : Outcome Manga)
              → details_settle (some m) outcome (handle_select_search_result m s).0 ≡ (
                record s { is_loading_details = false; search_error = none },
                selects (selected m outcome) ∷ [],
              )))
unfolding handle_select_search_result load_manga_details details_settle
handle_select_search_result-selects m s = elim (Bool-cases (is_blank s.selected_provider_id)) [
  | inl p ↦ inl (
    inl p,
    if_false {b = not (is_blank s.selected_provider_id) && not (is_blank (remote_id_of m))} _ _
        (ground (arith, p)),
  )
  | inr p ↦ elim (Bool-cases (is_blank (remote_id_of m))) [
    | inl q ↦ inl (
      inr q,
      if_false {b = not (is_blank s.selected_provider_id) && not (is_blank (remote_id_of m))} _ _
          (ground (arith, q)),
    )
    | inr q ↦
        let both : (not (is_blank s.selected_provider_id) && not (is_blank (remote_id_of m)))
            ≡ true =
          ground (arith, p, q) in
        inr (
          p,
          q,
          ap {A = Search × List Output} (λ r. r.1) (if_true _ (s, selects m ∷ []) both),
          λ outcome.
              subst {A = Search × List Output}
                (λ r.
                  details_settle (some m) outcome r.0
                  ≡ (settled, selects (selected m outcome) ∷ []))
                (sym (if_true _ (s, selects m ∷ []) both)) (settles outcome),
        )
  ]
]
  where
    settled : Search
    settled = record s { is_loading_details = false; search_error = none }

    settles :
        (outcome : Outcome Manga)
        → details_settle
            (some m)
            outcome
            (load_manga_details s.selected_provider_id (remote_id_of m) s).0
          ≡ (settled, selects (selected m outcome) ∷ [])
    settles (answers n) = refl
    settles (fails err) = refl
