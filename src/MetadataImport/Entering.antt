-- ===== src/MetadataImport/Entering.antt =====
-- The labels that are offered and typed: tags and aliases.
use kiyomi.Base.{
  Bool, true, false, not, ◌&&◌, ◌||◌, String, some, List, [], ◌∷◌, ◌++◌, map, is_blank, ◌==◌,
  String_eq, ◌≡◌, ◌≢◌, ◌⊎◌, refl, sym, ap, ◌∙◌, inl, inr, Bool-cases, beq_refl, eq_of_beq,
  ne_of_beq, if_true, if_false, arith,
}
use mathlib.Core.Path.{subst}
use kiyomi.Base.Text.{trim}
use kiyomi.Base.Sets.{has, IsDistinct}
use kiyomi.Base.Sets.Laws.{IsDistinct-snoc}
use kiyomi.MetadataCompare.{merge_string_arrays, merge_arrays, merge_items}
use kiyomi.MetadataImport.{MetadataValues, merge}
use kiyomi.MetadataImport.Labels.{
  is_selected, title_if, all_available_aliases, add_label, handle_input_key_down,
}

module _ (to_lower_case : String → String) where
  no_title : (title : String) (test : Bool) → test ≡ false → title_if to_lower_case title test ≡ []
  no_title title test h = ground arith

  -- The titles that are offered beside the aliases.
  abbrev pub AreTitles : MetadataValues → MetadataValues → List String → Type 0
  AreTitles old new titles =
      ((is_blank new.title ≡ false)
        × (to_lower_case new.title ≢ to_lower_case old.title)
        × (titles ≡ new.title ∷ []))
      ⊎ (((is_blank new.title ≡ true) ⊎ (to_lower_case new.title ≡ to_lower_case old.title))
          × (titles ≡ []))

  title_if-AreTitles :
      (old new : MetadataValues)
      → AreTitles old new (
          title_if to_lower_case new.title
            (not (to_lower_case new.title == to_lower_case old.title)))
  title_if-AreTitles old new = elim (Bool-cases (is_blank new.title)) [
    | inl b ↦ inr (inl b, if_false _ _ (ap (λ b. not b && other) b))
    | inr b ↦ elim (Bool-cases (to_lower_case new.title == to_lower_case old.title)) [
      | inl e ↦ inr (
        inr (eq_of_beq _ _ e),
        if_false _ _ (
            ap (λ x. not x && not (to_lower_case new.title == to_lower_case old.title)) b
            ∙ ap not e),
      )
      | inr e ↦ inl (
        b,
        ne_of_beq _ _ e,
        if_true _ _ (
            ap (λ x. not x && not (to_lower_case new.title == to_lower_case old.title)) b
            ∙ ap not e),
      )
    ]
  ]
    where
      other : Bool
      other = not (to_lower_case new.title == to_lower_case old.title)

  -- The aliases that are offered are those of both mangas and the incoming title, where that is not blank
  -- and differs from the current one by more than the case of its letters. The current title is not added
  -- to them.
  pub all_available_aliases-titles :
      (old new : MetadataValues)
      → (titles : List String) × AreTitles old new titles
        × (all_available_aliases to_lower_case old new
            ≡ merge to_lower_case (some old.aliases ∷ some new.aliases ∷ some titles ∷ []))
  unfolding all_available_aliases merge_string_arrays merge_arrays merge_items
  all_available_aliases-titles old new = (
    incoming,
    title_if-AreTitles old new,
    ap
        (λ t.
          merge to_lower_case (some old.aliases ∷ some new.aliases ∷ some incoming ∷ some t ∷ []))
        (no_title old.title _ (ap not (beq_refl (to_lower_case new.title)))),
  )
    where
      incoming : List String
      incoming =
          title_if to_lower_case new.title
            (not (to_lower_case new.title == to_lower_case old.title))

  -- No two labels are the same but for the case of their letters.
  abbrev pub IsUnique : List String → Type 0
  IsUnique labels = IsDistinct (map to_lower_case labels)

  has-map :
      (labels : List String) (label : String)
      → has (map to_lower_case labels) (to_lower_case label)
        ≡ is_selected to_lower_case labels label
  unfolding has
  has-map [] label = refl
  has-map (l ∷ labels) label = ground (arith, has-map labels label)

  map-snoc :
      (labels : List String) (label : String)
      → map to_lower_case (labels ++ label ∷ [])
        ≡ map to_lower_case labels ++ to_lower_case label ∷ []
  map-snoc [] label = refl
  map-snoc (l ∷ labels) label = ap (to_lower_case l ∷◌) (map-snoc labels label)

  snoc-IsUnique :
      (labels : List String) (label : String)
      → IsUnique labels
      → is_selected to_lower_case labels label ≡ false
      → IsUnique (labels ++ label ∷ [])
  snoc-IsUnique labels label u h = subst IsDistinct (sym (map-snoc labels label)) (
      IsDistinct-snoc (map to_lower_case labels) (to_lower_case label) u (has-map labels label ∙ h))

  add_label-IsUnique :
      (labels : List String) (label : String)
      → IsUnique labels
      → IsUnique (add_label to_lower_case labels label labels)
  unfolding add_label
  add_label-IsUnique labels label u = elim (Bool-cases (is_blank (trim label))) [
    | inl e ↦ rw e u
    | inr e ↦ elim (Bool-cases (is_selected to_lower_case labels (trim label))) [
      | inl f ↦ rw (e, f) u
      | inr f ↦ rw (e, f) (snoc-IsUnique labels (trim label) u f)
    ]
  ]

  -- A label that is entered with the Enter key, with a comma or with any other key leaves no label twice.
  pub handle_input_key_down-IsUnique :
      (key input : String) (labels : List String)
      → IsUnique labels
      → IsUnique (handle_input_key_down to_lower_case key input labels).0
  unfolding handle_input_key_down
  handle_input_key_down-IsUnique key input labels u =
      elim (Bool-cases ((key == "Enter" || key == ",") && not (is_blank (trim input)))) [
        | inl e ↦ rw e (add_label-IsUnique labels input u)
        | inr e ↦ rw e u
      ]
