-- ===== src/MetadataImport/Labels.antt =====
-- The tags and the aliases of the dialog: what is offered, and what is typed.
use Prim.Native.Char.{code}
use Prim.Native.String.{[] as empty, ◌∷◌ as ◌before◌}
use kiyomi.Base.{
  Bool, not, ◌&&◌, ◌||◌, String, some, List, [], ◌∷◌, ◌++◌, filter_by, any_of, eqb, is_blank, ◌==◌,
  String_eq, if◌then◌else◌,
}
use kiyomi.Base.Text.{trim, includes}
use kiyomi.MetadataCompare.{merge_string_arrays}
use kiyomi.MetadataImport.{MetadataValues, merge}

-- `val.split(',')`: a first part, and those behind the commas.
abbrev pub Parts : Type 0
Parts = String × List String

unfoldable pub split : String → Parts
split empty = ("", [])
split (c before s) =
    let (first, rest) = split s in
    if eqb (code c) 44 then ("", first ∷ rest) else (c before first, rest)

-- `parts.slice(0, -1)`, and the last part.
abbrev pub all_but_last : String → List String → List String
all_but_last first [] = []
all_but_last first (p ∷ rest) = first ∷ all_but_last p rest

abbrev pub last_part : String → List String → String
last_part first [] = first
last_part first (p ∷ rest) = last_part p rest

module _ (to_lower_case : String → String) where
  -- `selected.some((s) => s.toLowerCase() === label.toLowerCase())`
  abbrev pub is_selected : List String → String → Bool
  is_selected selected label = any_of (λ s. to_lower_case s == to_lower_case label) selected

  unfoldable pub all_available_tags : MetadataValues → MetadataValues → List String
  unfolding merge_string_arrays
  all_available_tags old new = merge to_lower_case (some old.tags ∷ some new.tags ∷ [])

  -- `title && test ? [title] : []`
  abbrev pub title_if : String → Bool → List String
  title_if title test = if not (is_blank title) && test then title ∷ [] else []

  unfoldable pub all_available_aliases : MetadataValues → MetadataValues → List String
  unfolding merge_string_arrays
  all_available_aliases old new = merge to_lower_case (
      some old.aliases
      ∷ some new.aliases
      ∷ some (title_if new.title (not (to_lower_case new.title == to_lower_case old.title)))
      ∷ some (title_if old.title (not (to_lower_case new.title == to_lower_case new.title)))
      ∷ [])

  unfoldable pub unselected : List String → List String → List String
  unselected available selected = filter_by (λ t. not (is_selected selected t)) available

  -- `removeTag` and `removeAlias`
  unfoldable pub remove_label : String → List String → List String
  remove_label label prev = filter_by (λ t. not (to_lower_case t == to_lower_case label)) prev

  -- `addTag` and `addAlias`: the labels of the render decide, the update is of those of the moment.
  unfoldable pub add_label : List String → String → List String → List String
  add_label rendered label prev =
      let clean = trim label in
      if is_blank clean
      then prev
      else if not (is_selected rendered clean)
      then prev ++ clean ∷ []
      else prev

  unfoldable pub add_labels : List String → List String → List String → List String
  unfolding add_label
  add_labels rendered [] prev = prev
  add_labels rendered (part ∷ parts) prev = add_labels rendered parts (add_label rendered part prev)

  -- `handleTagInputChange` and `handleAliasInputChange`: the labels, and the text of the input.
  unfoldable pub handle_input_change : String → List String → List String × String
  unfolding includes split add_labels
  handle_input_change val rendered =
      let (first, rest) = split val in
      if includes val ","
      then (add_labels rendered (all_but_last first rest) rendered, last_part first rest)
      else (rendered, val)

  -- `handleTagInputKeyDown` and `handleAliasInputKeyDown`
  unfoldable pub handle_input_key_down : String → String → List String → List String × String
  unfolding add_label trim
  handle_input_key_down key input rendered =
      if (key == "Enter" || key == ",") && not (is_blank (trim input))
      then (add_label rendered input rendered, "")
      else (rendered, input)
