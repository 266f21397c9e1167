-- ===== src/MetadataImport/Tests.antt =====
-- The import of metadata at concrete mangas and labels.
use kiyomi.Base.{
  true, false, none, some, String, List, [], ◌∷◌, ◌++◌, ◌≡◌, refl, String_eq, if◌then◌else◌,
}
use kiyomi.Base.Int.{pos}
use kiyomi.Base.Text.{trim, includes}
use kiyomi.Api.{Manga}
use kiyomi.Api.Values.{string, fields_of, field_of}
use kiyomi.Samples.{manga, lower}
use kiyomi.MetadataImport.{
  MetadataValues, SelectedProvider, no_values, merge, current_values, incoming_values, diffs,
}
use kiyomi.MetadataImport.Choices.{
  incoming, merged, all_current, Selections, initial, choose, choose_all, init_comparison_state,
}
use kiyomi.MetadataImport.Labels.{all_available_aliases, handle_input_change}
use kiyomi.MetadataImport.Saving.{fields_to_patch}
use kiyomi.MetadataImport.Comparing.{
  init_comparison_state-diffs, init_comparison_state-hidden_title,
}
use kiyomi.MetadataImport.Entering.{AreTitles, all_available_aliases-titles}
use kiyomi.MetadataImport.Commas.{twice, handle_input_change-twice}

abbrev provider : SelectedProvider
provider = record { id = "p"; name = none }

abbrev old : Manga
old = manga "a" "" (pos 0)

abbrev other : Manga
other = record (manga "A" "" (pos 0)) { title = some "A"; authors = some ("x" ∷ []) }

abbrev state : Selections
state = initial none

init_comparison_state-diffs_example :
    let shown =
      diffs lower true (current_values lower old) (incoming_values lower provider other) in
    let chosen = init_comparison_state lower provider old other state in
    (chosen.cover ≡ choose shown.cover)
    × (chosen.authors_mode ≡ choose_all shown.authors)
    × (chosen.artists_mode ≡ choose_all shown.artists)
    × (chosen.publishers_mode ≡ choose_all shown.publishers)
    × (chosen.external_links_mode ≡ (if shown.external_links then merged else all_current))
init_comparison_state-diffs_example =
    init_comparison_state-diffs lower provider old other state true

init_comparison_state-hidden_title_example :
    let new = incoming_values lower provider other in
    let chosen = init_comparison_state lower provider old other state in
    ((diffs lower false (current_values lower old) new).title ≡ false)
    × (chosen.title ≡ incoming)
    × (field_of "title" (fields_of (fields_to_patch lower (current_values lower old) new chosen))
        ≡ string new.title)
unfolding incoming_values trim
init_comparison_state-hidden_title_example =
    init_comparison_state-hidden_title lower provider old other state refl refl refl

abbrev current_title : MetadataValues
current_title = record no_values { title = "b"; aliases = "c" ∷ [] }

abbrev incoming_title : MetadataValues
incoming_title = record no_values { title = "a" }

all_available_aliases-titles_example :
    (titles : List String) × AreTitles lower current_title incoming_title titles
    × (all_available_aliases lower current_title incoming_title
        ≡ merge lower (some ("c" ∷ []) ∷ some [] ∷ some titles ∷ []))
all_available_aliases-titles_example =
    all_available_aliases-titles lower current_title incoming_title

handle_input_change-twice_example :
    handle_input_change lower (twice " x" "y") ("b" ∷ [])
    ≡ ((("b" ∷ []) ++ trim " x" ∷ []) ++ trim " x" ∷ [], "y")
unfolding trim includes
handle_input_change-twice_example =
    handle_input_change-twice lower ("b" ∷ []) " x" "y" refl refl refl refl

typed_twice : handle_input_change lower "x,x,y" [] ≡ ("x" ∷ "x" ∷ [], "y")
unfolding handle_input_change trim
typed_twice = refl
