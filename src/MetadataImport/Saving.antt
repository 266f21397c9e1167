-- ===== src/MetadataImport/Saving.antt =====
-- `importMutation`: what is sent to the server, and what is invalidated and reported.
use kiyomi.Base.{
  ◌*◌, Bool, true, false, not, ◌&&◌, String, Option, none, some, List, [], ◌∷◌, ◌++◌, find,
  is_blank, or_text, ◌==◌, ℕ_eq, String_eq, if◌then◌else◌, ◌otherwise◌, ◌<|>◌,
}
use kiyomi.Base.Int.{pos}
use kiyomi.Api.{ExternalLink, Manga, ProviderRef, Source}
use kiyomi.Api.Numbers.{◌+text◌}
use kiyomi.Api.Values.{Value, number, string, array, Values, empty, item, strings, object_of}
use kiyomi.QueryKeys.{
  QueryKey, library_all, library_providers, manga_all, manga_details, manga_metadata,
  manga_bindings, chapters_list,
}
use kiyomi.MetadataCompare.{merge_string_arrays, merge_external_link_arrays}
use kiyomi.Client.{Request}
use kiyomi.Client.Library.{
  merge_library_manga, patch_library_manga_metadata, set_active_content_source, add_binding,
}
use kiyomi.Toasts.{Failure}
use kiyomi.MetadataImport.{MetadataValues, SelectedProvider, merge, current_values, incoming_values}
use kiyomi.MetadataImport.Choices.{
  Choice, current, incoming, MultiChoice, all_current, all_incoming, merged, Selections,
}

abbrev pub link_value : ExternalLink → Value
link_value l =
    object_of
      (("provider", string l.provider) ∷ ("label", string l.label) ∷ ("url", string l.url) ∷ [])

abbrev pub link_values : List ExternalLink → Values
link_values [] = empty
link_values (l ∷ links) = item (link_value l) (link_values links)

-- A field that is sent or not.
abbrev pub field_if : Bool → String → Value → List (String × Value)
field_if test name value = if test then (name, value) ∷ [] else []

abbrev pub is_incoming : Choice → Bool
is_incoming current = false
is_incoming incoming = true

-- A text that is chosen and there.
abbrev pub text_field : Choice → String → String → List (String × Value)
text_field choice name new = field_if (is_incoming choice && not (is_blank new)) name (string new)

-- `remote.id || remote.contentRemoteId || remote.url || ''`
abbrev pub provider_manga_id_of : Manga → String
provider_manga_id_of remote =
    or_text remote.id (or_text (remote.content_remote_id otherwise "") (remote.url otherwise ""))

abbrev pub binding_ref : SelectedProvider → Manga → MetadataValues → ProviderRef
binding_ref p remote new = record {
  provider_id = p.id;
  provider_manga_id = provider_manga_id_of remote;
  manga_title = some (or_text (remote.title otherwise "") new.title);
}

-- `mergeMapScalar`
abbrev pub merge_scalar : String → Choice → Value
merge_scalar incoming_id current = string "keep"
merge_scalar incoming_id incoming = string ("source:" +text incoming_id)

abbrev pub source_ids : String → Option (List String) → List String
source_ids incoming_id none = incoming_id ∷ []
source_ids incoming_id (some []) = incoming_id ∷ []
source_ids incoming_id (some (id ∷ ids)) = id ∷ ids

unfoldable pub merge_payload : Manga → Manga → Option (List String) → Selections → Value
merge_payload manga other source_manga_ids s = object_of (
    ("keep_manga_id", string manga.id)
    ∷ ("source_manga_ids", array (strings (source_ids other.id source_manga_ids)))
    ∷ (
      "metadata",
      object_of (
          ("title", merge_scalar other.id s.title)
          ∷ ("description", merge_scalar other.id s.description)
          ∷ ("aliases", string "merge")
          ∷ ("tags", string "merge")
          ∷ ("authors", string "merge")
          ∷ ("artists", string "merge")
          ∷ ("publishers", string "merge")
          ∷ ("release_year", merge_scalar other.id s.release_year)
          ∷ ("cover_url", merge_scalar other.id s.cover)
          ∷ ("providers", string "merge")
          ∷ []),
    )
    ∷ [])

-- What the mutation sends, or the error that it throws first.
pub data Plan : Type 0 where
  sends_in_turn : List Request → Plan
  throws : String → Plan

-- `selectedRemoteManga ?? incomingManga`
abbrev pub merge_plan : Manga → Option (List String) → Selections → Option Manga → Plan
merge_plan manga source_manga_ids s none = throws "No incoming manga"
merge_plan manga source_manga_ids s (some other) =
    sends_in_turn (merge_library_manga (merge_payload manga other source_manga_ids s) ∷ [])

module _ (to_lower_case : String → String) where
  -- An array by its mode.
  abbrev pub array_field : MultiChoice → String → List String → List String → List (String × Value)
  array_field all_current name old new = []
  array_field all_incoming name old new = (name, array (strings new)) ∷ []
  array_field merged name old new =
      (name, array (strings (merge to_lower_case (some old ∷ some new ∷ [])))) ∷ []

  abbrev pub links_field :
      MultiChoice → List ExternalLink → List ExternalLink → List (String × Value)
  links_field all_current old new = []
  links_field all_incoming old new = ("external_links", array (link_values new)) ∷ []
  links_field merged old new =
      (
        "external_links",
        array (link_values (merge_external_link_arrays to_lower_case (some old ∷ some new ∷ []))),
      )
      ∷ []

  unfoldable pub fields_to_patch :
      MetadataValues → MetadataValues → Selections → List (String × Value)
  unfolding merge_string_arrays merge_external_link_arrays
  fields_to_patch old new s =
      field_if (is_incoming s.title && not (is_blank new.title) && not (new.title == old.title))
        "title" (string new.title)
      ++ text_field s.cover "cover_url" new.cover_url
      ++ text_field s.description "description" new.description
      ++ array_field s.authors_mode "authors" old.authors new.authors
      ++ array_field s.artists_mode "artists" old.artists new.artists
      ++ array_field s.publishers_mode "publishers" old.publishers new.publishers
      ++ ("tags", array (strings s.tags))
        ∷ ("aliases", array (strings s.aliases))
        ∷ (field_if (is_incoming s.release_year && not (new.release_year == 0)) "release_year"
              (number (pos (new.release_year * 1000)))
            ++ text_field s.start_date "start_date" new.start_date
            ++ text_field s.end_date "end_date" new.end_date
            ++ text_field s.content_rating "content_rating" new.content_rating
            ++ text_field s.country "country" new.country
            ++ links_field s.external_links_mode old.external_links new.external_links)

  -- The requests of an import, each sent when the one before has succeeded. Tags and aliases are always
  -- among the fields, so that there is always something to patch.
  unfoldable pub import_requests :
      SelectedProvider → Manga → Manga → MetadataValues → MetadataValues → Selections → List Request
  unfolding fields_to_patch patch_library_manga_metadata set_active_content_source add_binding
  import_requests p manga remote old new s =
      patch_library_manga_metadata manga.id (object_of (fields_to_patch old new s))
      ∷ ((if is_incoming s.reading_mode
              && not (is_blank new.reading_mode)
              && not (to_lower_case new.reading_mode == to_lower_case old.reading_mode)
            then set_active_content_source manga.id p.id (provider_manga_id_of remote)
                (some new.reading_mode)
              ∷ []
            else [])
          ++ add_binding manga.id (binding_ref p remote new) none ∷ [])

  abbrev pub import_plan : SelectedProvider → Manga → Selections → Option Manga → Plan
  import_plan p manga s none = throws "No selection"
  import_plan p manga s (some remote) =
      if is_blank p.id
      then throws "No selection"
      else sends_in_turn (
          import_requests p manga remote (current_values to_lower_case manga)
            (incoming_values to_lower_case p remote) s)

  -- In merge mode the dialog comes with the other manga; otherwise it was found by a search.
  unfoldable pub plan :
      Bool → SelectedProvider → Manga → Option Manga → Option (List String) → Selections → Plan
  unfolding merge_payload import_requests current_values incoming_values merge_library_manga
  plan true p manga given source_manga_ids s =
      merge_plan manga source_manga_ids s (s.remote <|> given)
  plan false p manga given source_manga_ids s = import_plan p manga s s.remote

abbrev pub saved_keys : String → List QueryKey
saved_keys id =
    manga_metadata id
    ∷ manga_bindings id
    ∷ manga_details id
    ∷ manga_all
    ∷ library_all
    ∷ chapters_list id
    ∷ library_providers id
    ∷ []

abbrev pub name_of : Option Source → String
name_of none = ""
name_of (some s) = s.name

-- `sources.find((s) => s.id === selectedProviderId)?.name || 'Provider'`
abbrev pub provider_name : List Source → String → String
provider_name sources id = or_text (name_of (find (λ s. s.id == id) sources)) "Provider"

unfoldable pub saved_message : Bool → List Source → String → String
saved_message true sources id = "Manga merged successfully"
saved_message false sources id =
    "Metadata imported from \"" +text provider_name sources id +text "\""

-- A message that is missing is printed as `undefined`.
unfoldable pub failed_message : Bool → Failure → String
failed_message is_merge err =
    "Failed to "
    +text (if is_merge then "merge" else "import")
    +text ": "
    +text (err.message otherwise "undefined")
