-- ===== src/EditMetadata/Saving.antt =====
-- What the form sends to be saved.
use kiyomi.Base.{String, String_eq, List, [], ◌∷◌, ◌≡◌, refl, ap, ◌∙◌, ◌==◌, if◌then◌else◌, All}
use kiyomi.Api.{Manga}
use kiyomi.Api.Values.{string, object, Fields, field_of, has_field, fields_of, object_of}
use kiyomi.Client.{http_patch, sending_value}
use kiyomi.Client.Library.{manga_path, patch_library_manga, with_snake_case, fill_from}
use kiyomi.Client.Legacy.{field_of-set_field}
use kiyomi.Hooks.Manga.{use_update_library_manga_mutation}
use kiyomi.EditMetadata.{
  Form, metadata_fields, content_provider, old_content, new_content, binding_fields, new_bindings,
  payload, handle_submit,
}

-- The names that stand twice in what is sent.
abbrev pub twins : List (String × String)
twins =
    ("contentRating", "content_rating")
    ∷ ("releaseYear", "release_year")
    ∷ ("startDate", "start_date")
    ∷ ("endDate", "end_date")
    ∷ ("shelves", "collections")
    ∷ ("externalLinks", "external_links")
    ∷ []

abbrev pub Agree : Fields → String × String → Type 0
Agree fields names = field_of names.0 fields ≡ field_of names.1 fields

-- What is sent for a manga: one object of metadata, in which both spellings of a field agree, and the
-- bindings, in which only the reading mode and the provider of the content are changed: every other
-- field of the bindings and of the content is sent as it was.
pub handle_submit-keeps :
    (m : Manga) (s : Form) (name : String)
    → ((handle_submit m s).request
        ≡ sending_value http_patch (manga_path m.id) (
            object_of (
              ("metadata", object_of (metadata_fields s))
              ∷ ("bindings", object (new_bindings m s))
              ∷ [])))
      × All (Agree (fields_of (metadata_fields s))) twins
      × (field_of name (new_bindings m s) ≡ (
          if "content" == name
          then object (new_content m s)
          else field_of name (binding_fields m.bindings)))
      × (field_of name (new_content m s) ≡ (
          if "reading_mode" == name
          then string s.reading_mode
          else if "provider_id" == name
          then string (content_provider m)
          else field_of name (old_content m)))
unfolding handle_submit use_update_library_manga_mutation patch_library_manga with_snake_case
    fill_from payload has_field metadata_fields field_of new_bindings new_content
handle_submit-keeps m s name = (
  refl,
  (refl, (refl, (refl, (refl, (refl, (refl, tt)))))),
  field_of-set_field "content" name _ _,
  field_of-set_field "reading_mode" name _ _
      ∙ ap (λ v. if "reading_mode" == name then string s.reading_mode else v)
          (field_of-set_field "provider_id" name (string (content_provider m)) (old_content m)),
)
