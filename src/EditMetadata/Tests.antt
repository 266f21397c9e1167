-- ===== src/EditMetadata/Tests.antt =====
-- The form at a concrete manga.
use kiyomi.Base.{true, false, String, String_eq, some, [], ◌∷◌, ◌≡◌, refl, All, ◌==◌, if◌then◌else◌}
use kiyomi.Base.Int.{pos}
use kiyomi.Api.{Manga}
use kiyomi.Api.Values.{string, object, field_of, fields_of, object_of}
use kiyomi.Samples.{manga, link}
use kiyomi.Client.{http_patch, sending_value}
use kiyomi.Client.Library.{manga_path}
use kiyomi.EditMetadata.{
  Form, initial, get_initial_reading_mode, metadata_fields, content_provider, old_content,
  new_content, binding_fields, new_bindings, handle_submit, on_success, open_change, saved,
}
use kiyomi.EditMetadata.Saving.{twins, Agree, handle_submit-keeps}

abbrev one : Manga
one = record (manga "Title" "reading" (pos 0)) { external_links = some (link "Wiki" "w" ∷ []) }

abbrev form : Form
form = initial one

starts : get_initial_reading_mode one ≡ "rtl"
unfolding get_initial_reading_mode
starts = refl

closes : on_success true ≡ open_change false ∷ saved ∷ []
unfolding on_success
closes = refl

abbrev name : String
name = "providers"

handle_submit-keeps_example :
    ((handle_submit one form).request
      ≡ sending_value http_patch (manga_path one.id) (
          object_of (
            ("metadata", object_of (metadata_fields form))
            ∷ ("bindings", object (new_bindings one form))
            ∷ [])))
    × All (Agree (fields_of (metadata_fields form))) twins
    × (field_of name (new_bindings one form) ≡ (
        if "content" == name
        then object (new_content one form)
        else field_of name (binding_fields one.bindings)))
    × (field_of name (new_content one form) ≡ (
        if "reading_mode" == name
        then string form.reading_mode
        else if "provider_id" == name
        then string (content_provider one)
        else field_of name (old_content one)))
handle_submit-keeps_example = handle_submit-keeps one form name
