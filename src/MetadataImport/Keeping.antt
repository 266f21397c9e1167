-- ===== src/MetadataImport/Keeping.antt =====
-- What is saved after the button that keeps everything as it is.
use kiyomi.Base.{String, none, [], ◌∷◌, ◌≡◌, refl}
use kiyomi.Api.{Manga}
use kiyomi.Api.Values.{array, strings, object_of}
use kiyomi.Client.Library.{patch_library_manga_metadata, add_binding}
use kiyomi.MetadataImport.{MetadataValues, SelectedProvider, current_values}
use kiyomi.MetadataImport.Choices.{Selections, handle_keep_current}
use kiyomi.MetadataImport.Saving.{import_requests, binding_ref, fields_to_patch}

-- After `handleKeepCurrent` an import sends two requests: it writes back the tags and the aliases that
-- the manga has, and it binds the provider. No other field is sent, and the reading mode stays.
pub import_requests-handle_keep_current :
    (to_lower_case : String → String) (p : SelectedProvider) (manga remote : Manga)
    (new : MetadataValues) (s : Selections)
    → import_requests to_lower_case p manga remote
        (current_values to_lower_case manga)
        new
        (handle_keep_current to_lower_case manga s)
      ≡ patch_library_manga_metadata manga.id (
          object_of (
            ("tags", array (strings (current_values to_lower_case manga).tags))
            ∷ ("aliases", array (strings manga.metadata.aliases))
            ∷ []))
        ∷ add_binding manga.id (binding_ref p remote new) none
        ∷ []
unfolding import_requests fields_to_patch handle_keep_current current_values
import_requests-handle_keep_current to_lower_case p manga remote new s = refl
