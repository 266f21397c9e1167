-- ===== src/ReaderPage/Modes.antt =====
-- The choice of a reading mode in the reader, and what the server reads of it.
use kiyomi.Base.{
  true, false, String, String_eq, Option, none, some, List, [], ◌∷◌, ◌≡◌, refl, is_blank, or_text,
  if◌then◌else◌, if_false, ◌otherwise◌, All,
}
use kiyomi.Api.{Manga}
use kiyomi.Api.Values.{string, object, Fields, has_field, fields_of, object_of}
use kiyomi.Client.{http_patch, sending_value}
use kiyomi.Client.Library.{manga_path, patch_library_manga, with_snake_case, fill_from}
use kiyomi.Hooks.{Mutation}
use kiyomi.Hooks.Manga.{use_update_library_manga_mutation}
use kiyomi.EditMetadata.{Form, payload}
use kiyomi.Toasts.{error, Failure}
use kiyomi.ChapterOperations.Mutations.{Effect, toast}

abbrev pub mode_fields : String → Fields
mode_fields mode = fields_of (
    ("reading_mode", string mode)
    ∷ ("readingDirection", string mode)
    ∷ ("content", object_of (("reading_mode", string mode) ∷ []))
    ∷ [])

-- `handleReadingModeChange`, which does nothing more where the manga is not in the library.
unfoldable pub handle_reading_mode_change : String → String → Option Mutation
handle_reading_mode_change effective_manga_id mode =
    if is_blank effective_manga_id
    then none
    else some (use_update_library_manga_mutation effective_manga_id (mode_fields mode))

unfoldable pub mode_error : Failure → List Effect
mode_error err =
    toast (or_text (err.message otherwise "") "Failed to update reading mode") error none ∷ []

-- The fields that the server reads of such a request.
unfoldable pub patch_fields : List String
patch_fields =
    "metadata" ∷ "user_state" ∷ "bindings" ∷ "user_status" ∷ "user_rating" ∷ "user_favorite"
    ∷ "user_notes" ∷ []

abbrev pub Lacks : Fields → String → Type 0
Lacks fields name = has_field name fields ≡ false

-- For a manga of the library the choice of a reading mode sends a request of which the server reads no
-- field, so that nothing is saved; the form that edits the metadata sends the bindings, which it reads.
pub handle_reading_mode_change-Lacks :
    (id mode : String) (m : Manga) (s : Form)
    → is_blank id ≡ false
    → ((mutation : Mutation) × (handle_reading_mode_change id mode ≡ some mutation)
        × (mutation.request ≡ sending_value http_patch (manga_path id) (object (mode_fields mode))))
      × All (Lacks (mode_fields mode)) patch_fields
      × (has_field "bindings" (payload m s) ≡ true)
unfolding handle_reading_mode_change use_update_library_manga_mutation patch_library_manga
    with_snake_case fill_from has_field patch_fields payload
handle_reading_mode_change-Lacks id mode m s h =
    ((_, if_false _ _ h, refl), (refl, (refl, (refl, (refl, (refl, (refl, (refl, tt))))))), refl)
