-- ===== src/Client/Library.antt =====
-- The manga of the library in `api`: metadata, user state, bindings, import and merge.
use kiyomi.Base.{Bool, ◌&&◌, String, Option, none, some, [], ◌∷◌, if◌then◌else◌}
use kiyomi.Api.{ProviderRef}
use kiyomi.Api.Numbers.{◌+text◌}
use kiyomi.Api.Values.{
  Value, undefined, flag, string, array, object, Fields, field_of, has_field, set_field, empty,
  optional, get, ◌or_else◌, is_nullish, is_truthy, is_undefined,
}
use kiyomi.ImageUrls.{encode_uri_component}
use kiyomi.Client.{
  Request, http_post, http_put, http_patch, http_delete, reading, calling, sending, sending_value,
  Response, Settled, resolved, platform_error, fetch_api, then_do,
}

abbrev pub manga_path : String → String
manga_path manga_id = "/library/manga/" +text manga_id

abbrev pub get_library_mangas : Request
get_library_mangas = reading "/library/manga"

-- `Array.isArray(res) ? res : (res.data ?? [])`; reading a field of `null` throws.
abbrev pub manga_list : Value → Settled Value
manga_list (array items) = resolved (array items)
manga_list v = if is_nullish v then platform_error else resolved (get "data" v or_else array empty)

abbrev settle_list : Settled Value → Settled Value
settle_list (resolved v) = manga_list v
settle_list r = r

unfoldable pub library_mangas_of : Response → Settled Value
unfolding fetch_api
library_mangas_of res = settle_list (fetch_api res)

unfoldable pub get_manga_details : String → Request
get_manga_details manga_id = reading (manga_path manga_id)

unfoldable pub get_library_metadata : String → Request
get_library_metadata manga_id = reading (manga_path manga_id +text "/metadata")

unfoldable pub patch_library_manga_metadata : String → Value → Request
patch_library_manga_metadata manga_id partial =
    sending_value http_patch (manga_path manga_id +text "/metadata") partial

unfoldable pub get_library_user_state : String → Request
get_library_user_state manga_id = reading (manga_path manga_id +text "/user_state")

unfoldable pub patch_library_manga_user_state : String → Value → Request
patch_library_manga_user_state manga_id partial =
    sending_value http_patch (manga_path manga_id +text "/user_state") partial

unfoldable pub get_library_bindings : String → Request
get_library_bindings manga_id = reading (manga_path manga_id +text "/bindings")

unfoldable pub refresh_metadata : String → Request
refresh_metadata manga_id = calling http_post (manga_path manga_id +text "/metadata/refresh")

-- A flag that may be missing, as a value.
abbrev pub optional_flag : Option Bool → Value
optional_flag none = undefined
optional_flag (some b) = flag b

unfoldable pub add_binding : String → ProviderRef → Option Bool → Request
add_binding manga_id ref set_as_content =
    sending http_post (manga_path manga_id +text "/bindings") (
      ("provider_id", string ref.provider_id)
      ∷ ("provider_manga_id", string ref.provider_manga_id)
      ∷ ("manga_title", optional ref.manga_title)
      ∷ ("set_as_content", optional_flag set_as_content)
      ∷ [])

unfoldable pub remove_binding : String → String → String → Request
unfolding encode_uri_component
remove_binding manga_id provider_id provider_manga_id = calling http_delete (
    manga_path manga_id
    +text "/bindings/"
    +text provider_id
    +text "/"
    +text encode_uri_component provider_manga_id)

unfoldable pub set_active_content_source : String → String → String → Option String → Request
set_active_content_source manga_id provider_id provider_manga_id reading_mode =
    sending http_patch (manga_path manga_id +text "/bindings/content") (
      ("provider_id", string provider_id)
      ∷ ("provider_manga_id", string provider_manga_id)
      ∷ ("reading_mode", optional reading_mode)
      ∷ [])

unfoldable pub post_library_manga : Value → Request
post_library_manga manga = sending_value http_post "/library/manga" manga

unfoldable pub create_library_manga : Value → Request
create_library_manga manga = sending_value http_post "/library/manga" manga

-- `userStatus: string = 'plan_to_read'` is an argument.
unfoldable pub import_provider_manga : String → String → String → Request
import_provider_manga provider_id remote_id user_status =
    sending http_post "/library/manga/import" (
      ("provider_id", string provider_id)
      ∷ ("remote_id", string remote_id)
      ∷ ("user_status", string user_status)
      ∷ [])

unfoldable pub merge_library_manga : Value → Request
merge_library_manga payload = sending_value http_post "/library/manga/merge" payload

unfoldable pub update_library_manga : String → Value → Request
update_library_manga manga_id manga = sending_value http_put (manga_path manga_id) manga

-- `if (k in payload && payload.target === undefined) payload.target = payload[k]`
unfoldable pub fill_from : String → String → Fields → Fields
fill_from k target payload =
    if has_field k payload && is_undefined (field_of target payload)
    then set_field target (field_of k payload) payload
    else payload

unfoldable pub with_snake_case : Fields → Fields
with_snake_case fields = fill_from "userNotes" "user_notes" (
    fill_from "userRating" "user_rating" (
      fill_from "isFavorite" "user_favorite"
        (fill_from "userFavorite" "user_favorite" (fill_from "userStatus" "user_status" fields))))

unfoldable pub patch_library_manga : String → Fields → Request
unfolding with_snake_case
patch_library_manga manga_id fields =
    sending_value http_patch (manga_path manga_id) (object (with_snake_case fields))

unfoldable pub delete_library_manga : String → Request
delete_library_manga manga_id = calling http_delete (manga_path manga_id)

unfoldable pub add_provider : String → ProviderRef → Option Bool → Request
unfolding add_binding
add_provider manga_id ref set_as_content =
    sending http_post (manga_path manga_id +text "/bindings") (
      ("provider_id", string ref.provider_id)
      ∷ ("provider_manga_id", string ref.provider_manga_id)
      ∷ ("manga_title", optional ref.manga_title)
      ∷ ("set_as_content", optional_flag set_as_content)
      ∷ [])

unfoldable pub remove_provider : String → String → String → Request
unfolding encode_uri_component
remove_provider manga_id provider_id provider_manga_id = calling http_delete (
    manga_path manga_id
    +text "/bindings/"
    +text provider_id
    +text "/"
    +text encode_uri_component provider_manga_id)

unfoldable pub switch_content_provider : String → String → String → Request
switch_content_provider manga_id provider_id provider_manga_id =
    sending http_patch (manga_path manga_id +text "/bindings/content")
      (("provider_id", string provider_id) ∷ ("provider_manga_id", string provider_manga_id) ∷ [])

abbrev pub list_providers : String → Request
list_providers manga_id = get_library_bindings manga_id

-- `res?.providers || []`
abbrev pub providers_in : Value → Value
providers_in v = if is_truthy (get "providers" v) then get "providers" v else array empty

abbrev pub list_providers_of : Response → Settled Value
list_providers_of res = then_do providers_in (fetch_api res)
