-- ===== src/Client/Providers.antt =====
-- The providers' catalogs and chapters in `api`, and the sources.
use kiyomi.Base.{ℕ, String}
use kiyomi.Base.Text.{ℕ_text}
use kiyomi.Api.Numbers.{◌+text◌}
use kiyomi.ImageUrls.{encode_uri_component}
use kiyomi.Client.{Request, reading}

abbrev pub get_info : Request
get_info = reading "/info"

abbrev pub get_sources : Request
get_sources = reading "/providers"

-- `mode: 'popular' | 'latest'`
pub data CatalogMode : Type 0 where
  popular latest : CatalogMode

abbrev pub catalog_mode_text : CatalogMode → String
catalog_mode_text popular = "popular"
catalog_mode_text latest = "latest"

unfoldable pub get_explore : String → CatalogMode → ℕ → Request
get_explore provider_id mode page = reading (
    "/providers/"
    +text provider_id
    +text "/manga?mode="
    +text catalog_mode_text mode
    +text "&page="
    +text ℕ_text page)

unfoldable pub get_catalog : String → CatalogMode → ℕ → Request
get_catalog provider_id mode page = reading (
    "/providers/"
    +text provider_id
    +text "/manga?mode="
    +text catalog_mode_text mode
    +text "&page="
    +text ℕ_text page)

unfoldable pub search_manga : String → String → ℕ → Request
unfolding encode_uri_component
search_manga provider_id query page = reading (
    "/providers/"
    +text provider_id
    +text "/manga?q="
    +text encode_uri_component query
    +text "&page="
    +text ℕ_text page)

unfoldable pub get_provider_manga_details : String → String → Request
unfolding encode_uri_component
get_provider_manga_details provider_id remote_id = reading (
    "/providers/"
    +text encode_uri_component provider_id
    +text "/manga/"
    +text encode_uri_component remote_id)

unfoldable pub get_provider_manga_chapters : String → String → Request
unfolding encode_uri_component
get_provider_manga_chapters provider_id remote_id = reading (
    "/providers/"
    +text provider_id
    +text "/manga/"
    +text encode_uri_component remote_id
    +text "/chapters")

unfoldable pub get_provider_chapter_pages : String → String → String → Request
unfolding encode_uri_component
get_provider_chapter_pages provider_id remote_id chapter_id = reading (
    "/providers/"
    +text encode_uri_component provider_id
    +text "/manga/"
    +text encode_uri_component remote_id
    +text "/chapters/"
    +text encode_uri_component chapter_id
    +text "/pages")
