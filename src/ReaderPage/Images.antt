-- ===== src/ReaderPage/Images.antt =====
-- `getPageImageUrl` of web/src/lib/utils.ts, and the images that the reader loads ahead.
use kiyomi.Base.{
  ℕ, ◌+◌, ◌-◌, Bool, not, ◌&&◌, ◌||◌, map, String, Option, none, some, List, [], ◌∷◌, ◌++◌, length,
  get_elem?, ltb, is_blank, ◌otherwise◌, ◌==◌, ℕ_eq, String_eq, if◌then◌else◌,
}
use kiyomi.Base.Text.{ℕ_text}
use kiyomi.Api.{Page}
use kiyomi.Api.Numbers.{◌+text◌}
use kiyomi.ImageUrls.{encode_uri_component, get_proxy_image_url}
use kiyomi.Client.Params.{query_text, with_query}

abbrev pub page_path : String → String → ℕ → String
page_path manga_id chapter_id index =
    "/api/v1/library/manga/"
    +text encode_uri_component manga_id
    +text "/chapters/"
    +text encode_uri_component chapter_id
    +text "/pages/"
    +text ℕ_text index

-- A parameter that is set where there is a value.
abbrev pub param_if : Bool → String → String → List (String × String)
param_if test name value = if test then (name, value) ∷ [] else []

abbrev pub page_params : Page → String → List (String × String)
page_params p provider_id =
    param_if (not (is_blank p.url)) "url" p.url
    ++ param_if (not (is_blank provider_id) && not (provider_id == "chapters")) "provider_id"
        provider_id

-- The ids are blank where they are missing.
unfoldable pub get_page_image_url : Option Page → String → String → String → Option String → String
get_page_image_url none manga_id chapter_id provider_id referer = ""
get_page_image_url (some p) manga_id chapter_id provider_id referer =
    if not (is_blank (p.asset_url otherwise ""))
    then p.asset_url otherwise ""
    else if not (is_blank manga_id) && not (is_blank chapter_id) && ltb 0 p.index
    then with_query (page_path manga_id chapter_id p.index) (query_text (page_params p provider_id))
    else get_proxy_image_url (some p.url) referer

abbrev pub at_index : Bool → ℕ → List Page → List Page
at_index test i pages =
    if test then (elim (get_elem? pages i) [ none ↦ [] | some p ↦ p ∷ [] ]) else []

-- The effect that loads the next two pages and the previous one.
unfoldable pub preloaded : Bool → ℕ → List Page → List Page
preloaded is_paged current_page pages =
    if not is_paged || length pages == 0
    then []
    else at_index (ltb current_page (length pages)) current_page pages
      ++ at_index (ltb (current_page + 1) (length pages)) (current_page + 1) pages
      ++ at_index (ltb 1 current_page) (current_page - 2) pages

-- The addresses that it asks for.
unfoldable pub preloaded_urls :
    Bool → ℕ → List Page → String → String → String → Option String → List String
preloaded_urls is_paged current_page pages manga_id chapter_id provider_id referer =
    map (λ p. get_page_image_url (some p) manga_id chapter_id provider_id referer)
      (preloaded is_paged current_page pages)
