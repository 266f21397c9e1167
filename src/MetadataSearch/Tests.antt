-- ===== src/MetadataSearch/Tests.antt =====
-- The search at concrete sources.
use kiyomi.Base.{true, false, String, String_eq, none, some, [], ◌∷◌, ◌≡◌, ◌⊎◌, refl, is_blank}
use kiyomi.Base.Int.{pos}
use kiyomi.Base.Text.{starts_with_fold}
use kiyomi.Api.{Manga, Source}
use kiyomi.Samples.{manga}
use kiyomi.Client.Providers.{get_provider_manga_details}
use kiyomi.MetadataSearch.{
  Options, Search, initial, default_provider_id, is_url, asks, selects, Outcome, details_settle,
  remote_id_of, handle_select_search_result,
}
use kiyomi.MetadataSearch.Choosing.{selected, handle_select_search_result-selects}

abbrev source : String → Source
source new_id = record {
  id = new_id;
  name = new_id;
  base_url = none;
  lang = none;
  language = none;
  icon = none;
  supports_latest = none;
  capabilities = none;
}

abbrev options : Options
options = record {
  manga = manga "m1" "reading" (pos 0);
  sources = source "p" ∷ source "q" ∷ [];
  is_open = true;
  initial_provider_id = some "q";
  initial_remote_id = none;
}

prefers_initial : default_provider_id options ≡ "q"
unfolding default_provider_id
prefers_initial = refl

reads_address : is_url "HTTPS://a.b" ≡ true
unfolding starts_with_fold
reads_address = refl

abbrev result : Manga
result = manga "m2" "" (pos 0)

abbrev search : Search
search = initial options

handle_select_search_result-selects_example :
    (((is_blank search.selected_provider_id ≡ true) ⊎ (is_blank (remote_id_of result) ≡ true))
      × (handle_select_search_result result search ≡ (search, selects result ∷ [])))
    ⊎ ((is_blank search.selected_provider_id ≡ false)
        × (is_blank (remote_id_of result) ≡ false)
        × ((handle_select_search_result result search).1
            ≡ asks (get_provider_manga_details search.selected_provider_id (remote_id_of result))
              ∷ [])
        × ((outcome : Outcome Manga)
            → details_settle (some result) outcome (handle_select_search_result result search).0 ≡ (
              record search { is_loading_details = false; search_error = none },
              selects (selected result outcome) ∷ [],
            )))
handle_select_search_result-selects_example = handle_select_search_result-selects result search
