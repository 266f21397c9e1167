-- ===== src/Client/System.antt =====
-- The plugins, the cache and the jobs in `api`.
use kiyomi.Base.{
  Bool, false, ◌||◌, String, Option, none, some, List, [], ◌∷◌, is_blank, String_eq, if◌then◌else◌,
  ◌otherwise◌,
}
use kiyomi.Api.Numbers.{◌+text◌}
use kiyomi.Api.Values.{Value, string, Fields, nil, field, is_nullish, to_text}
use kiyomi.ImageUrls.{encode_uri_component}
use kiyomi.Client.{Request, http_post, http_delete, reading, calling, sending, sending_value}
use kiyomi.Client.Params.{query_text, with_query}

abbrev pub get_plugins : Request
get_plugins = reading "/plugins"

abbrev pub reload_plugins : Request
reload_plugins = calling http_post "/plugins/reload"

unfoldable pub get_plugin_logs : String → Request
unfolding encode_uri_component
get_plugin_logs plugin_id = reading ("/plugins/" +text encode_uri_component plugin_id +text "/logs")

unfoldable pub update_plugin_config : String → Value → Request
unfolding encode_uri_component
update_plugin_config plugin_id config =
    sending_value http_post ("/plugins/" +text encode_uri_component plugin_id +text "/config")
      config

abbrev pub get_collisions : Request
get_collisions = reading "/plugins/collisions"

unfoldable pub set_plugin_preference : String → String → Request
set_plugin_preference provider_id preference =
    sending http_post "/plugins/preference"
      (("providerId", string provider_id) ∷ ("preference", string preference) ∷ [])

abbrev pub get_cache_stats : Request
get_cache_stats = reading "/system/cache"

abbrev pub clear_cache : Request
clear_cache = calling http_post "/system/cache/clear"

-- `v === ''`
abbrev pub is_empty_text : Value → Bool
is_empty_text (string s) = is_blank s
is_empty_text v = false

-- The pairs that `getJobs` appends: those with a value.
unfoldable pub filter_pairs : Fields → List (String × String)
filter_pairs nil = []
filter_pairs (field k v fields) =
    if is_nullish v || is_empty_text v
    then filter_pairs fields
    else (k, to_text v) ∷ filter_pairs fields

abbrev pub jobs_path : Option Fields → String
jobs_path none = "/jobs"
jobs_path (some fields) = with_query "/jobs" (query_text (filter_pairs fields))

unfoldable pub get_jobs : Option Fields → Request
unfolding filter_pairs query_text
get_jobs filter = reading (jobs_path filter)

unfoldable pub cancel_job : String → Request
unfolding encode_uri_component
cancel_job id = calling http_post ("/jobs/" +text encode_uri_component id +text "/cancel")

unfoldable pub delete_job : String → Request
unfolding encode_uri_component
delete_job id = calling http_delete ("/jobs/" +text encode_uri_component id)

unfoldable pub cleanup_jobs : Option String → Request
unfolding encode_uri_component
cleanup_jobs status = calling http_delete (
    if is_blank (status otherwise "")
    then "/jobs"
    else "/jobs?status=" +text encode_uri_component (status otherwise ""))
