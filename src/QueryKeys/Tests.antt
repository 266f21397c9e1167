-- ===== src/QueryKeys/Tests.antt =====
-- The theorems about the query keys at concrete keys.
use kiyomi.Base.{false, not, String, ◌≡◌, if◌then◌else◌}
use kiyomi.QueryKeys.{success, is_success, should_dehydrate_query}
use kiyomi.QueryKeys.Keeping.{logs, key_of, is_live, should_dehydrate_query-is_live}

abbrev first : String
first = "m1"

should_dehydrate_query-is_live_example :
    should_dehydrate_query (record { status = success; query_key = key_of (logs "mangadex") })
    ≡ (if is_success success then not (is_live (logs "mangadex")) else false)
should_dehydrate_query-is_live_example = should_dehydrate_query-is_live (logs "mangadex") success
