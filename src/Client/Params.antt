-- ===== src/Client/Params.antt =====
-- `URLSearchParams`, as the list of its pairs.
use kiyomi.Base.{String, List, [], ◌∷◌, is_blank, if◌then◌else◌}
use kiyomi.Api.Numbers.{◌+text◌}
use kiyomi.Client.Queries.{form_encode}

abbrev pub pair_text : String × String → String
pair_text (name, value) = form_encode name +text "=" +text form_encode value

-- `params.toString()`
unfoldable pub query_text : List (String × String) → String
unfolding form_encode
query_text [] = ""
query_text (p ∷ []) = pair_text p
query_text (p ∷ q ∷ pairs) = pair_text p +text "&" +text query_text (q ∷ pairs)

-- `qs ? path + '?' + qs : path`
abbrev pub with_query : String → String → String
with_query path query = if is_blank query then path else path +text "?" +text query
