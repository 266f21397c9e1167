-- ===== src/Client/Tests.antt =====
-- Requests and answers of client.ts, and the theorems at concrete ids and answers.
use kiyomi.Base.{false, true, none, some, [], ◌∷◌, ◌≡◌, refl, is_blank, String_eq}
use kiyomi.Base.Int.{pos}
use kiyomi.Api.Values.{
  undefined, number, flag, string, Fields, nil, field, object_of, field_of, to_text,
}
use kiyomi.Base.Text.{ℕ_text}
use kiyomi.Client.{Response, ApiError, api_error, is_ok, fetch_api}
use kiyomi.Client.Chapters.{Progress, pull_manga}
use kiyomi.Client.System.{get_jobs}
use kiyomi.Client.Providers.{search_manga}
use kiyomi.Client.Errors.{fetch_api-fails}
use kiyomi.Client.Legacy.{sent_value}

search :
    (search_manga "mangadex" "one piece" 2).endpoint
    ≡ "/providers/mangadex/manga?q=one%20piece&page=2"
unfolding search_manga ℕ_text
search = refl

pull_of_manga :
    (pull_manga "m 1" (some "p&q") none).endpoint ≡ "/library/manga/m%201/pull?provider_id=p%26q"
unfolding pull_manga ℕ_text
pull_of_manga = refl

jobs :
    (get_jobs (
      some (
        field "status"
          (string "running")
          (field "type" (string "") (field "all" (flag true) nil))))).endpoint
    ≡ "/jobs?status=running&all=true"
unfolding get_jobs to_text
jobs = refl

abbrev progress : Progress
progress = record { is_read = some true; last_read_page = none }

abbrev refused : Response
refused = record {
  status = 404;
  status_text = "Not Found";
  json = some (object_of (("code", string "NO_MANGA") ∷ ("request_id", string "r1") ∷ []));
}

fetch_api-fails_example :
    (e : ApiError) × (fetch_api refused ≡ api_error e)
    × (is_blank e.message ≡ false)
    × (e.code ≡ string "NO_MANGA")
    × (e.details ≡ undefined)
    × (e.request_id ≡ string "r1")
unfolding is_ok field_of
fetch_api-fails_example = fetch_api-fails refused refl refl tt tt

abbrev old_fields : Fields
old_fields = field "isFavorite" (flag true) (field "userRating" (number (pos 8000)) nil)

old_favorite : sent_value "user_favorite" old_fields ≡ flag true
unfolding field_of
old_favorite = refl
