-- ===== src/Client/Details.antt =====
-- `getProviderMangaDetails`: the flat answer of a provider, wrapped into a manga of the library.
use kiyomi.Base.{Bool, true, false, String, [], ◌∷◌, ◌&&◌, if◌then◌else◌}
use kiyomi.Base.Int.{pos}
use kiyomi.Api.Values.{
  Value, null, flag, number, string, array, object, item, empty, object_of, get, ◌or_else◌,
  is_nullish, is_truthy,
}
use kiyomi.Client.{Response, Settled, resolved, platform_error, fetch_api}

-- `res.k ? [res.k] : []`
abbrev pub single : String → Value → Value
single k res = if is_truthy (get k res) then array (item (get k res) empty) else array empty

abbrev pub metadata_envelope : Value → Value
metadata_envelope res = object_of (
    ("title", get "title" res or_else string "")
    ∷ ("aliases", get "aliases" res or_else array empty)
    ∷ ("description", get "description" res or_else string "")
    ∷ ("authors", get "authors" res or_else single "author" res)
    ∷ ("artists", get "artists" res or_else single "artist" res)
    ∷ ("tags", get "tags" res or_else get "genres" res or_else array empty)
    ∷ ("collections", get "collections" res or_else array empty)
    ∷ ("publishers", get "publishers" res or_else single "publisher" res)
    ∷ ("release_year", get "release_year" res)
    ∷ ("releaseYear", get "release_year" res)
    ∷ ("start_date", get "start_date" res)
    ∷ ("startDate", get "start_date" res)
    ∷ ("end_date", get "end_date" res)
    ∷ ("endDate", get "end_date" res)
    ∷ ("country", get "country" res)
    ∷ ("content_rating", get "content_rating" res)
    ∷ ("contentRating", get "content_rating" res)
    ∷ ("cover_url", get "cover" res)
    ∷ ("coverUrl", get "cover" res)
    ∷ ("cover", get "cover" res)
    ∷ ("externalLinks", get "externalLinks" res)
    ∷ [])

abbrev pub user_state_envelope : Value → Value
user_state_envelope res = object_of (
    ("status", get "user_status" res or_else get "userStatus" res or_else string "")
    ∷ ("rating", get "user_rating" res or_else get "userRating" res or_else number (pos 0))
    ∷ ("favorite", get "user_favorite" res or_else get "userFavorite" res or_else flag false)
    ∷ ("notes", get "user_notes" res or_else get "userNotes" res or_else string "")
    ∷ ("last_read_chapter_id", get "last_read_chapter_id" res or_else get "lastReadChapterId" res)
    ∷ ("lastReadChapterId", get "lastReadChapterId" res)
    ∷ ("last_read_at", get "last_read_at" res or_else get "lastReadAt" res)
    ∷ ("lastReadAt", get "lastReadAt" res)
    ∷ [])

abbrev pub bindings_envelope : String → String → Value → Value
bindings_envelope provider_id remote_id res = object_of (
    ("providers", array empty)
    ∷ (
      "content",
      object_of (
          ("provider_id", string provider_id)
          ∷ ("provider_manga_id", string remote_id)
          ∷ ("reading_mode", get "reading_mode" res)
          ∷ []),
    )
    ∷ [])

-- `typeof value === 'object'`, of a value that is not `null`.
abbrev pub is_object : Value → Bool
is_object (object fields) = true
is_object (array items) = true
is_object v = false

abbrev pub flat_manga : String → String → Value → Value
flat_manga provider_id remote_id res = object_of (
    ("id", get "id" res or_else string remote_id)
    ∷ ("title", get "title" res)
    ∷ ("cover", get "cover" res)
    ∷ ("coverUrl", get "cover" res)
    ∷ ("coverAssetUrl", get "coverAssetUrl" res)
    ∷ ("banner", get "banner" res)
    ∷ ("url", get "url" res)
    ∷ ("description", get "description" res)
    ∷ ("author", get "author" res)
    ∷ ("authors", get "authors" res)
    ∷ ("artist", get "artist" res)
    ∷ ("artists", get "artists" res)
    ∷ ("tags", get "tags" res)
    ∷ ("genres", get "genres" res)
    ∷ ("aliases", get "aliases" res)
    ∷ ("status", get "status" res)
    ∷ ("userStatus", get "userStatus" res)
    ∷ ("user_status", get "user_status" res)
    ∷ ("userRating", get "userRating" res)
    ∷ ("user_rating", get "user_rating" res)
    ∷ ("userFavorite", get "userFavorite" res)
    ∷ ("user_favorite", get "user_favorite" res)
    ∷ ("userNotes", get "userNotes" res)
    ∷ ("user_notes", get "user_notes" res)
    ∷ ("lastReadChapterId", get "lastReadChapterId" res)
    ∷ ("last_read_chapter_id", get "last_read_chapter_id" res)
    ∷ ("lastReadAt", get "lastReadAt" res)
    ∷ ("last_read_at", get "last_read_at" res)
    ∷ ("readingMode", get "reading_mode" res or_else get "readingMode" res)
    ∷ ("reading_mode", get "reading_mode" res)
    ∷ ("contentRating", get "content_rating" res or_else get "contentRating" res)
    ∷ ("content_rating", get "content_rating" res)
    ∷ ("publisher", get "publisher" res)
    ∷ ("publishers", get "publishers" res)
    ∷ ("releaseYear", get "release_year" res or_else get "releaseYear" res)
    ∷ ("release_year", get "release_year" res)
    ∷ ("startDate", get "start_date" res or_else get "startDate" res)
    ∷ ("start_date", get "start_date" res)
    ∷ ("endDate", get "end_date" res or_else get "endDate" res)
    ∷ ("end_date", get "end_date" res)
    ∷ ("country", get "country" res)
    ∷ ("externalLinks", get "externalLinks" res or_else get "external_links" res)
    ∷ ("availability", get "availability" res)
    ∷ ("sourceId", string provider_id)
    ∷ ("contentProviderId", string provider_id)
    ∷ ("contentRemoteId", string remote_id)
    ∷ ("libraryMangaId", get "libraryMangaId" res or_else null)
    ∷ ("metadata", metadata_envelope res)
    ∷ ("user_state", user_state_envelope res)
    ∷ ("bindings", bindings_envelope provider_id remote_id res)
    ∷ [])

-- Reading a field of `null` throws.
unfoldable pub wrap_details : String → String → Value → Settled Value
wrap_details provider_id remote_id res =
    if is_truthy res && is_truthy (get "metadata" res) && is_object (get "metadata" res)
    then resolved res
    else if is_nullish res
    then platform_error
    else resolved (flat_manga provider_id remote_id res)

abbrev settle_details : String → String → Settled Value → Settled Value
settle_details provider_id remote_id (resolved res) = wrap_details provider_id remote_id res
settle_details provider_id remote_id r = r

unfoldable pub provider_manga_details_of : String → String → Response → Settled Value
unfolding fetch_api wrap_details
provider_manga_details_of provider_id remote_id res =
    settle_details provider_id remote_id (fetch_api res)
