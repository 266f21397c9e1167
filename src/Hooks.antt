-- ===== src/Hooks.antt =====
-- web/src/api/hooks.ts and web/src/lib/queryOptions.ts: the queries of the application, each with its
-- key and its request, and the mutations, each with its request and the keys that its success
-- invalidates.
pub mod Queries
pub mod Manga
pub mod Chapters
pub mod Reaching
pub mod Concerns
mod Tests
use kiyomi.Base.{ℕ, Bool, not, String, Option, List, ◌otherwise◌, is_blank}
use kiyomi.QueryKeys.{QueryKey}
use kiyomi.Client.{Request}

-- The options of `useQuery`: the key, what `queryFn` asks for, and `enabled`.
pub record QueryOptions : Type 0 where
  pub query_key : QueryKey
  pub request : Request
  pub enabled : Bool

-- What a mutation sends, and the keys that are invalidated when it succeeds.
pub record Mutation : Type 0 where
  pub request : Request
  pub invalidates : List QueryKey

-- `Boolean(id)`, and `options?.enabled ?? …`.
abbrev pub is_given : String → Bool
is_given id = not (is_blank id)

abbrev pub with_enabled : Option Bool → QueryOptions → QueryOptions
with_enabled enabled o = record o { enabled = enabled otherwise o.enabled }
