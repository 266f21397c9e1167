-- ===== src/QueryKeys/Prefixes.antt =====
-- Which queries the invalidation of a key reaches: those whose keys begin with it.
use kiyomi.Base.{String, Option, [], ◌∷◌, ◌++◌, ◌≡◌, ◌↔◌, ap, sym}
use kiyomi.QueryKeys.{
  text, QueryKey, manga_details, manga_provider_details, manga_detail, manga_metadata,
  manga_user_state, manga_bindings, chapters_list, chapters_provider_list, chapters_remote_list,
  chapters_remote_pages, chapters_pages,
}

-- One key is the other, or goes on behind it.
abbrev pub IsPrefix : QueryKey → QueryKey → Type 0
IsPrefix k l = (rest : QueryKey) × (l ≡ k ++ rest)

-- The text at the second place of a key.
abbrev pub second : QueryKey → String
second (p ∷ text s ∷ parts) = s
second k = ""

-- A key of two texts is a prefix of a key that goes on behind a first text.
pub two_parts-IsPrefix_iff :
    (s a b : String) (parts : QueryKey)
    → IsPrefix (text s ∷ text a ∷ []) (text s ∷ text b ∷ parts) ↔ (a ≡ b)
two_parts-IsPrefix_iff s a b parts =
    (λ (rest, e). sym (ap second e), λ e. (parts, ap (λ t. text s ∷ text t ∷ parts) (sym e)))

-- Invalidating the detail of a manga reaches its metadata, its user state and its bindings, and those
-- of no other manga. It reaches what `manga.details` and `manga.providerDetails` name only where the
-- id of the manga is the word in their keys.
pub manga_detail-IsPrefix_iff :
    (id other provider remote : String)
    → (IsPrefix (manga_detail id) (manga_metadata other) ↔ (id ≡ other))
      × (IsPrefix (manga_detail id) (manga_user_state other) ↔ (id ≡ other))
      × (IsPrefix (manga_detail id) (manga_bindings other) ↔ (id ≡ other))
      × (IsPrefix (manga_detail id) (manga_details other) ↔ (id ≡ "detail"))
      × (IsPrefix (manga_detail id) (manga_provider_details provider remote) ↔ (id ≡ "provider"))
manga_detail-IsPrefix_iff id other provider remote = (
  two_parts-IsPrefix_iff "manga" id other _,
  two_parts-IsPrefix_iff "manga" id other _,
  two_parts-IsPrefix_iff "manga" id other _,
  two_parts-IsPrefix_iff "manga" id "detail" _,
  two_parts-IsPrefix_iff "manga" id "provider" _,
)

-- Invalidating the chapters of a manga reaches its lists of all providers, and those of no other
-- manga. It reaches the chapters of a remote manga and the pages of chapters only where the id of the
-- manga is the word in their keys.
pub chapters_list-IsPrefix_iff :
    (id other provider remote chapter : String) (manga source : Option String)
    → (IsPrefix (chapters_list id) (chapters_provider_list other provider) ↔ (id ≡ other))
      × (IsPrefix (chapters_list id) (chapters_remote_list provider remote) ↔ (id ≡ "remote"))
      × (IsPrefix (chapters_list id) (chapters_remote_pages provider remote chapter)
          ↔ (id ≡ "remote"))
      × (IsPrefix (chapters_list id) (chapters_pages chapter manga source) ↔ (id ≡ "pages"))
chapters_list-IsPrefix_iff id other provider remote chapter manga source = (
  two_parts-IsPrefix_iff "chapters" id other _,
  two_parts-IsPrefix_iff "chapters" id "remote" _,
  two_parts-IsPrefix_iff "chapters" id "remote" _,
  two_parts-IsPrefix_iff "chapters" id "pages" _,
)
