-- ===== src/EditMetadata.antt =====
-- web/src/components/hooks/useEditMetadataForm.ts: the form that edits the metadata of a manga, from the
-- values that it starts with to what is saved. The form holds a year as a natural number.
pub mod Links
pub mod Saving
mod Tests
use kiyomi.Base.{
  ℕ, zero, suc, ◌*◌, Bool, true, false, not, String, Option, none, some, List, [], ◌∷◌, ◌++◌,
  length, filter_by, and_then, is_blank, or_text, ◌<|>◌, ◌otherwise◌, ◌==◌, String_eq,
  if◌then◌else◌,
}
use kiyomi.Base.Int.{pos}
use kiyomi.Base.Text.{trim}
use kiyomi.Api.{ExternalLink, ContentSource, ProviderRef, Manga, MangaBindings}
use kiyomi.Api.Values.{
  Value, number, string, array, object, Values, empty, item, Fields, strings, object_of, fields_of,
  set_field,
}
use kiyomi.Hooks.{Mutation}
use kiyomi.Hooks.Manga.{use_update_library_manga_mutation}
use kiyomi.MetadataImport.{links_or}
use kiyomi.MetadataImport.Saving.{link_values}

-- The state of the form.
pub record Form : Type 0 where
  pub title : String
  pub aliases : List String
  pub description : String
  pub authors : List String
  pub artists : List String
  pub publishers : List String
  pub reading_mode : String
  pub content_rating : String
  pub release_year : ℕ
  pub start_date : String
  pub end_date : String
  pub country : String
  pub tags : List String
  pub shelves : List String
  pub external_links : List ExternalLink

-- `m.bindings?.content?.reading_mode`, and `m.content?.reading_mode`.
abbrev pub mode_of : Option ContentSource → String
mode_of content = and_then content (λ c. c.reading_mode) otherwise ""

unfoldable pub get_initial_reading_mode : Manga → String
get_initial_reading_mode m = or_text (mode_of m.bindings.content) (
    or_text (mode_of m.content) (
      or_text (m.reading_mode_camel otherwise "") (
        or_text (m.reading_mode otherwise "")
          (or_text (m.reading_direction_camel otherwise "") "rtl"))))

-- `xs?.length ? xs : ys`
abbrev pub names_or : List String → List String → List String
names_or [] names = names
names_or (x ∷ xs) names = x ∷ xs

-- `m.metadata.authors`, `m.authors` and `m.author`: the first that names somebody.
abbrev pub named : List String → Option (List String) → Option String → List String
named own all one = names_or own (
    names_or (all otherwise [])
      (if is_blank (one otherwise "") then [] else (one otherwise "") ∷ []))

-- What the form shows when it opens.
unfoldable pub initial : Manga → Form
initial m = record {
  title = m.title otherwise "";
  aliases = names_or m.metadata.aliases (m.aliases otherwise []);
  description = m.metadata.description;
  authors = named m.metadata.authors m.authors m.author;
  artists = named m.metadata.artists m.artists m.artist;
  publishers = named m.metadata.publishers m.publishers m.publisher;
  reading_mode = get_initial_reading_mode m;
  content_rating = m.metadata.content_rating <|> m.content_rating_camel otherwise "safe";
  release_year =
      m.metadata.release_year_camel <|> m.metadata.release_year <|> m.release_year_camel
        <|> m.release_year
      otherwise 0;
  start_date =
      m.metadata.start_date_camel <|> m.metadata.start_date <|> m.start_date_camel <|> m.start_date
      otherwise "";
  end_date =
      m.metadata.end_date_camel <|> m.metadata.end_date <|> m.end_date_camel <|> m.end_date
      otherwise "";
  country = m.metadata.country <|> m.country otherwise "JP";
  tags = names_or m.metadata.tags (names_or (m.tags otherwise []) (m.genres otherwise []));
  shelves = m.shelves <|> m.collections otherwise m.metadata.collections;
  external_links = links_or m.metadata.external_links_camel (m.external_links otherwise []);
}

-- The effect that runs when the dialog or the manga changes.
unfoldable pub open_effect : Bool → Manga → Form → Form
open_effect open_ m s = if open_ then initial m else s

abbrev pub custom_link : ExternalLink
custom_link = record { provider = "custom"; label = "Custom Link"; url = "" }

unfoldable pub handle_add_link : Form → Form
handle_add_link s = record s { external_links = s.external_links ++ custom_link ∷ [] }

-- `prev.filter((_, i) => i !== index)`
abbrev pub without_index {ℓ} : {A : Type ℓ} → ℕ → List A → List A
without_index index [] = []
without_index zero (x ∷ xs) = xs
without_index (suc index) (x ∷ xs) = x ∷ without_index index xs

unfoldable pub handle_remove_link : ℕ → Form → Form
handle_remove_link index s = record s { external_links = without_index index s.external_links }

pub data LinkKey : Type 0 where
  provider_key label_key url_key : LinkKey

abbrev pub with_key : LinkKey → String → ExternalLink → ExternalLink
with_key provider_key val l = record l { provider = val }
with_key label_key val l = record l { label = val }
with_key url_key val l = record l { url = val }

-- The rows of the form call it with their own index. Behind the last link it would make a link that
-- lacks the other keys: that is `none`.
abbrev pub change_link : ℕ → LinkKey → String → List ExternalLink → Option (List ExternalLink)
change_link index key val [] = none
change_link zero key val (l ∷ links) = some (with_key key val l ∷ links)
change_link (suc index) key val (l ∷ links) =
    and_then (change_link index key val links) (λ next. some (l ∷ next))

unfoldable pub handle_link_change : ℕ → LinkKey → String → Form → Option Form
handle_link_change index key val s =
    and_then (change_link index key val s.external_links)
      (λ links. some (record s { external_links = links }))

abbrev pub saved_links : List ExternalLink → List ExternalLink
saved_links links = filter_by (λ l. not (trim l.url == "")) links

abbrev pub first_or_blank : List String → String
first_or_blank [] = ""
first_or_blank (p ∷ publishers) = p

-- The years of the payload are in thousandths, like any number.
unfoldable pub metadata_fields : Form → List (String × Value)
metadata_fields s =
    ("title", string s.title)
    ∷ ("aliases", array (strings s.aliases))
    ∷ ("description", string s.description)
    ∷ ("authors", array (strings s.authors))
    ∷ ("artists", array (strings s.artists))
    ∷ ("publishers", array (strings s.publishers))
    ∷ ("publisher", string (first_or_blank s.publishers))
    ∷ ("contentRating", string s.content_rating)
    ∷ ("content_rating", string s.content_rating)
    ∷ ("releaseYear", number (pos (s.release_year * 1000)))
    ∷ ("release_year", number (pos (s.release_year * 1000)))
    ∷ ("startDate", string s.start_date)
    ∷ ("start_date", string s.start_date)
    ∷ ("endDate", string s.end_date)
    ∷ ("end_date", string s.end_date)
    ∷ ("country", string s.country)
    ∷ ("tags", array (strings s.tags))
    ∷ ("shelves", array (strings s.shelves))
    ∷ ("collections", array (strings s.shelves))
    ∷ ("externalLinks", array (link_values (saved_links s.external_links)))
    ∷ ("external_links", array (link_values (saved_links s.external_links)))
    ∷ []

-- A field that the object has or lacks.
abbrev pub given : String → Option String → List (String × Value)
given name none = []
given name (some s) = (name, string s) ∷ []

-- An object of the manga as the API wrote it.
abbrev pub content_fields : ContentSource → Fields
content_fields c = fields_of (
    ("provider_id", string c.provider_id)
    ∷ (given "provider_manga_id" c.provider_manga_id
        ++ given "chapter_ref" c.chapter_ref
        ++ given "last_synced_at" c.last_synced_at
        ++ given "reading_mode" c.reading_mode))

abbrev pub provider_values : List ProviderRef → Values
provider_values [] = empty
provider_values (p ∷ providers) =
    item
      (object_of (
        ("provider_id", string p.provider_id)
        ∷ ("provider_manga_id", string p.provider_manga_id)
        ∷ given "manga_title" p.manga_title))
      (provider_values providers)

abbrev pub content_field : Option ContentSource → List (String × Value)
content_field none = []
content_field (some c) = ("content", object (content_fields c)) ∷ []

abbrev pub binding_fields : MangaBindings → Fields
binding_fields b =
    fields_of (("providers", array (provider_values b.providers)) ∷ content_field b.content)

abbrev pub provider_of : Option ContentSource → String
provider_of content = and_then content (λ c. some c.provider_id) otherwise ""

abbrev pub content_provider : Manga → String
content_provider m = or_text (provider_of m.bindings.content) (
    or_text (provider_of m.content)
      (or_text (m.content_provider_id otherwise "") (m.source_id otherwise "")))

abbrev pub old_content : Manga → Fields
old_content m =
    and_then (m.bindings.content <|> m.content) (λ c. some (content_fields c))
    otherwise fields_of []

-- `{ ...old, provider_id, reading_mode }`
unfoldable pub new_content : Manga → Form → Fields
new_content m s =
    set_field "reading_mode" (string s.reading_mode)
      (set_field "provider_id" (string (content_provider m)) (old_content m))

-- `{ ...m.bindings, content }`
unfoldable pub new_bindings : Manga → Form → Fields
new_bindings m s = set_field "content" (object (new_content m s)) (binding_fields m.bindings)

unfoldable pub payload : Manga → Form → Fields
payload m s =
    fields_of
      (("metadata", object_of (metadata_fields s)) ∷ ("bindings", object (new_bindings m s)) ∷ [])

unfoldable pub handle_submit : Manga → Form → Mutation
handle_submit m s = use_update_library_manga_mutation m.id (payload m s)

-- What follows a success: the dialog closes, and `onSaved` is called if there is one.
pub data Signal : Type 0 where
  open_change : Bool → Signal
  saved : Signal

unfoldable pub on_success : Bool → List Signal
on_success has_on_saved = open_change false ∷ (if has_on_saved then saved ∷ [] else [])
