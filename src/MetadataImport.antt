-- ===== src/MetadataImport.antt =====
-- web/src/components/import-metadata/hooks/useMetadataComparison.ts and the types beside it: comparing
-- the metadata of a manga with those of another, choosing field by field, and saving what was chosen.
-- `to_lower_case` is the platform's case mapping.
pub mod Choices
pub mod Labels
pub mod Saving
pub mod Comparing
pub mod Keeping
pub mod Entering
pub mod Commas
mod Tests
use kiyomi.Base.{
  ℕ, Bool, true, false, not, ◌&&◌, ◌||◌, String, Option, none, some, List, [], ◌∷◌, ◌++◌, map,
  length, any_of, ltb, and_then, is_blank, or_text, ◌<|>◌, ◌otherwise◌, ◌==◌, ℕ_eq, String_eq,
  if◌then◌else◌,
}
use kiyomi.Base.Text.{trim, starts_with}
use kiyomi.Api.{ExternalLink, ProviderRef, Manga, Source}
use kiyomi.Api.Numbers.{◌+text◌}
use kiyomi.MetadataCompare.{
  merge_string_arrays, are_array_sets_equal, are_external_link_sets_equal, has_url, link_key,
}

pub record MetadataValues : Type 0 where
  pub title : String
  pub cover_url : String
  pub description : String
  pub authors : List String
  pub artists : List String
  pub tags : List String
  pub aliases : List String
  pub publisher : String
  pub publishers : List String
  pub release_year : ℕ
  pub start_date : String
  pub end_date : String
  pub content_rating : String
  pub country : String
  pub reading_mode : String
  pub external_links : List ExternalLink
  pub providers : List ProviderRef

pub record MetadataDiffs : Type 0 where
  pub cover : Bool
  pub title : Bool
  pub description : Bool
  pub authors : Bool
  pub artists : Bool
  pub tags : Bool
  pub aliases : Bool
  pub publisher : Bool
  pub publishers : Bool
  pub release_year : Bool
  pub start_date : Bool
  pub end_date : Bool
  pub content_rating : Bool
  pub country : Bool
  pub reading_mode : Bool
  pub external_links : Bool
  pub providers : Bool

-- The provider that is searched: its id, and its name if it is among the sources.
pub record SelectedProvider : Type 0 where
  pub id : String
  pub name : Option String

-- `x ? [x] : []`, and `x || y` with a missing text.
abbrev pub single : Option String → List String
single x = if is_blank (x otherwise "") then [] else (x otherwise "") ∷ []

abbrev pub or_next : Option String → String → String
or_next x y = or_text (x otherwise "") y

-- `x?.trim() || ''`
abbrev pub trimmed : Option String → String
trimmed x = trim (x otherwise "")

abbrev pub first_publisher : Manga → Option String
first_publisher m = elim m.metadata.publishers [ [] ↦ m.publisher | p ∷ publishers ↦ some p ]

-- `links && links.length > 0 ? links : …`
abbrev pub links_or : Option (List ExternalLink) → List ExternalLink → List ExternalLink
links_or none links = links
links_or (some []) links = links
links_or (some (l ∷ more)) links = l ∷ more

abbrev pub year_or : Option ℕ → ℕ → ℕ
year_or year next = if (year otherwise 0) == 0 then next else year otherwise 0

-- The link to the remote manga itself.
abbrev pub own_url : Manga → String
own_url m = or_text (trimmed m.url) (if starts_with m.id "http" then trim m.id else "")

abbrev pub own_link : SelectedProvider → Manga → List ExternalLink
own_link p m =
    if is_blank (own_url m)
    then []
    else record { provider = p.id; label = or_next p.name p.id; url = own_url m } ∷ []

-- Without a remote manga everything is empty.
abbrev pub no_values : MetadataValues
no_values = record {
  title = "";
  cover_url = "";
  description = "";
  authors = [];
  artists = [];
  tags = [];
  aliases = [];
  publisher = "";
  publishers = [];
  release_year = 0;
  start_date = "";
  end_date = "";
  content_rating = "";
  country = "";
  reading_mode = "";
  external_links = [];
  providers = [];
}

abbrev pub provider_text : ProviderRef → String
provider_text p = p.provider_id +text ":" +text p.provider_manga_id

module _ (to_lower_case : String → String) where
  abbrev pub merge : List (Option (List String)) → List String
  merge = merge_string_arrays to_lower_case

  unfoldable pub current_values : Manga → MetadataValues
  unfolding merge_string_arrays
  current_values m = record {
    title = m.metadata.title;
    cover_url =
        m.metadata.cover_url <|> m.metadata.cover_url_camel <|> m.cover_url <|> m.cover
          <|> m.cover_asset_url
        otherwise "";
    description = m.metadata.description;
    authors = merge (some m.metadata.authors ∷ m.authors ∷ some (single m.author) ∷ []);
    artists = merge (some m.metadata.artists ∷ m.artists ∷ some (single m.artist) ∷ []);
    tags = merge (some m.metadata.tags ∷ m.tags ∷ m.genres ∷ []);
    aliases = m.metadata.aliases;
    publisher = first_publisher m otherwise "";
    publishers = merge (some m.metadata.publishers ∷ m.publishers ∷ some (single m.publisher) ∷ []);
    release_year =
        m.metadata.release_year_camel <|> m.metadata.release_year <|> m.release_year_camel
          <|> m.release_year
        otherwise 0;
    start_date =
        m.metadata.start_date_camel <|> m.metadata.start_date <|> m.start_date_camel
          <|> m.start_date
        otherwise "";
    end_date =
        m.metadata.end_date_camel <|> m.metadata.end_date <|> m.end_date_camel <|> m.end_date
        otherwise "";
    content_rating =
        m.metadata.content_rating <|> m.metadata.content_rating_camel <|> m.content_rating_camel
        otherwise "";
    country = m.metadata.country <|> m.country otherwise "";
    reading_mode =
        and_then m.bindings.content (λ c. c.reading_mode)
          <|> m.reading_mode_camel
          <|> m.reading_mode
          <|> m.reading_direction_camel
        otherwise "";
    external_links = links_or m.metadata.external_links_camel (links_or m.external_links []);
    providers = m.bindings.providers;
  }

  -- The loop that pushes the remote links.
  unfoldable pub push_links : List ExternalLink → List ExternalLink → List ExternalLink
  push_links [] pushed = pushed
  push_links (l ∷ links) pushed = push_links links (
      if has_url l
        && not (any_of (λ k. link_key to_lower_case k == link_key to_lower_case l) pushed)
      then pushed ++ l ∷ []
      else pushed)

  unfoldable pub incoming_values : SelectedProvider → Manga → MetadataValues
  unfolding push_links merge_string_arrays
  incoming_values p m = record {
    title = trimmed m.title;
    cover_url = or_next m.cover_url (or_next m.cover (m.cover_asset_url otherwise ""));
    description = trimmed m.description;
    authors = merge (m.authors ∷ some (single m.author) ∷ []);
    artists = merge (m.artists ∷ some (single m.artist) ∷ []);
    tags = merge (m.tags ∷ m.genres ∷ []);
    aliases = m.aliases otherwise [];
    publisher = trimmed m.publisher;
    publishers = merge (m.publishers ∷ some (single m.publisher) ∷ []);
    release_year = year_or m.release_year_camel (m.release_year otherwise 0);
    start_date = or_next m.start_date_camel (m.start_date otherwise "");
    end_date = or_next m.end_date_camel (m.end_date otherwise "");
    content_rating = m.content_rating_camel otherwise "";
    country = m.country otherwise "";
    reading_mode =
        or_next m.reading_mode_camel
          (or_next m.reading_mode (m.reading_direction_camel otherwise ""));
    external_links = push_links (m.external_links otherwise []) (own_link p m);
    providers = m.bindings.providers;
  }

  abbrev pub values_of : SelectedProvider → Option Manga → MetadataValues
  values_of p none = no_values
  values_of p (some m) = incoming_values p m

  -- A text, an array and a provider differ where the incoming one is there.
  abbrev pub text_differs : String → String → Bool
  text_differs incoming current =
      not (is_blank incoming) && not (to_lower_case incoming == to_lower_case current)

  abbrev pub array_differs : List String → List String → Bool
  array_differs incoming current =
      ltb 0 (length incoming)
      && not (are_array_sets_equal to_lower_case (some current) (some incoming))

  unfoldable pub diffs : Bool → MetadataValues → MetadataValues → MetadataDiffs
  unfolding are_array_sets_equal are_external_link_sets_equal
  diffs is_merge current incoming = record {
    cover = not (is_blank incoming.cover_url) && not (incoming.cover_url == current.cover_url);
    title = text_differs incoming.title current.title;
    description =
        not (is_blank incoming.description)
        && not (trim incoming.description == trim current.description);
    authors = array_differs incoming.authors current.authors;
    artists = array_differs incoming.artists current.artists;
    tags = array_differs incoming.tags current.tags;
    aliases = array_differs incoming.aliases current.aliases;
    publisher = text_differs incoming.publisher current.publisher;
    publishers = array_differs incoming.publishers current.publishers;
    release_year =
        ltb 0 incoming.release_year && not (incoming.release_year == current.release_year);
    start_date = text_differs incoming.start_date current.start_date;
    end_date = text_differs incoming.end_date current.end_date;
    content_rating = text_differs incoming.content_rating current.content_rating;
    country = text_differs incoming.country current.country;
    reading_mode = text_differs incoming.reading_mode current.reading_mode;
    external_links =
        ltb 0 (length incoming.external_links)
        && not (
            are_external_link_sets_equal to_lower_case (some current.external_links)
              (some incoming.external_links));
    providers =
        is_merge
        && ltb 0 (length incoming.providers)
        && not (
            are_array_sets_equal to_lower_case (some (map provider_text current.providers))
              (some (map provider_text incoming.providers)));
  }
