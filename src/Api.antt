-- ===== src/Api.antt =====
-- web/src/types/api.ts, the interfaces that the modelled code reads. An optional or nullable field
-- is an `Option`. A field that the interface has twice, as `is_read` and `isRead`, keeps its name
-- in snake case, and its camel-case twin has `_camel` behind it. A chapter's number, its volume and
-- a rating are in thousandths: 10.5 is `pos 10500`. Page counts and years are natural numbers.
pub mod Numbers
pub mod Values
use kiyomi.Base.{ℕ, Bool, String, Option, List}
use kiyomi.Base.Int.{ℤ}

pub record ExternalLink : Type 0 where
  pub provider : String
  pub label : String
  pub url : String

pub data ContentAvailability : Type 0 where
  available unavailable unknown : ContentAvailability

pub record ContentSource : Type 0 where
  pub provider_id : String
  pub provider_manga_id : Option String
  pub chapter_ref : Option String
  pub last_synced_at : Option String
  pub reading_mode : Option String

pub record ProviderRef : Type 0 where
  pub provider_id : String
  pub provider_manga_id : String
  pub manga_title : Option String

pub record MangaMeta : Type 0 where
  pub title : Option String
  pub aliases : Option (List String)
  pub description : Option String
  pub authors : Option (List String)
  pub artists : Option (List String)
  pub tags : Option (List String)
  pub collections : Option (List String)
  pub reading_direction : Option String
  pub reading_mode : Option String
  pub content_rating : Option String
  pub publisher : Option String
  pub publishers : Option (List String)
  pub release_year : Option ℕ
  pub release_year_camel : Option ℕ
  pub start_date : Option String
  pub start_date_camel : Option String
  pub end_date : Option String
  pub end_date_camel : Option String
  pub country : Option String
  pub cover_url : Option String
  pub external_links : Option (List ExternalLink)
  pub providers : Option (List ProviderRef)
  pub content : Option ContentSource
  pub user_status : Option String
  pub user_rating : Option ℤ
  pub user_favorite : Option Bool
  pub user_notes : Option String
  pub availability : Option ContentAvailability
  pub last_read_chapter_id : Option String
  pub last_read_at : Option String
  pub added_at : Option String
  pub updated_at : Option String

pub record MangaMetadata : Type 0 where
  pub title : String
  pub aliases : List String
  pub description : String
  pub authors : List String
  pub artists : List String
  pub tags : List String
  pub collections : List String
  pub publishers : List String
  pub release_year : Option ℕ
  pub release_year_camel : Option ℕ
  pub start_date : Option String
  pub start_date_camel : Option String
  pub end_date : Option String
  pub end_date_camel : Option String
  pub country : Option String
  pub content_rating : Option String
  pub content_rating_camel : Option String
  pub cover_url : Option String
  pub cover_url_camel : Option String
  pub cover : Option String
  pub banner : Option String
  pub external_links : Option (List ExternalLink)
  pub external_links_camel : Option (List ExternalLink)

pub record MangaUserState : Type 0 where
  pub status : String
  pub rating : ℤ
  pub favorite : Bool
  pub notes : String
  pub last_read_chapter_id : Option String
  pub last_read_chapter_id_camel : Option String
  pub last_read_at : Option String
  pub last_read_at_camel : Option String
  pub added_at : Option String
  pub added_at_camel : Option String
  pub updated_at : Option String
  pub updated_at_camel : Option String

pub record MangaBindings : Type 0 where
  pub providers : List ProviderRef
  pub content : Option ContentSource

pub record Manga : Type 0 where
  pub id : String
  pub metadata : MangaMetadata
  pub user_state : MangaUserState
  pub bindings : MangaBindings
  pub source_id : Option String
  pub content_provider_id : Option String
  pub content_remote_id : Option String
  pub availability : Option ContentAvailability
  pub library_manga_id : Option String
  pub title : Option String
  pub cover : Option String
  pub cover_url : Option String
  pub cover_asset_url : Option String
  pub banner : Option String
  pub url : Option String
  pub description : Option String
  pub author : Option String
  pub authors : Option (List String)
  pub artist : Option String
  pub artists : Option (List String)
  pub tags : Option (List String)
  pub genres : Option (List String)
  pub aliases : Option (List String)
  pub shelves : Option (List String)
  pub collections : Option (List String)
  pub status : Option String
  pub user_status_camel : Option String
  pub user_status : Option String
  pub user_favorite_camel : Option Bool
  pub user_favorite : Option Bool
  pub user_rating_camel : Option ℤ
  pub user_rating : Option ℤ
  pub user_notes_camel : Option String
  pub user_notes : Option String
  pub last_read_chapter_id_camel : Option String
  pub last_read_chapter_id : Option String
  pub last_read_at_camel : Option String
  pub last_read_at : Option String
  pub reading_direction_camel : Option String
  pub reading_direction : Option String
  pub reading_mode_camel : Option String
  pub reading_mode : Option String
  pub content_rating_camel : Option String
  pub content_rating : Option String
  pub publisher : Option String
  pub publishers : Option (List String)
  pub release_year_camel : Option ℕ
  pub release_year : Option ℕ
  pub start_date_camel : Option String
  pub start_date : Option String
  pub end_date_camel : Option String
  pub end_date : Option String
  pub country : Option String
  pub external_links : Option (List ExternalLink)
  pub content : Option ContentSource
  pub meta : Option MangaMeta

pub record ChapterMeta : Type 0 where
  pub title : Option String
  pub number : Option ℤ
  pub volume : Option ℤ
  pub language : Option String
  pub upload_date : Option String
  pub source_order : Option ℤ
  pub content : Option ContentSource
  pub page_count : Option ℕ
  pub page_format : Option String
  pub downloaded_at : Option String
  pub downloaded_pages : Option ℕ
  pub is_downloaded : Option Bool
  pub is_read : Option Bool
  pub last_read_page : Option ℕ
  pub last_read_at : Option String
  pub orphaned : Option Bool
  pub provider_id : Option String

pub record Chapter : Type 0 where
  pub id : String
  pub manga_id : Option String
  pub manga_id_camel : Option String
  pub name : String
  pub title : Option String
  pub number : Option ℤ
  pub volume : Option ℤ
  pub upload_date : Option String
  pub uploaded_at : Option String
  pub meta : Option ChapterMeta
  pub source_order : Option ℤ
  pub is_read : Option Bool
  pub is_read_camel : Option Bool
  pub last_read_page : Option ℕ
  pub last_read_page_camel : Option ℕ
  pub last_read_at : Option String
  pub last_read_at_camel : Option String
  pub provider_id : Option String
  pub provider_id_camel : Option String
  pub orphaned : Option Bool
  pub is_downloaded : Option Bool
  pub is_downloaded_camel : Option Bool
  pub downloaded_pages : Option ℕ
  pub downloaded_pages_camel : Option ℕ
  pub downloaded_at : Option String
  pub downloaded_at_camel : Option String
  pub page_count : Option ℕ
  pub page_count_camel : Option ℕ

pub data JobStatus : Type 0 where
  pending running completed failed : JobStatus

pub record Source : Type 0 where
  pub id : String
  pub name : String
  pub base_url : Option String
  pub lang : Option String
  pub language : Option String
  pub icon : Option String
  pub supports_latest : Option Bool
  pub capabilities : Option (List String)

pub record Page : Type 0 where
  pub index : ℕ
  pub url : String
  pub asset_url : Option String

pub record Job : Type 0 where
  pub id : String
  pub parent_id : Option String
  pub kind : String
  pub payload : Option String
  pub status : JobStatus
  pub retries : ℕ
  pub max_retries : ℕ
  pub concurrency_group : Option String
  pub error : Option String
  pub created_at : String
  pub updated_at : String
  pub started_at : Option String
  pub completed_at : Option String
  pub metadata : Option (List (String × String))
  pub child_count : Option ℕ
