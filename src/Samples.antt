-- ===== src/Samples.antt =====
-- Chapters, texts and a case mapping for the examples.
use kiyomi.Base.{
  arith, [], false, ℕ, Bool, String, none, some, ◌==◌, String_eq, if◌then◌else◌, ◌≡◌, refl,
  is_blank, Bool-cases, inl, inr, eq_of_beq,
}
use kiyomi.Base.Int.{ℤ, pos, ◌-ℤ◌}
use kiyomi.Base.Sort.Collations.{IsCollation}
use kiyomi.Api.{Chapter, ExternalLink, Manga}

-- A chapter by its id, its number in thousandths, whether it is read, and its last page.
abbrev pub chapter : String → ℤ → Bool → ℕ → Chapter
chapter new_id new_number read page = record {
  id = new_id;
  manga_id = none;
  manga_id_camel = none;
  name = new_id;
  title = none;
  number = some new_number;
  volume = none;
  upload_date = none;
  uploaded_at = none;
  meta = none;
  source_order = none;
  is_read = some read;
  is_read_camel = none;
  last_read_page = some page;
  last_read_page_camel = none;
  last_read_at = none;
  last_read_at_camel = none;
  provider_id = none;
  provider_id_camel = none;
  orphaned = none;
  is_downloaded = none;
  is_downloaded_camel = none;
  downloaded_pages = none;
  downloaded_pages_camel = none;
  downloaded_at = none;
  downloaded_at_camel = none;
  page_count = none;
  page_count_camel = none;
}

abbrev pub link : String → String → ExternalLink
link new_label new_url = record { provider = ""; label = new_label; url = new_url }

-- The case of one letter.
abbrev pub lower : String → String
lower s = if s == "A" then "a" else s

pub lower-keeps_blank : (s : String) → is_blank (lower s) ≡ is_blank s
lower-keeps_blank s = elim (Bool-cases (s == "A")) [
  | inl e ↦ rw (eq_of_beq s "A" e) refl
  | inr e ↦ rw e refl
]

-- A manga by its title, its status and its rating.
abbrev pub manga : String → String → ℤ → Manga
manga new_title new_status new_rating = record {
  id = new_title;
  metadata = record {
    title = new_title;
    aliases = [];
    description = "";
    authors = [];
    artists = [];
    tags = [];
    collections = [];
    publishers = [];
    release_year = none;
    release_year_camel = none;
    start_date = none;
    start_date_camel = none;
    end_date = none;
    end_date_camel = none;
    country = none;
    content_rating = none;
    content_rating_camel = none;
    cover_url = none;
    cover_url_camel = none;
    cover = none;
    banner = none;
    external_links = none;
    external_links_camel = none;
  };
  user_state = record {
    status = new_status;
    rating = new_rating;
    favorite = false;
    notes = "";
    last_read_chapter_id = none;
    last_read_chapter_id_camel = none;
    last_read_at = none;
    last_read_at_camel = none;
    added_at = none;
    added_at_camel = none;
    updated_at = none;
    updated_at_camel = none;
  };
  bindings = record { providers = []; content = none };
  source_id = none;
  content_provider_id = none;
  content_remote_id = none;
  availability = none;
  library_manga_id = none;
  title = some new_title;
  cover = none;
  cover_url = none;
  cover_asset_url = none;
  banner = none;
  url = none;
  description = none;
  author = none;
  authors = none;
  artist = none;
  artists = none;
  tags = none;
  genres = none;
  aliases = none;
  shelves = none;
  collections = none;
  status = none;
  user_status_camel = none;
  user_status = none;
  user_favorite_camel = none;
  user_favorite = none;
  user_rating_camel = none;
  user_rating = none;
  user_notes_camel = none;
  user_notes = none;
  last_read_chapter_id_camel = none;
  last_read_chapter_id = none;
  last_read_at_camel = none;
  last_read_at = none;
  reading_direction_camel = none;
  reading_direction = none;
  reading_mode_camel = none;
  reading_mode = none;
  content_rating_camel = none;
  content_rating = none;
  publisher = none;
  publishers = none;
  release_year_camel = none;
  release_year = none;
  start_date_camel = none;
  start_date = none;
  end_date_camel = none;
  end_date = none;
  country = none;
  external_links = none;
  content = none;
  meta = none;
}

-- A collation: the empty text stands before the others.
abbrev rank : String → ℕ
rank s = if is_blank s then 0 else 1

abbrev pub blank_first : String → String → ℤ
blank_first s t = pos (rank s) -ℤ pos (rank t)

pub blank_first-IsCollation : IsCollation blank_first
unfolding ◌-ℤ◌
blank_first-IsCollation = record { turn = λ x y. ground arith; trans = λ x y z h k. ground arith }
