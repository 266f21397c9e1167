-- ===== src/MetadataImport/Choices.antt =====
-- The choices of the dialog, field by field: `initComparisonState` and the two bulk actions.
use kiyomi.Base.{
  Bool, true, not, ◌&&◌, String, Option, none, some, List, [], ◌∷◌, length, ltb, is_blank, ◌==◌,
  ℕ_eq, String_eq, if◌then◌else◌, ◌otherwise◌,
}
use kiyomi.Api.{Manga}
use kiyomi.MetadataCompare.{merge_string_arrays, are_array_sets_equal, are_external_link_sets_equal}
use kiyomi.MetadataImport.{
  MetadataValues, SelectedProvider, merge, current_values, incoming_values, values_of, or_next,
  trimmed, year_or,
}

pub data Choice : Type 0 where
  current incoming : Choice

pub data MultiChoice : Type 0 where
  all_current all_incoming merged : MultiChoice

pub record Selections : Type 0 where
  pub remote : Option Manga
  pub diff_only : Bool
  pub title : Choice
  pub cover : Choice
  pub description : Choice
  pub authors_mode : MultiChoice
  pub artists_mode : MultiChoice
  pub publishers_mode : MultiChoice
  pub external_links_mode : MultiChoice
  pub tags : List String
  pub aliases : List String
  pub alias_input : String
  pub tag_input : String
  pub publisher : Choice
  pub release_year : Choice
  pub start_date : Choice
  pub end_date : Choice
  pub content_rating : Choice
  pub country : Choice
  pub reading_mode : Choice
  pub providers_mode : MultiChoice

-- The state of the first render; in merge mode the other manga is there from the start.
abbrev pub initial : Option Manga → Selections
initial remote = record {
  remote = remote;
  diff_only = true;
  title = incoming;
  cover = incoming;
  description = incoming;
  authors_mode = all_incoming;
  artists_mode = all_incoming;
  publishers_mode = all_incoming;
  external_links_mode = all_incoming;
  tags = [];
  aliases = [];
  alias_input = "";
  tag_input = "";
  publisher = incoming;
  release_year = incoming;
  start_date = incoming;
  end_date = incoming;
  content_rating = incoming;
  country = incoming;
  reading_mode = incoming;
  providers_mode = merged;
}

-- `test ? 'incoming' : 'current'`
abbrev pub choose : Bool → Choice
choose test = if test then incoming else current

abbrev pub choose_all : Bool → MultiChoice
choose_all test = if test then all_incoming else all_current

-- `incoming && incoming !== current ? 'incoming' : 'current'`
abbrev pub choose_other : String → String → Choice
choose_other new old = choose (not (is_blank new) && not (new == old))

abbrev pub choose_given : String → Choice
choose_given new = choose (not (is_blank new))

module _ (to_lower_case : String → String) where
  abbrev pub array_mode : List String → List String → MultiChoice
  array_mode old new =
      if ltb 0 (length new)
      then if are_array_sets_equal to_lower_case (some old) (some new)
        then all_current
        else all_incoming
      else all_current

  -- The values that the callback computes again are those of `current_values` and `incoming_values`.
  unfoldable pub init_comparison_state : SelectedProvider → Manga → Manga → Selections → Selections
  unfolding merge_string_arrays are_array_sets_equal are_external_link_sets_equal current_values
      incoming_values
  init_comparison_state p manga remote s =
      let old = current_values to_lower_case manga in
      let new = incoming_values to_lower_case p remote in
      record s {
        remote = some remote;
        title = choose_other new.title old.title;
        cover = choose_other new.cover_url old.cover_url;
        description = choose_other new.description old.description;
        authors_mode = array_mode old.authors new.authors;
        artists_mode = array_mode old.artists new.artists;
        publishers_mode = array_mode old.publishers new.publishers;
        external_links_mode =
            if ltb 0 (length new.external_links)
            then if are_external_link_sets_equal to_lower_case (some old.external_links)
                (some new.external_links)
              then all_current
              else merged
            else all_current;
        tags = merge to_lower_case (some old.tags ∷ some new.tags ∷ []);
        aliases = merge to_lower_case (some old.aliases ∷ some new.aliases ∷ []);
        publisher = choose_given (trimmed remote.publisher);
        release_year =
            choose (not (year_or remote.release_year_camel (remote.release_year otherwise 0) == 0));
        start_date =
            choose_given (or_next remote.start_date_camel (remote.start_date otherwise ""));
        end_date = choose_given (or_next remote.end_date_camel (remote.end_date otherwise ""));
        content_rating = choose_given (remote.content_rating_camel otherwise "");
        country = choose_given (remote.country otherwise "");
        reading_mode = choose_given (
            or_next remote.reading_mode_camel
              (or_next remote.reading_mode (remote.reading_direction_camel otherwise "")));
      }

  -- The effect in merge mode, when the other manga is given or another one is.
  unfoldable pub merge_effect : SelectedProvider → Manga → Option Manga → Selections → Selections
  unfolding init_comparison_state
  merge_effect p manga none s = s
  merge_effect p manga (some other) s = record (init_comparison_state p manga other s) {
    providers_mode = merged;
  }

  -- The bulk actions; the first does nothing without a remote manga.
  abbrev pub accept : MetadataValues → MetadataValues → Selections → Selections
  accept old new s = record s {
    title = choose_given new.title;
    cover = choose_given new.cover_url;
    description = choose_given new.description;
    authors_mode = choose_all (ltb 0 (length new.authors));
    artists_mode = choose_all (ltb 0 (length new.artists));
    publishers_mode = choose_all (ltb 0 (length new.publishers));
    tags = if ltb 0 (length new.tags) then new.tags else old.tags;
    aliases = merge to_lower_case (some old.aliases ∷ some new.aliases ∷ []);
    publisher = choose_given new.publisher;
    release_year = choose (not (new.release_year == 0));
    start_date = choose_given new.start_date;
    end_date = choose_given new.end_date;
    content_rating = choose_given new.content_rating;
    country = choose_given new.country;
    reading_mode = choose_given new.reading_mode;
    external_links_mode = choose_all (ltb 0 (length new.external_links));
    providers_mode = merged;
  }

  abbrev accept_if : Option Manga → Selections → Selections → Selections
  accept_if none s accepted = s
  accept_if (some remote) s accepted = accepted

  unfoldable pub handle_accept_incoming : SelectedProvider → Manga → Selections → Selections
  unfolding merge_string_arrays current_values incoming_values
  handle_accept_incoming p manga s =
      accept_if s.remote s
        (accept (current_values to_lower_case manga) (values_of to_lower_case p s.remote) s)

  unfoldable pub handle_keep_current : Manga → Selections → Selections
  unfolding current_values
  handle_keep_current manga s =
      let old = current_values to_lower_case manga in
      record s {
        title = current;
        cover = current;
        description = current;
        authors_mode = all_current;
        artists_mode = all_current;
        publishers_mode = all_current;
        tags = old.tags;
        aliases = old.aliases;
        publisher = current;
        release_year = current;
        start_date = current;
        end_date = current;
        content_rating = current;
        country = current;
        reading_mode = current;
        external_links_mode = all_current;
        providers_mode = merged;
      }

unfoldable pub reset_comparison_state : Selections → Selections
reset_comparison_state s = record s {
  remote = none;
  diff_only = true;
  alias_input = "";
  tag_input = "";
}
