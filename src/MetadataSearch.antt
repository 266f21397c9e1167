-- ===== src/MetadataSearch.antt =====
-- web/src/components/import-metadata/hooks/useMetadataSearch.ts: the search for a manga of a provider,
-- by its title or by its id or address, and the details that are fetched of it. A request and what its
-- answer does are two operations.
pub mod Choosing
mod Tests
use kiyomi.Base.{
  ℕ, ◌+◌, Bool, true, false, not, ◌&&◌, ◌||◌, String, Option, none, some, List, [], ◌∷◌, find,
  any_of, and_then, is_blank, or_text, ◌otherwise◌, ◌==◌, String_eq, if◌then◌else◌,
}
use kiyomi.Base.Text.{trim, starts_with_fold}
use kiyomi.Api.{Manga, Source, ProviderRef}
use kiyomi.Client.{Request}
use kiyomi.Client.Providers.{search_manga, get_provider_manga_details}
use kiyomi.Toasts.{Failure}
use kiyomi.ChapterOperations.Mutations.{Call, sends, throws, thrown}

pub data SearchMode : Type 0 where
  keyword direct : SearchMode

pub record Options : Type 0 where
  pub manga : Manga
  pub sources : List Source
  pub is_open : Bool
  pub initial_provider_id : Option String
  pub initial_remote_id : Option String

pub record Search : Type 0 where
  pub search_mode : SearchMode
  pub selected_provider_id : String
  pub search_query : String
  pub direct_id_or_url : String
  pub search_results : List Manga
  pub search_error : Option String
  pub is_loading_details : Bool

-- What the hook asks for, and the calls of `onSelectRemoteManga` and of `onErrorFallbackToSearch`.
pub data Output : Type 0 where
  asks : Request → Output
  selects : Manga → Output
  falls_back : Output

pub data Outcome {ℓ} (A : Type ℓ) : Type ℓ where
  answers : A → Outcome A
  fails : Failure → Outcome A

abbrev pub is_source : List Source → String → Bool
is_source sources id = any_of (λ s. s.id == id) sources

abbrev pub is_bound : List ProviderRef → Source → Bool
is_bound providers s = any_of (λ p. p.provider_id == s.id) providers

abbrev pub first_id : List Source → String
first_id [] = ""
first_id (s ∷ sources) = s.id

abbrev pub source_id : Option Source → String
source_id s = and_then s (λ x. some x.id) otherwise ""

abbrev pub wants_initial : Options → Bool
wants_initial o =
    not (is_blank (o.initial_provider_id otherwise ""))
    && is_source o.sources (o.initial_provider_id otherwise "")

unfoldable pub default_provider_id : Options → String
default_provider_id o =
    if wants_initial o
    then o.initial_provider_id otherwise ""
    else or_text (source_id (find (is_bound o.manga.bindings.providers) o.sources))
        (first_id o.sources)

unfoldable pub initial : Options → Search
initial o = record {
  search_mode = keyword;
  selected_provider_id = default_provider_id o;
  search_query = o.manga.metadata.title;
  direct_id_or_url = o.initial_remote_id otherwise "";
  search_results = [];
  search_error = none;
  is_loading_details = false;
}

-- `loadMangaDetails`: up to its request, and from its answer on.
unfoldable pub load_manga_details : String → String → Search → Search × List Output
load_manga_details provider_id remote_id s = (
  record s { is_loading_details = true; search_error = none },
  asks (get_provider_manga_details provider_id remote_id) ∷ [],
)

abbrev pub message_or : Failure → String → String
message_or err what = or_text (err.message otherwise "") what

unfoldable pub details_settle : Option Manga → Outcome Manga → Search → Search × List Output
details_settle fallback (answers details) s =
    (record s { is_loading_details = false }, selects details ∷ [])
details_settle (some m) (fails err) s = (record s { is_loading_details = false }, selects m ∷ [])
details_settle none (fails err) s = (
  record s {
    is_loading_details = false;
    search_error = some (message_or err "Failed to fetch manga details from provider");
  },
  falls_back ∷ [],
)

-- The effect that runs when the dialog opens.
unfoldable pub open_effect : Options → Search → Search × List Output
open_effect o s =
    let provider = o.initial_provider_id otherwise "" in
    let remote = o.initial_remote_id otherwise "" in
    let fresh = record s {
      selected_provider_id = if wants_initial o then provider else default_provider_id o;
      search_query = o.manga.metadata.title;
      direct_id_or_url = remote;
      search_results = [];
      search_error = none;
    } in
    if not o.is_open
    then (s, [])
    else if not (is_blank provider) && not (is_blank remote)
    then load_manga_details provider remote fresh
    else (fresh, [])

-- `searchMutation`
unfoldable pub search_call : Search → String → Call
search_call s query =
    if is_blank s.selected_provider_id
    then throws "No provider selected"
    else sends (search_manga s.selected_provider_id query 1)

unfoldable pub search_settles : Outcome (List Manga) → Search → Search
search_settles (answers results) s = record s { search_results = results; search_error = none }
search_settles (fails err) s = record s {
  search_error = some (message_or err "Search failed");
  search_results = [];
}

-- `/^https?:\/\//i.test(input)`
abbrev pub is_url : String → Bool
is_url input = starts_with_fold input "http://" || starts_with_fold input "https://"

-- `directLookupMutation`: an address is searched for, an id is looked up.
unfoldable pub direct_lookup_call : Search → String → Call
direct_lookup_call s id_or_url =
    let input = trim id_or_url in
    if is_blank s.selected_provider_id
    then throws "No provider selected"
    else if is_blank input
    then throws "Please enter a Remote ID or URL"
    else if is_url input
    then sends (search_manga s.selected_provider_id input 1)
    else sends (get_provider_manga_details s.selected_provider_id input)

-- The first result of the search for an address.
unfoldable pub found_by_url : Option String → Outcome (List Manga) → Outcome Manga
found_by_url stack (answers []) = fails (thrown stack "No results found for URL")
found_by_url stack (answers (m ∷ mangas)) = answers m
found_by_url stack (fails err) = fails err

unfoldable pub direct_lookup_settles : Outcome Manga → Search → Search × List Output
direct_lookup_settles (answers m) s = (record s { search_error = none }, selects m ∷ [])
direct_lookup_settles (fails err) s =
    (record s { search_error = some (message_or err "Remote ID/URL lookup failed") }, [])

-- What the two forms submit, if anything.
abbrev pub submitted : String → Option String
submitted text = if is_blank (trim text) then none else some (trim text)

unfoldable pub handle_search : Search → Option Call
handle_search s = and_then (submitted s.search_query) (λ q. some (search_call s q))

unfoldable pub handle_direct_lookup : Search → Option Call
handle_direct_lookup s =
    and_then (submitted s.direct_id_or_url) (λ val. some (direct_lookup_call s val))

abbrev pub remote_id_of : Manga → String
remote_id_of m = or_text m.id (or_text (m.content_remote_id otherwise "") (m.url otherwise ""))

-- The details are loaded with the result as the fallback.
unfoldable pub handle_select_search_result : Manga → Search → Search × List Output
handle_select_search_result m s =
    if not (is_blank s.selected_provider_id) && not (is_blank (remote_id_of m))
    then load_manga_details s.selected_provider_id (remote_id_of m) s
    else (s, selects m ∷ [])

unfoldable pub reset_search_state : Search → Search
reset_search_state s = record s { search_results = []; search_error = none }
