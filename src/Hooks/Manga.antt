-- ===== src/Hooks/Manga.antt =====
-- The mutations of web/src/api/hooks.ts that change a manga of the library.
use kiyomi.Base.{Bool, String, Option, List, [], ◌∷◌, ◌++◌, ◌otherwise◌, if◌then◌else◌}
use kiyomi.Api.{ProviderRef}
use kiyomi.Api.Numbers.{◌+text◌}
use kiyomi.Api.Values.{Value, Fields}
use kiyomi.QueryKeys.{
  QueryKey, library_all, library_mangas, library_pull, library_refresh, manga_all, manga_details,
  manga_detail, manga_metadata, manga_user_state, manga_bindings, chapters_all, chapters_list,
  chapters_provider_list, jobs_all,
}
use kiyomi.Client.Library.{
  post_library_manga, patch_library_manga, patch_library_manga_metadata,
  patch_library_manga_user_state, add_binding, remove_binding, switch_content_provider,
  set_active_content_source, refresh_metadata, delete_library_manga, merge_library_manga,
}
use kiyomi.Client.Chapters.{pull_manga, refresh_library_manga}
use kiyomi.Hooks.{Mutation, is_given}
use kiyomi.Toasts.{Details, Failure, error_details, error_text}

unfoldable pub use_save_library_manga_mutation : Value → Mutation
use_save_library_manga_mutation manga = record {
  request = post_library_manga manga;
  invalidates = library_mangas ∷ [];
}

unfoldable pub use_update_library_manga_mutation : String → Fields → Mutation
use_update_library_manga_mutation manga_id fields = record {
  request = patch_library_manga manga_id fields;
  invalidates = manga_details manga_id ∷ library_all ∷ library_mangas ∷ [];
}

unfoldable pub use_update_metadata_mutation : String → Value → Mutation
use_update_metadata_mutation manga_id partial = record {
  request = patch_library_manga_metadata manga_id partial;
  invalidates =
      manga_metadata manga_id ∷ manga_details manga_id ∷ library_all ∷ library_mangas ∷ [];
}

unfoldable pub use_update_user_state_mutation : String → Value → Mutation
use_update_user_state_mutation manga_id partial = record {
  request = patch_library_manga_user_state manga_id partial;
  invalidates =
      manga_user_state manga_id
      ∷ manga_detail manga_id
      ∷ manga_details manga_id
      ∷ library_all
      ∷ library_mangas
      ∷ [];
}

-- What the four mutations of the bindings invalidate.
abbrev pub binding_keys : String → List QueryKey
binding_keys manga_id =
    manga_bindings manga_id ∷ manga_details manga_id ∷ library_all ∷ library_mangas ∷ []

unfoldable pub use_add_binding_mutation : String → ProviderRef → Option Bool → Mutation
use_add_binding_mutation manga_id ref set_as_content = record {
  request = add_binding manga_id ref set_as_content;
  invalidates = binding_keys manga_id;
}

unfoldable pub use_remove_binding_mutation : String → String → String → Mutation
use_remove_binding_mutation manga_id provider_id provider_manga_id = record {
  request = remove_binding manga_id provider_id provider_manga_id;
  invalidates = binding_keys manga_id;
}

unfoldable pub use_switch_content_provider_mutation : String → String → String → Mutation
use_switch_content_provider_mutation manga_id provider_id provider_manga_id = record {
  request = switch_content_provider manga_id provider_id provider_manga_id;
  invalidates = binding_keys manga_id;
}

unfoldable pub use_set_active_content_source_mutation :
    String → String → String → Option String → Mutation
use_set_active_content_source_mutation manga_id provider_id provider_manga_id reading_mode =
    record {
      request = set_active_content_source manga_id provider_id provider_manga_id reading_mode;
      invalidates = binding_keys manga_id;
    }

unfoldable pub use_refresh_metadata_mutation : String → Mutation
use_refresh_metadata_mutation manga_id = record {
  request = refresh_metadata manga_id;
  invalidates = manga_metadata manga_id ∷ manga_details manga_id ∷ jobs_all ∷ [];
}

unfoldable pub use_delete_library_manga_mutation : String → Mutation
use_delete_library_manga_mutation manga_id = record {
  request = delete_library_manga manga_id;
  invalidates = library_mangas ∷ [];
}

-- `if (providerId) … providerList(mangaId, providerId)`
abbrev pub provider_list_key : String → Option String → List QueryKey
provider_list_key manga_id provider_id =
    if is_given (provider_id otherwise "")
    then chapters_provider_list manga_id (provider_id otherwise "") ∷ []
    else []

unfoldable pub use_pull_manga_mutation : String → Option String → Option String → Mutation
use_pull_manga_mutation manga_id provider_id provider_manga_id = record {
  request = pull_manga manga_id provider_id provider_manga_id;
  invalidates =
      library_pull manga_id provider_id
      ∷ chapters_list manga_id
      ∷ (provider_list_key manga_id provider_id
          ++ manga_details manga_id ∷ library_all ∷ jobs_all ∷ []);
}

unfoldable pub use_refresh_library_manga_mutation : String → Mutation
use_refresh_library_manga_mutation manga_id = record {
  request = refresh_library_manga manga_id;
  invalidates = library_refresh manga_id ∷ chapters_list manga_id ∷ manga_details manga_id ∷ [];
}

-- The merge: where the page goes on success, and the message on an error.
pub record MergeMutation : Type 0 where
  pub mutation : Mutation
  pub navigates_to : String

-- The payload is read for `keep_manga_id` only.
unfoldable pub use_merge_library_manga_mutation : String → Value → MergeMutation
use_merge_library_manga_mutation keep_manga_id payload = record {
  mutation = record {
    request = merge_library_manga payload;
    invalidates = library_all ∷ manga_all ∷ chapters_all ∷ [];
  };
  navigates_to = "/manga/" +text keep_manga_id;
}

unfoldable pub merge_failed : Failure → String × Details
unfolding error_details
merge_failed err = ("Merge failed: " +text error_text err, error_details err)
