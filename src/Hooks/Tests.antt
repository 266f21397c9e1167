-- ===== src/Hooks/Tests.antt =====
-- The queries and the mutations of hooks.ts at concrete ids.
use mathlib.Core.Logic.{◌↔◌}
use kiyomi.Base.{true, String, none, some, [], ◌∷◌, ◌≡◌, refl, All, is_blank, ne_of_beq, String_eq}
use kiyomi.Api.Values.{null}
use kiyomi.QueryKeys.{manga_metadata, manga_user_state, manga_bindings}
use kiyomi.Hooks.Queries.{use_chapter_pages, standard}
use kiyomi.Hooks.Manga.{use_update_metadata_mutation, use_update_user_state_mutation}
use kiyomi.Hooks.Chapters.{ProgressVariables, use_pull_chapter_mutation}
use kiyomi.Hooks.Reaching.{Reaches, use_pull_chapter_mutation-Reaches_iff}
use kiyomi.Hooks.Concerns.{
  chapter_mutations, Refreshes, chapter_mutations-Refresh,
  use_update_user_state_mutation-Reaches_iff,
}

abbrev variables : ProgressVariables
variables = record {
  given = record {
    is_read = some true;
    last_read_page = none;
    is_read_camel = none;
    last_read_page_camel = some 7;
  };
  progress = none;
}

use_pull_chapter_mutation-Reaches_iff_example :
    Reaches
      (use_pull_chapter_mutation "m1" "c1" (some "mangadex")).invalidates
      (use_chapter_pages (standard "m1" "c1" none)).query_key
    ↔ (is_blank "mangadex" ≡ true)
use_pull_chapter_mutation-Reaches_iff_example =
    use_pull_chapter_mutation-Reaches_iff "m1" "c1" (some "mangadex") none
      (ne_of_beq "m1" "pages" refl)

chapter_mutations-Refresh_example :
    All (Refreshes "m1" "other") (chapter_mutations "m1" "c1" ("c1" ∷ "c2" ∷ []) none variables)
chapter_mutations-Refresh_example =
    chapter_mutations-Refresh "m1" "c1" ("c1" ∷ "c2" ∷ []) none variables "other"

use_update_user_state_mutation-Reaches_iff_example :
    (Reaches (use_update_user_state_mutation "m1" null).invalidates (manga_metadata "m2")
      ↔ Path String "m1" "m2")
    × (Reaches (use_update_user_state_mutation "m1" null).invalidates (manga_user_state "m2")
        ↔ Path String "m1" "m2")
    × (Reaches (use_update_user_state_mutation "m1" null).invalidates (manga_bindings "m2")
        ↔ Path String "m1" "m2")
    × (Reaches (use_update_metadata_mutation "m1" null).invalidates (manga_metadata "m2")
        ↔ Path String "m1" "m2")
    × (¬ Reaches (use_update_metadata_mutation "m1" null).invalidates (manga_user_state "m2"))
    × (¬ Reaches (use_update_metadata_mutation "m1" null).invalidates (manga_bindings "m2"))
use_update_user_state_mutation-Reaches_iff_example =
    use_update_user_state_mutation-Reaches_iff "m1" "m2" null (ne_of_beq "m2" "detail" refl)
