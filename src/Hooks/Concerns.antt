-- ===== src/Hooks/Concerns.antt =====
-- What the mutations of a manga and of its chapters make stale.
use kiyomi.Base.{
  String, Option, none, some, List, [], ◌∷◌, ◌++◌, ◌≡◌, ◌≢◌, All, ◌↔◌, inl, inr, refl, sym, ap,
  ne_of_beq, String_eq,
}
use kiyomi.Api.Values.{Value}
use kiyomi.QueryKeys.{
  text, QueryKey, manga_details, manga_metadata, manga_user_state, manga_bindings, manga_detail,
  chapters_all, chapters_list, chapters_pages, chapters_provider_list, library_mangas, library_all,
  system_all, jobs_all,
}
use kiyomi.QueryKeys.Prefixes.{IsPrefix, two_parts-IsPrefix_iff, second}
use kiyomi.Hooks.{Mutation}
use kiyomi.Hooks.Manga.{
  use_update_metadata_mutation, use_update_user_state_mutation, provider_list_key,
}
use kiyomi.Hooks.Chapters.{
  ProgressVariables, use_delete_chapter_files_mutation, use_pull_chapter_mutation,
  use_update_chapter_progress_mutation, use_batch_update_chapter_progress_mutation,
  use_batch_pull_chapters_mutation, use_batch_refresh_chapters_mutation,
  use_batch_delete_chapter_files_mutation, use_batch_delete_chapters_mutation,
}
use kiyomi.Hooks.Reaching.{Reaches, Reaches-append_right, first-ne}

-- The hooks of hooks.ts that change the progress, the files or the entries of chapters, or pull or refresh
-- them; the hook that deletes the cached pages is not among them.
abbrev pub chapter_mutations :
    String → String → List String → Option String → ProgressVariables → List Mutation
chapter_mutations m c cs provider progress =
    use_delete_chapter_files_mutation m c provider
    ∷ use_pull_chapter_mutation m c provider
    ∷ use_update_chapter_progress_mutation m c provider progress
    ∷ use_batch_update_chapter_progress_mutation m cs provider progress
    ∷ use_batch_pull_chapters_mutation m cs provider
    ∷ use_batch_refresh_chapters_mutation m cs provider
    ∷ use_batch_delete_chapter_files_mutation m cs provider
    ∷ use_batch_delete_chapters_mutation m cs provider
    ∷ []

-- The list of the chapters of a manga, that of one of its providers, and its details are stale.
abbrev pub Refreshes : String → String → Mutation → Type 0
Refreshes m provider mutation =
    Reaches mutation.invalidates (chapters_list m)
    × Reaches mutation.invalidates (chapters_provider_list m provider)
    × Reaches mutation.invalidates (manga_details m)

-- Keys that begin with the list of the chapters, and name the details somewhere.
lists :
    (m provider : String) (middle rest : List QueryKey)
    → Reaches (chapters_list m ∷ (middle ++ manga_details m ∷ rest)) (chapters_list m)
      × Reaches
          (chapters_list m ∷ (middle ++ manga_details m ∷ rest))
          (chapters_provider_list m provider)
      × Reaches (chapters_list m ∷ (middle ++ manga_details m ∷ rest)) (manga_details m)
lists m provider middle rest = (
  inl ([], refl),
  inl (text "provider" ∷ text provider ∷ [], refl),
  inr (Reaches-append_right middle (manga_details m ∷ rest) (manga_details m) (inl ([], refl))),
)

-- The same with a key in front.
behind :
    (k : QueryKey) (m provider : String) (middle rest : List QueryKey)
    → let keys = k ∷ chapters_list m ∷ (middle ++ manga_details m ∷ rest) in
      Reaches keys (chapters_list m)
      × Reaches keys (chapters_provider_list m provider)
      × Reaches keys (manga_details m)
behind k m provider middle rest =
    let (a, b, c) = lists m provider middle rest in (inr a, inr b, inr c)

-- These eight hooks of hooks.ts make the list of the chapters of the manga stale, the lists of all its
-- providers, and its details, whether a provider is named or not: the deletion of the files of a chapter,
-- its pull and its progress, and for a batch of chapters their progress, pull, refresh, deletion of files
-- and removal.
pub chapter_mutations-Refresh :
    (m c : String) (cs : List String) (provider : Option String) (progress : ProgressVariables)
    (shown : String)
    → All (Refreshes m shown) (chapter_mutations m c cs provider progress)
unfolding use_delete_chapter_files_mutation use_pull_chapter_mutation
    use_update_chapter_progress_mutation use_batch_update_chapter_progress_mutation
    use_batch_pull_chapters_mutation use_batch_refresh_chapters_mutation
    use_batch_delete_chapter_files_mutation use_batch_delete_chapters_mutation
chapter_mutations-Refresh m c cs provider progress shown =
    let middle = provider_list_key m provider in
    (
      behind (chapters_pages c (some m) none) m shown middle (system_all ∷ []),
      (
        behind (chapters_pages c (some m) provider) m shown middle (jobs_all ∷ []),
        (
          lists m shown middle (library_mangas ∷ []),
          (
            lists m shown middle (library_all ∷ library_mangas ∷ jobs_all ∷ []),
            (
              lists m shown middle (library_all ∷ jobs_all ∷ []),
              (
                lists m shown middle [],
                (
                  behind chapters_all m shown middle (library_all ∷ system_all ∷ jobs_all ∷ []),
                  (lists m shown middle (library_all ∷ library_mangas ∷ jobs_all ∷ []), tt),
                ),
              ),
            ),
          ),
        ),
      ),
    )

-- A concern of a manga: its metadata, its user state or its bindings.
abbrev concern : String → String → QueryKey
concern word id = text "manga" ∷ text id ∷ text word ∷ []

abbrev third : QueryKey → String
third (p ∷ q ∷ text s ∷ parts) = s
third k = ""

concern-ne :
    (word asked id other : String)
    → word ≢ asked
    → IsPrefix (concern word id) (concern asked other)
    → ⊥
concern-ne word asked id other ne (rest, e) = ne (sym (ap third e))

-- The keys of the details and of the library reach no concern.
no_concern :
    (asked id other : String)
    → other ≢ "detail"
    → Reaches (manga_details id ∷ library_all ∷ library_mangas ∷ []) (concern asked other)
    → ⊥
no_concern asked id other ne (inl (rest, e)) = ne (ap second e)
no_concern asked id other ne (inr (inl p)) =
    first-ne "library" "manga" [] _ (ne_of_beq "library" "manga" refl) p
no_concern asked id other ne (inr (inr (inl p))) =
    first-ne "library" "manga" (text "manga" ∷ []) _ (ne_of_beq "library" "manga" refl) p
no_concern asked id other ne (inr (inr (inr p))) = p

-- A change of the metadata leaves the user state and the bindings of every manga as they are, and a
-- change of the user state makes all three concerns of its manga stale, and those of no other. No id of
-- a manga is the word "detail".
pub use_update_user_state_mutation-Reaches_iff :
    (id other : String) (partial : Value)
    → other ≢ "detail"
    → (Reaches (use_update_user_state_mutation id partial).invalidates (manga_metadata other)
        ↔ (id ≡ other))
      × (Reaches (use_update_user_state_mutation id partial).invalidates (manga_user_state other)
          ↔ (id ≡ other))
      × (Reaches (use_update_user_state_mutation id partial).invalidates (manga_bindings other)
          ↔ (id ≡ other))
      × (Reaches (use_update_metadata_mutation id partial).invalidates (manga_metadata other)
          ↔ (id ≡ other))
      × (¬ Reaches (use_update_metadata_mutation id partial).invalidates (manga_user_state other))
      × (¬ Reaches (use_update_metadata_mutation id partial).invalidates (manga_bindings other))
unfolding use_update_user_state_mutation use_update_metadata_mutation
use_update_user_state_mutation-Reaches_iff id other partial ne = (
  state "metadata",
  state "user_state",
  state "bindings",
  (
    λ h. elim h [ inl p ↦ same p | inr p ↦ absurd (no_concern _ id other ne p) ],
    λ e. inl ([], ap (concern "metadata") (sym e)),
  ),
  λ h. elim h [
    | inl p ↦ concern-ne "metadata" "user_state" id other (ne_of_beq "metadata" "user_state" refl) p
    | inr p ↦ no_concern _ id other ne p
  ],
  λ h. elim h [
    | inl p ↦ concern-ne "metadata" "bindings" id other (ne_of_beq "metadata" "bindings" refl) p
    | inr p ↦ no_concern _ id other ne p
  ],
)
  where
    same : {word asked : String} → IsPrefix (concern word id) (concern asked other) → id ≡ other
    same (rest, e) = sym (ap second e)

    state :
        (asked : String)
        → Reaches
            (concern "user_state" id
              ∷ manga_detail id
              ∷ manga_details id
              ∷ library_all
              ∷ library_mangas
              ∷ [])
            (concern asked other)
          ↔ (id ≡ other)
    state asked = (
      λ h. elim h [
        | inl p ↦ same p
        | inr (inl p) ↦ (two_parts-IsPrefix_iff "manga" id other _).0 p
        | inr (inr p) ↦ absurd (no_concern asked id other ne p)
      ],
      λ e. inr (inl ((two_parts-IsPrefix_iff "manga" id other _).1 e)),
    )
