-- ===== src/ChapterOperations/Failing.antt =====
-- What the operations do when they fail.
use kiyomi.Base.{
  ℕ, Bool, true, ◌||◌, String, Option, none, some, List, [], ◌∷◌, ◌≡◌, refl, inl, inr, Bool-cases,
  is_blank, ◌⊎◌, All, Option-cases, if_true, if_false, if◌then◌else◌, ◌otherwise◌,
}
use kiyomi.Api.{Manga, ProviderRef}
use kiyomi.Api.Values.{Fields}
use kiyomi.Toasts.{success, error, Failure, error_details, error_text}
use kiyomi.Api.Numbers.{◌+text◌}
use kiyomi.ChapterOperations.Mutations.{
  Effect, invalidate, add_to_library_mutation, error_toast, toast, Mutating, sends, with_manga, run,
  thrown, refresh_chapters_mutation, remove_chapter_mutation, delete_chapter_files_mutation,
  pull_chapter_mutation, remove_provider_mutation, switch_to_mutation,
}
use kiyomi.ChapterOperations.Batches.{
  handle_batch_update_progress, handle_batch_pull, handle_batch_refresh, handle_batch_delete_files,
  handle_batch_remove, guarded, handle_user_metadata_change,
}
use kiyomi.Client.{Request}
use kiyomi.QueryKeys.{library_all, manga_all, chapters_all}

-- The variables of the operations, and the counts that the server answers.
pub record Variables : Type 0 where
  pub chapter_id : String
  pub chapter_ids : List String
  pub provider : ProviderRef
  pub is_read : Option Bool
  pub last_read_page : Option ℕ
  pub fields : Fields
  pub added : ℕ
  pub count : Option ℕ
  pub manga : Option Manga
  pub provider_param : String
  pub remote_param : String

-- The operations on a manga of the library that ask for its id.
abbrev pub single_operations : String → Variables → List Mutating
single_operations target v =
    refresh_chapters_mutation target v.added
    ∷ remove_chapter_mutation target v.chapter_id v.provider.provider_id
    ∷ delete_chapter_files_mutation target v.chapter_id v.provider.provider_id
    ∷ pull_chapter_mutation target v.chapter_id v.provider.provider_id
    ∷ remove_provider_mutation target v.provider
    ∷ switch_to_mutation target v.provider
    ∷ []

abbrev pub batch_operations : String → Option String → Variables → List (Option Mutating)
batch_operations target active v =
    handle_batch_update_progress target active v.chapter_ids v.is_read v.last_read_page v.count
    ∷ handle_batch_pull target active v.chapter_ids v.count
    ∷ handle_batch_refresh target active v.chapter_ids v.count
    ∷ handle_batch_delete_files target active v.chapter_ids v.count
    ∷ handle_batch_remove target active v.chapter_ids v.count
    ∷ []

-- One message with the details of the error, and nothing else.
abbrev pub ReportsOnly : Failure → List Effect → Type 0
ReportsOnly err effects =
    (message : String) × (effects ≡ toast message error (some (error_details err)) ∷ [])

-- An operation reports the error of the server; where there is no manga, that there is none, without a
-- request.
abbrev pub Reports : String → Option String → Failure → Mutating → Type 0
Reports target stack err m =
    ReportsOnly (if is_blank target then thrown stack "No manga ID" else err)
      (run stack m (some err))

abbrev asking : String → Request → List Effect → String → Mutating
asking target request succeeds label = record {
  call = with_manga target request;
  succeeds = succeeds;
  fails = error_toast label;
}

asking-Reports :
    (target : String) (stack : Option String) (err : Failure) (request : Request)
    (succeeds : List Effect) (label : String)
    → Reports target stack err (asking target request succeeds label)
unfolding run
asking-Reports target stack err request succeeds label = elim (Bool-cases (is_blank target)) [
  | inl e ↦ rw e (_, refl)
  | inr e ↦ rw e (_, refl)
]

-- A batch does nothing where there is no manga or no provider; else it reports the error.
abbrev pub BatchReports :
    String → Option String → Option String → Failure → Option Mutating → Type 0
BatchReports target active stack err op =
    ((is_blank target || is_blank (active otherwise "")) ≡ true) × (op ≡ none)
    ⊎ (m : Mutating) × (op ≡ some m) × ReportsOnly err (run stack m (some err))

guarded-BatchReports :
    (target : String) (active stack : Option String) (err : Failure) (m : Mutating)
    (request : Request) (label : String)
    → m.call ≡ sends request
    → m.fails ≡ error_toast label
    → BatchReports target active stack err (guarded target active m)
unfolding run
guarded-BatchReports target active stack err m request label call fails =
    elim (Bool-cases (is_blank target || is_blank (active otherwise ""))) [
      | inl e ↦ inl (e, rw e refl)
      | inr e ↦ inr (m, rw e refl, (label +text ": " +text error_text err, rw (call, fails) refl))
    ]

-- Without a manga, adding it sends nothing, and is reported as a success; else it reports the error.
abbrev pub AddReports : Option String → Failure → Variables → Type 0
AddReports stack err v =
    (v.manga ≡ none)
      × (run stack (add_to_library_mutation v.provider_param v.remote_param v.manga) (some err)
          ≡ invalidate library_all
            ∷ invalidate manga_all
            ∷ invalidate chapters_all
            ∷ toast "Series added to library" success none
            ∷ [])
    ⊎ (m : Manga) × (v.manga ≡ some m)
      × ReportsOnly err
          (run stack (add_to_library_mutation v.provider_param v.remote_param v.manga) (some err))

add_to_library-AddReports :
    (stack : Option String) (err : Failure) (v : Variables) → AddReports stack err v
unfolding run add_to_library_mutation
add_to_library-AddReports stack err v = elim (Option-cases v.manga) [
  | inl e ↦ inl (e, rw e refl)
  | inr (m, e) ↦ inr (m, e, ("Failed to add to library: " +text error_text err, rw e refl))
]

-- The change of the fields of a manga does nothing without one, and else reports the error.
abbrev pub ChangeReports : String → Option String → Failure → Option Mutating → Type 0
ChangeReports target stack err op =
    (is_blank target ≡ true) × (op ≡ none)
    ⊎ (m : Mutating) × (op ≡ some m) × ReportsOnly err (run stack m (some err))

change-ChangeReports :
    (target : String) (stack : Option String) (err : Failure) (fields : Fields)
    → ChangeReports target stack err (handle_user_metadata_change target fields)
unfolding run handle_user_metadata_change
change-ChangeReports target stack err fields = elim (Bool-cases (is_blank target)) [
  | inl e ↦ inl (e, if_true _ _ e)
  | inr e ↦ inr (_, if_false _ _ e, (_, refl))
]

-- When the server fails, each of these six shows one message with the details of the error and
-- invalidates nothing, and without the id of a manga sends no request and shows that there is none: the
-- refresh of the manga, the removal of a chapter, the deletion of its files, its pull, the removal of a
-- provider and the switch to one. The five operations on a batch of chapters do nothing where there is
-- no manga or no active provider, and the change of the fields of the manga does nothing where there is
-- no manga; else each shows one such message. Adding a manga to the library shows one too, but where
-- none is loaded it sends no request, invalidates the queries and shows a success.
pub run-Reports :
    (target : String) (active stack : Option String) (err : Failure) (v : Variables)
    → All (Reports target stack err) (single_operations target v)
      × All (BatchReports target active stack err) (batch_operations target active v)
      × ChangeReports target stack err (handle_user_metadata_change target v.fields)
      × AddReports stack err v
unfolding refresh_chapters_mutation remove_chapter_mutation delete_chapter_files_mutation
    pull_chapter_mutation remove_provider_mutation switch_to_mutation handle_batch_update_progress
    handle_batch_pull handle_batch_refresh handle_batch_delete_files handle_batch_remove
run-Reports target active stack err v = (
  (
    single _ _ "Refresh failed",
    (
      single _ _ "Remove failed",
      (
        single _ _ "Delete files failed",
        (single _ _ "Pull failed", (single _ _ "Remove failed", (single _ _ "Switch failed", tt))),
      ),
    ),
  ),
  (
    batch _ _ "Failed to update chapter progress" refl refl,
    (
      batch _ _ "Failed to pull chapters" refl refl,
      (
        batch _ _ "Failed to refresh chapter metadata" refl refl,
        (
          batch _ _ "Failed to delete files" refl refl,
          (batch _ _ "Failed to remove chapters" refl refl, tt),
        ),
      ),
    ),
  ),
  change-ChangeReports target stack err v.fields,
  add_to_library-AddReports stack err v,
)
  where
    single :
        (request : Request) (succeeds : List Effect) (label : String)
        → Reports target stack err (asking target request succeeds label)
    single = asking-Reports target stack err

    batch :
        (m : Mutating) (request : Request) (label : String)
        → m.call ≡ sends request
        → m.fails ≡ error_toast label
        → BatchReports target active stack err (guarded target active m)
    batch = guarded-BatchReports target active stack err
