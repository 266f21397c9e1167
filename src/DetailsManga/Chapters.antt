-- ===== src/DetailsManga/Chapters.antt =====
-- Which list of chapters the page of a manga asks for and shows, and for which manga.
use kiyomi.Base.{
  true, false, not, ◌&&◌, List, [], ◌∷◌, length, ◌≡◌, refl, inl, inr, Bool-cases, Option, none,
  some, String, String_eq, is_some, is_blank, or_text, find, and_then, ◌==◌, ℕ_eq, eq_of_beq,
  ◌otherwise◌, arith,
}
use kiyomi.Api.{Manga, Chapter}
use kiyomi.Hooks.Queries.{use_chapter_list, use_provider_chapter_list}
use kiyomi.ReadingCta.{LastRead, get_reading_cta_info}
use kiyomi.ReadingCta.Choice.{get_reading_cta_info-eq-none_iff}
use kiyomi.DetailsManga.{
  Route, Answers, is_remote_route, is_in_library, library_entry, listed, entry_id, is_same,
  target_manga_id, local_chapters_query, remote_chapters_query, chapters_answer, chapters, manga,
  last_read_of, reading_cta, has_zero_chapters, is_chapters_loading,
}

-- At most one of the two lists of chapters is asked for, and it is the one that is shown.
pub chapters_answer-enabled :
    (r : Route) (a : Answers)
    → ((local_chapters_query r a).enabled ≡ true
        → ((remote_chapters_query r a).enabled ≡ false) × (chapters_answer r a ≡ a.local_chapters))
      × ((remote_chapters_query r a).enabled ≡ true
          → ((local_chapters_query r a).enabled ≡ false)
            × (chapters_answer r a ≡ a.remote_chapters))
unfolding local_chapters_query remote_chapters_query chapters_answer use_chapter_list
    use_provider_chapter_list
chapters_answer-enabled r a = elim (Bool-cases (is_remote_route r)) [
  | inl e ↦ elim (Bool-cases (is_in_library r a)) [
    | inl l ↦ rw (e, l) (λ h. (refl, refl), λ h. absurd (ground arith))
    | inr l ↦ rw (e, l) (λ h. absurd (ground arith), λ h. (refl, refl))
  ]
  | inr e ↦ rw e (λ h. (refl, refl), λ h. absurd (ground arith))
]

-- The id of the entry that is found, else the one of the address.
abbrev id_found : Option String → List Manga → String
id_found id mangas =
    or_text
      (and_then (and_then (find (λ m. is_same id m.id) mangas) (λ m. some (listed m)))
          (λ e. some (entry_id e))
        otherwise "")
      (id otherwise "")

id_found-address :
    (id : Option String) (mangas : List Manga) → id_found id mangas ≡ (id otherwise "")
id_found-address id [] = refl
id_found-address none (m ∷ mangas) = id_found-address none mangas
id_found-address (some id) (m ∷ mangas) = elim (Bool-cases (m.id == id)) [
  | inl e ↦
      rw e (elim (Bool-cases (is_blank m.id)) [
        | inl b ↦ rw b refl
        | inr b ↦ rw b (eq_of_beq m.id id e)
      ])
  | inr e ↦ rw e (id_found-address (some id) mangas)
]

-- On the page of the library the manga is the one of the address, whatever the queries have answered.
pub target_manga_id-address :
    (r : Route) (a : Answers)
    → is_remote_route r ≡ false
    → target_manga_id r a ≡ (r.manga_id otherwise "")
unfolding target_manga_id library_entry
target_manga_id-address r a h =
    rw h (id_found-address r.manga_id (a.library_manga.data_ otherwise []))

-- The reading button is missing without a chapter.
is_some-reading_cta :
    (cs : List Chapter) (last : LastRead)
    → is_some (get_reading_cta_info (some cs) last) ≡ not (length cs == 0)
is_some-reading_cta cs last = ground (arith, get_reading_cta_info-eq-none_iff (some cs) last)

-- The page says that there are no chapters exactly where the list that it asks for has come and there
-- is no reading button.
pub has_zero_chapters-reading_cta :
    (r : Route) (a : Answers)
    → has_zero_chapters r a ≡ (
        not (is_chapters_loading r a)
        && is_some (chapters_answer r a).data_
        && not (is_some (reading_cta r a)))
unfolding has_zero_chapters is_chapters_loading reading_cta
has_zero_chapters-reading_cta r a =
    rw (is_some-reading_cta (chapters r a) (last_read_of (manga r a))) (ground arith)
