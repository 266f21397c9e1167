-- ===== src/ReadingCta/Choice.antt =====
-- What the chosen chapter is, for each kind of result of readingCta.ts.
use mathlib.Core.List.Perm
use mathlib.Core.List.{Mem, mem-cons_self, not-mem-nil}
use kiyomi.Base.{
  ℕ, true, false, Option, none, some, List, [], ◌∷◌, length, filter_by, any_of, All, inl, inr, ◌≡◌,
  ◌↔◌, ◌≢◌, refl, ap, arith, Bool-cases, Option-cases, ◌otherwise◌, ◌==◌, ℕ_eq, String_eq, eqb,
}
use kiyomi.Base.Sort.{sort}
use kiyomi.Base.Sort.Laws.{
  IsSorted, sort-perm, sort-IsSorted, All-of_All-sort, All-sort, sort-ne-nil,
}
use kiyomi.Api.{Chapter}
use kiyomi.ReadingCta.{
  CtaType, start, resume, next, reread, ReadingCtaInfo, get_is_read, LastRead, last_read_chapter_id,
  last_read_chapter, by_number, is_in_progress, in_progress_chapter, next_chapter, resume_info,
  start_info, reread_info, next_info, info_of_read, info_of, info_of_sorted, get_reading_cta_info,
}
use kiyomi.ReadingCta.Finding.{
  find-mem, filter_by-nil, any_of_of_filter_by, All-of_length-filter_by, length-filter_by-All,
  any_of-false, any_of-All-false, List-cases,
}
use kiyomi.ReadingCta.Picking.{
  IsLeast, NoneInProgress, Reason, IsJustified, by_number-IsConsistent, by_number_self,
  nil_of_length, resume-page, next_chapter-mem, next_chapter-none, in_progress_chapter-some,
  in_progress_chapter-none,
}

module _ (sorted : List Chapter) (last : Option Chapter)
    (known : (c : Chapter) → last ≡ some c → Mem c sorted) (first : Chapter)
    (listed : Mem first sorted) (least : IsLeast sorted first)
    (filled : ◌≢◌ {A = ℕ} (length sorted) 0) where
  start-IsJustified :
      NoneInProgress sorted
      → All (λ d. get_is_read d ≡ false) sorted
      → IsJustified sorted (start_info first)
  unfolding start_info
  start-IsJustified idle unread = record {
    chapter = first;
    listed = listed;
    opened = refl;
    reason = (least, idle, unread, refl, refl, refl);
  }

  info_of_read-IsJustified :
      NoneInProgress sorted → IsJustified sorted (info_of_read sorted first last)
  unfolding info_of_read reread_info next_info
  info_of_read-IsJustified idle =
      elim (Bool-cases (eqb (length (filter_by get_is_read sorted)) 0)) [
        | inl e ↦ rw e (
            start-IsJustified idle
              (filter_by-nil get_is_read sorted (nil_of_length _ (ground arith))))
        | inr some_read ↦
            rw some_read
              (elim (Bool-cases (eqb (length (filter_by get_is_read sorted)) (length sorted))) [
                | inl e ↦ rw e (record {
                  chapter = first;
                  listed = listed;
                  opened = refl;
                  reason = (
                    least,
                    idle,
                    All-of_length-filter_by get_is_read sorted (ground arith),
                    refl,
                    refl,
                    refl,
                  );
                })
                | inr not_all ↦ rw not_all (elim (Option-cases (next_chapter sorted last)) [
                  | inl e ↦ absurd (
                      ground (
                        arith,
                        length-filter_by-All get_is_read sorted
                            (next_chapter-none sorted last known e),
                      ))
                  | inr (c, e) ↦ rw e (record {
                    chapter = c;
                    listed = (next_chapter-mem sorted last known e).0;
                    opened = refl;
                    reason = (
                      (next_chapter-mem sorted last known e).1,
                      idle,
                      any_of_of_filter_by get_is_read sorted (ground arith),
                      refl,
                      refl,
                      refl,
                    );
                  })
                ])
              ])
      ]

  info_of-IsJustified : IsJustified sorted (info_of sorted first last)
  unfolding info_of resume_info
  info_of-IsJustified = elim (Option-cases (in_progress_chapter sorted last)) [
    | inl e ↦
        rw (e, info_of) (info_of_read-IsJustified (in_progress_chapter-none sorted last known e))
    | inr (c, e) ↦
        let (m, t) = in_progress_chapter-some sorted last known e in
        rw (e, info_of)
          (record {
            chapter = c;
            listed = m;
            opened = refl;
            reason = (t, resume-page c t, refl, refl);
          })
  ]

any_of_of_sort :
    (cs : List Chapter)
    → any_of get_is_read (sort by_number cs) ≡ true
    → any_of get_is_read cs ≡ true
any_of_of_sort cs h = elim (Bool-cases (any_of get_is_read cs)) [
  | inl e ↦ e
  | inr e ↦
      let unread = All-sort by_number _ cs (any_of-false get_is_read cs e) in
      ground (arith, any_of-All-false get_is_read (sort by_number cs) unread)
]

-- The facts about the sorted chapters hold of the chapters.
Reason-of_sorted :
    (cs : List Chapter) (kind : CtaType) (c : Chapter) (info : ReadingCtaInfo)
    → Reason kind (sort by_number cs) c info
    → Reason kind cs c info
Reason-of_sorted cs resume c info r = r
Reason-of_sorted cs next c info (unread, idle, some_read, page, flag, flag') =
    (unread, All-of_All-sort by_number _ cs idle, any_of_of_sort cs some_read, page, flag, flag')
Reason-of_sorted cs start c info (least, idle, unread, page, flag, flag') = (
  All-of_All-sort by_number _ cs least,
  All-of_All-sort by_number _ cs idle,
  All-of_All-sort by_number _ cs unread,
  page,
  flag,
  flag',
)
Reason-of_sorted cs reread c info (least, idle, all_read, page, flag, flag') = (
  All-of_All-sort by_number _ cs least,
  All-of_All-sort by_number _ cs idle,
  All-of_All-sort by_number _ cs all_read,
  page,
  flag,
  flag',
)

IsJustified-of_sorted :
    (cs : List Chapter) (info : ReadingCtaInfo)
    → IsJustified (sort by_number cs) info
    → IsJustified cs info
IsJustified-of_sorted cs info j = record {
  chapter = j.chapter;
  listed = (Perm.mem_iff (sort-perm by_number cs)).0 j.listed;
  opened = j.opened;
  reason = Reason-of_sorted cs info.kind j.chapter info j.reason;
}

last_read_chapter-mem :
    (cs : List Chapter) (last_read : LastRead) {c : Chapter}
    → last_read_chapter cs last_read ≡ some c
    → Mem c cs
unfolding last_read_chapter
last_read_chapter-mem cs last_read h = elim (Option-cases (last_read_chapter_id last_read)) [
  | inl e ↦ absurd (ground arith)
  | inr (id, e) ↦ (find-mem (λ c. c.id == id) cs (ground arith)).0
]

-- `getReadingCtaInfo` answers `null` exactly for no chapters.
pub get_reading_cta_info-eq-none_iff :
    (chapters : Option (List Chapter)) (last_read : LastRead)
    → (get_reading_cta_info chapters last_read ≡ none) ↔ ((chapters otherwise []) ≡ [])
unfolding get_reading_cta_info info_of_sorted
get_reading_cta_info-eq-none_iff none last_read = (λ h. refl, λ h. refl)
get_reading_cta_info-eq-none_iff (some []) last_read = (λ h. refl, λ h. refl)
get_reading_cta_info-eq-none_iff (some (c ∷ cs)) last_read =
    elim (List-cases (sort by_number (c ∷ cs))) [
      | inl e ↦ absurd (sort-ne-nil by_number c cs e)
      | inr (first, rest, e) ↦ (λ h. absurd (ground arith), λ h. cc)
    ]

info_of_sorted-IsJustified :
    (sorted : List Chapter) (last : Option Chapter) {info : ReadingCtaInfo}
    → ((c : Chapter) → last ≡ some c → Mem c sorted)
    → IsSorted by_number sorted
    → info_of_sorted sorted last ≡ some info
    → IsJustified sorted info
unfolding info_of_sorted
info_of_sorted-IsJustified [] last known s h = cc
info_of_sorted-IsJustified (first ∷ rest) last {info} known (least, s) h =
    let same : info_of (first ∷ rest) first last ≡ info = cc in
    rw (← same) (
      info_of-IsJustified (first ∷ rest) last known first mem-cons_self
        (by_number_self first, least) (λ e. omega arith))

-- Whatever chapters and last-read chapter are given, the button opens a listed chapter, for the
-- reason that its kind states: a chapter in progress at its last page; an unread chapter where some
-- are read and none is in progress; and, at page 1, a chapter of the least number, where none is
-- read or where all are. The flags go with the kind.
pub get_reading_cta_info-IsJustified :
    (chapters : List Chapter) (last_read : LastRead) {info : ReadingCtaInfo}
    → get_reading_cta_info (some chapters) last_read ≡ some info
    → IsJustified chapters info
unfolding get_reading_cta_info
get_reading_cta_info-IsJustified [] last_read h = cc
get_reading_cta_info-IsJustified (c ∷ cs) last_read h = IsJustified-of_sorted (c ∷ cs) _ (
    info_of_sorted-IsJustified (sort by_number (c ∷ cs)) (last_read_chapter (c ∷ cs) last_read)
      (λ d e.
        (Perm.mem_iff (sort-perm by_number (c ∷ cs))).1
          (last_read_chapter-mem (c ∷ cs) last_read e))
      (sort-IsSorted by_number by_number-IsConsistent (c ∷ cs)) h)

info_of-last :
    (sorted : List Chapter) (first c : Chapter)
    → is_in_progress c ≡ true
    → info_of sorted first (some c) ≡ resume_info c
unfolding info_of in_progress_chapter
info_of-last sorted first c p = ground arith

-- If the last-read chapter is in progress, it is the one that is resumed, at its last page.
pub get_reading_cta_info-resumes :
    (chapters : List Chapter) (last_read : LastRead) (c : Chapter)
    → last_read_chapter chapters last_read ≡ some c
    → is_in_progress c ≡ true
    → get_reading_cta_info (some chapters) last_read ≡ some (resume_info c)
unfolding get_reading_cta_info info_of_sorted
get_reading_cta_info-resumes [] last_read c h p =
    absurd (not-mem-nil (last_read_chapter-mem [] last_read h))
get_reading_cta_info-resumes (d ∷ cs) last_read c h p =
    elim (List-cases (sort by_number (d ∷ cs))) [
      | inl e ↦ absurd (sort-ne-nil by_number d cs e)
      | inr (first, rest, e) ↦
          rw (e, info_of_sorted, h) (ap some (info_of-last (first ∷ rest) first c p))
    ]
