-- ===== src/ReadingCta/Picking.antt =====
-- Why readingCta.ts opens a chapter, and what the chapters that it picks are like.
use mathlib.Core.List.{Mem}
use kiyomi.Base.{
  All-filter_by, suc, Bool, true, false, not, Option, none, some, List, [], ◌∷◌, drop, length,
  filter_by, find, find_index, last?, any_of, All, inl, inr, ◌≡◌, refl, arith, ◌<|>◌, ◌otherwise◌,
  ◌==◌, ℕ_eq, String_eq, and_then, and_then-some, <|>-some, <|>-none,
}
use kiyomi.Base.Int.{ℤ, pos, is_pos, is_pos-sub}
use kiyomi.Base.Sort.Laws.{IsConsistent}
use kiyomi.Api.{Chapter}
use kiyomi.ReadingCta.{
  CtaType, start, resume, next, reread, ReadingCtaInfo, get_is_read, get_last_page, by_number,
  is_in_progress, in_progress_chapter, unread_after, next_chapter, resume_info, keep_if,
}
use kiyomi.ReadingCta.Finding.{
  find-mem, find-none, mem-drop, mem-filter_by, last?-mem, All-of-last?, last?-none, filter_by-nil,
}

-- No chapter has a smaller number.
abbrev pub IsLeast : List Chapter → Chapter → Type 0
IsLeast cs c = All (λ d. is_pos (by_number c d) ≡ false) cs

abbrev pub NoneInProgress : List Chapter → Type 0
NoneInProgress cs = All (λ d. is_in_progress d ≡ false) cs

-- Why a result of each kind opens the chapter `c` among the chapters `cs`.
abbrev pub Reason : CtaType → List Chapter → Chapter → ReadingCtaInfo → Type 0
Reason resume cs c info =
    (is_in_progress c ≡ true)
    × (info.page ≡ get_last_page c)
    × (info.is_resume ≡ true)
    × (info.is_completed ≡ false)
Reason next cs c info =
    (get_is_read c ≡ false)
    × NoneInProgress cs
    × (any_of get_is_read cs ≡ true)
    × (info.page ≡ 1)
    × (info.is_resume ≡ false)
    × (info.is_completed ≡ false)
Reason start cs c info =
    IsLeast cs c
    × NoneInProgress cs
    × All (λ d. get_is_read d ≡ false) cs
    × (info.page ≡ 1)
    × (info.is_resume ≡ false)
    × (info.is_completed ≡ false)
Reason reread cs c info =
    IsLeast cs c
    × NoneInProgress cs
    × All (λ d. get_is_read d ≡ true) cs
    × (info.page ≡ 1)
    × (info.is_resume ≡ false)
    × (info.is_completed ≡ true)

pub record IsJustified (cs : List Chapter) (info : ReadingCtaInfo) : Type 0 where
  pub chapter : Chapter
  pub listed : Mem chapter cs
  pub opened : info.chapter_id ≡ chapter.id
  pub reason : Reason info.kind cs chapter info

pub by_number-IsConsistent : IsConsistent by_number
unfolding by_number
by_number-IsConsistent = record {
  asymm = λ x y h. ground (arith, is_pos-sub (n x) (n y), is_pos-sub (n y) (n x));
  trans = λ x y z h k.
      ground (arith, is_pos-sub (n x) (n y), is_pos-sub (n y) (n z), is_pos-sub (n x) (n z));
}
  where
    n : Chapter → ℤ
    n c = c.number otherwise pos 0

pub by_number_self : (c : Chapter) → is_pos (by_number c c) ≡ false
unfolding by_number
by_number_self c = ground (arith, is_pos-sub (c.number otherwise pos 0) (c.number otherwise pos 0))

find-unread-mem :
    (cs : List Chapter) {c : Chapter}
    → find (λ d. not (get_is_read d)) cs ≡ some c
    → Mem c cs × (get_is_read c ≡ false)
find-unread-mem cs h = let (m, t) = find-mem _ cs h in (m, ground arith)

unread_after-mem :
    (sorted : List Chapter) (d : Chapter) {c : Chapter}
    → unread_after sorted d ≡ some c
    → Mem c sorted × (get_is_read c ≡ false)
unfolding unread_after
unread_after-mem sorted d h =
    let (i, found, later) = and_then-some (find_index (λ e. e.id == d.id) sorted) _ h in
    let (m, u) = find-unread-mem (drop (suc i) sorted) later in (mem-drop (suc i) sorted m, u)

and_then-unread_after-mem :
    (sorted : List Chapter) (o : Option Chapter) {c : Chapter}
    → and_then o (unread_after sorted) ≡ some c
    → Mem c sorted × (get_is_read c ≡ false)
and_then-unread_after-mem sorted o h =
    let (d, found, e) = and_then-some o (unread_after sorted) h in unread_after-mem sorted d e

keep_if-some :
    {A : Type 0} (p : A → Bool) (o : Option A) {a : A}
    → keep_if p o ≡ some a
    → (o ≡ some a) × (p a ≡ true)
keep_if-some p none h = cc
keep_if-some p (some b) h = ground arith

All-not :
    (cs : List Chapter)
    → All (λ d. not (get_is_read d) ≡ false) cs
    → All (λ d. get_is_read d ≡ true) cs
All-not [] h = tt
All-not (c ∷ cs) (e, h) = (ground arith, All-not cs h)

pub nil_of_length {ℓ} : {A : Type ℓ} (xs : List A) → length xs ≡ 0 → xs ≡ []
nil_of_length [] h = refl
nil_of_length (x ∷ xs) h = absurd (omega arith)

pub resume-page : (c : Chapter) → is_in_progress c ≡ true → (resume_info c).page ≡ get_last_page c
unfolding resume_info is_in_progress
resume-page c h = ground arith

module _ (sorted : List Chapter) (last : Option Chapter)
    (known : (c : Chapter) → last ≡ some c → Mem c sorted) where
  abbrev after_last : Option Chapter
  after_last = and_then (keep_if get_is_read last) (unread_after sorted)

  abbrev after_read : Option Chapter
  after_read = and_then (last? (filter_by get_is_read sorted)) (unread_after sorted)

  abbrev first_unread : Option Chapter
  first_unread = find (λ d. not (get_is_read d)) sorted

  pub next_chapter-mem :
      {c : Chapter} → next_chapter sorted last ≡ some c → Mem c sorted × (get_is_read c ≡ false)
  unfolding next_chapter
  next_chapter-mem h = elim (<|>-some after_last (after_read <|> first_unread) h) [
    | inl e ↦ and_then-unread_after-mem sorted (keep_if get_is_read last) e
    | inr rest ↦ elim (<|>-some after_read first_unread rest) [
      | inl e ↦ and_then-unread_after-mem sorted (last? (filter_by get_is_read sorted)) e
      | inr e ↦ find-unread-mem sorted e
    ]
  ]

  pub next_chapter-none : next_chapter sorted last ≡ none → All (λ d. get_is_read d ≡ true) sorted
  unfolding next_chapter
  next_chapter-none h =
      let rest = (<|>-none after_last (after_read <|> first_unread) h).1 in
      All-not sorted (find-none _ sorted (<|>-none after_read first_unread rest).1)

  pub in_progress_chapter-some :
      {c : Chapter}
      → in_progress_chapter sorted last ≡ some c
      → Mem c sorted × (is_in_progress c ≡ true)
  unfolding in_progress_chapter
  in_progress_chapter-some {c} h = elim (<|>-some (keep_if is_in_progress last) _ h) [
    | inl e ↦ let (m, t) = keep_if-some is_in_progress last e in (known c m, t)
    | inr e ↦ (
      mem-filter_by is_in_progress sorted (last?-mem _ e),
      All-of-last? (λ d. is_in_progress d ≡ true) _
          (All-filter_by _ is_in_progress sorted (λ d t. t)) e,
    )
  ]

  pub in_progress_chapter-none : in_progress_chapter sorted last ≡ none → NoneInProgress sorted
  unfolding in_progress_chapter
  in_progress_chapter-none h =
      filter_by-nil is_in_progress sorted
        (last?-none _ (<|>-none (keep_if is_in_progress last) _ h).1)
