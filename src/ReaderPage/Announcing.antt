-- ===== src/ReaderPage/Announcing.antt =====
-- The message that names a chapter when it is opened.
use kiyomi.Base.{
  Bool, true, false, not, ◌&&◌, String, Option, none, some, is_blank, and_then, ◌<|>◌, ◌otherwise◌,
  ◌==◌, String_eq, ◌≡◌, refl, ap, inl, inr, Bool-cases, eq_of_beq, beq_refl, if◌then◌else◌,
}
use kiyomi.Api.{Chapter}
use kiyomi.Api.Numbers.{number_text, ◌+text◌}

-- `c.meta?.number ?? c.number` in a template, and `c.meta?.title ?? c.title`.
abbrev pub shown_number : Chapter → String
shown_number c = elim (and_then c.meta (λ m. m.number) <|> c.number) [
  | none ↦ "undefined"
  | some n ↦ number_text n
]

abbrev pub shown_title : Chapter → String
shown_title c = and_then c.meta (λ m. m.title) <|> c.title otherwise ""

unfoldable pub announcement : Chapter → String
announcement c =
    if is_blank (shown_title c)
    then "Chapter " +text shown_number c
    else "Chapter " +text shown_number c +text ": " +text shown_title c

abbrev pub is_announced : Option String → String → Bool
is_announced none id = false
is_announced (some prev) id = prev == id

-- The effect: with the reference to the chapter that was named last, and the message if there is one.
unfoldable pub announce : String → Option Chapter → Option String → Option String × Option String
announce chapter_id none prev = (prev, none)
announce chapter_id (some c) prev =
    if not (is_blank chapter_id) && not (is_announced prev chapter_id)
    then (some chapter_id, some (announcement c))
    else (prev, none)

announced_of : (prev : Option String) (id : String) → is_announced prev id ≡ true → prev ≡ some id
announced_of none id h = cc
announced_of (some p) id h = ap some (eq_of_beq p id h)

-- After the effect has run, the reference is at the chapter, and running it again names nothing.
pub announce-twice :
    (chapter_id : String) (c d : Chapter) (prev : Option String)
    → is_blank chapter_id ≡ false
    → ((announce chapter_id (some c) prev).0 ≡ some chapter_id)
      × (announce chapter_id (some d) (some chapter_id) ≡ (some chapter_id, none))
unfolding announce
announce-twice chapter_id c d prev h = (first, rw (h, beq_refl chapter_id) refl)
  where
    first : (announce chapter_id (some c) prev).0 ≡ some chapter_id
    first = elim (Bool-cases (is_announced prev chapter_id)) [
      | inl e ↦ rw (h, e) (announced_of prev chapter_id e)
      | inr e ↦ rw (h, e) refl
    ]
