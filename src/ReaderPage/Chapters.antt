-- ===== src/ReaderPage/Chapters.antt =====
-- The chapters before and behind the one that is read.
use kiyomi.Base.{
  ℕ, zero, suc, ◌+◌, ◌-◌, Bool, true, false, String, String_eq, Option, none, some, List, [], ◌∷◌,
  map, length, get_elem?, ◌≡◌, refl, sym, ap, ◌∙◌, inl, inr, Option-cases, ◌==◌, beq_refl,
  if◌then◌else◌, lt→ltb, ltb→lt, if_true, if_false, shift, ◌<◌, find_index-get_elem?, arith,
}
use kiyomi.Base.Sets.{has, IsDistinct}
use kiyomi.Base.Sets.Laws.{has_congr}
use kiyomi.Api.{Chapter}
use kiyomi.ReaderPage.{
  current_chapter_index, current_chapter, is_before_last, is_behind_first, has_prev_chapter,
  has_next_chapter, prev_chapter, next_chapter,
}

-- No two chapters have the same id.
abbrev pub HasOwnIds : List Chapter → Type 0
HasOwnIds cs = IsDistinct (map (λ c. c.id) cs)

text_of_id : Option Chapter → String
text_of_id none = ""
text_of_id (some c) = c.id

has-id :
    (cs : List Chapter) (j : ℕ) (c : Chapter)
    → get_elem? cs j ≡ some c
    → has (map (λ d. d.id) cs) c.id ≡ true
unfolding has text_of_id
has-id [] j c h = cc
has-id (d ∷ cs) zero c h = ground (arith, ap (λ o. text_of_id o == c.id) h, beq_refl c.id)
has-id (d ∷ cs) (suc j) c h = ground (arith, has-id cs j c h)

current_chapter_index-id :
    (cs : List Chapter) (j : ℕ) (c : Chapter)
    → HasOwnIds cs
    → get_elem? cs j ≡ some c
    → current_chapter_index cs c.id ≡ some j
unfolding current_chapter_index text_of_id
current_chapter_index-id [] j c own h = cc
current_chapter_index-id (d ∷ cs) zero c own h =
    if_true _ _ (ap (λ o. text_of_id o == c.id) h ∙ beq_refl c.id)
current_chapter_index-id (d ∷ cs) (suc j) c (new, own) h =
    let other : (d.id == c.id) ≡ false =
      ground (arith, has-id cs j c h, has_congr d.id c.id (map (λ x. x.id) cs)) in
    if_false _ _ other ∙ ap shift (current_chapter_index-id cs j c own h)

get_elem?-lt {ℓ} :
    {A : Type ℓ} (xs : List A) (j : ℕ) {a : A} → get_elem? xs j ≡ some a → j < length xs
get_elem?-lt [] j h = cc
get_elem?-lt (x ∷ xs) zero h = omega arith
get_elem?-lt (x ∷ xs) (suc j) h = omega (arith, get_elem?-lt xs j h)

succ : (i : ℕ) → i + 1 ≡ suc i
succ i = omega arith

if_some {ℓ} :
    {A : Type ℓ} (b : Bool) (o : Option A) {a : A}
    → (if b then o else none) ≡ some a
    → (b ≡ true) × (o ≡ some a)
if_some true o h = (refl, h)
if_some false o h = cc

module _ (cs : List Chapter) (id : String) where
  current_chapter-at :
      (i : ℕ) → current_chapter_index cs id ≡ some i → current_chapter cs id ≡ get_elem? cs i
  unfolding current_chapter
  current_chapter-at i h = rw h refl

  prev_chapter-at :
      (i : ℕ) → current_chapter_index cs id ≡ some (suc i) → prev_chapter cs id ≡ get_elem? cs i
  unfolding prev_chapter has_prev_chapter
  prev_chapter-at i h = rw h (
      if_true _ _ (lt→ltb 0 (suc i) (omega arith))
      ∙ ap (get_elem? cs) (let e : suc i - 1 ≡ i = omega arith in e))

  next_chapter-at :
      (i : ℕ)
      → current_chapter_index cs id ≡ some i
      → suc i < length cs
      → next_chapter cs id ≡ get_elem? cs (suc i)
  unfolding next_chapter has_next_chapter
  next_chapter-at i h lt =
      rw h (if_true _ _ (lt→ltb (i + 1) (length cs) (omega arith)) ∙ ap (get_elem? cs) (succ i))

  -- Where a next or a previous chapter comes from.
  next_chapter-some :
      (c : Chapter)
      → next_chapter cs id ≡ some c
      → (i : ℕ) × (current_chapter_index cs id ≡ some i) × (get_elem? cs (suc i) ≡ some c)
  unfolding next_chapter has_next_chapter
  next_chapter-some c h = elim (Option-cases (current_chapter_index cs id)) [
    | inl e ↦ absurd (ground (arith, e))
    | inr (i, e) ↦
        let (b, found) =
          if_some (is_before_last (length cs) (some i)) (get_elem? cs (i + 1)) (rw e at h) in
        (i, e, ap (get_elem? cs) (sym (succ i)) ∙ found)
  ]

  prev_chapter-some :
      (c : Chapter)
      → prev_chapter cs id ≡ some c
      → (i : ℕ) × (current_chapter_index cs id ≡ some (suc i)) × (get_elem? cs i ≡ some c)
  unfolding prev_chapter has_prev_chapter
  prev_chapter-some c h = elim (Option-cases (current_chapter_index cs id)) [
    | inl e ↦ absurd (ground (arith, e))
    | inr (i, e) ↦
        let (b, found) = if_some (is_behind_first (some i)) (get_elem? cs (i - 1)) (rw e at h) in
        let at : i ≡ suc (i - 1) = omega (arith, ltb→lt 0 i b) in (i - 1, e ∙ ap some at, found)
  ]

-- Where no two chapters have the same id, the chapter before the next one is the one that is read, and
-- so is the one behind the previous one.
pub prev_chapter-next_chapter :
    (cs : List Chapter) (id : String)
    → HasOwnIds cs
    → ((c : Chapter) → next_chapter cs id ≡ some c → prev_chapter cs c.id ≡ current_chapter cs id)
      × ((c : Chapter) → prev_chapter cs id ≡ some c → next_chapter cs c.id ≡ current_chapter cs id)
unfolding current_chapter_index
prev_chapter-next_chapter cs id own = (
  λ c h.
      let (i, at, found) = next_chapter-some cs id c h in
      prev_chapter-at cs c.id i (current_chapter_index-id cs (suc i) c own found)
      ∙ sym (current_chapter-at cs id i at),
  λ c h.
      let (i, at, found) = prev_chapter-some cs id c h in
      let (d, here, same) = find_index-get_elem? (λ x. x.id == id) cs (suc i) at in
      next_chapter-at cs c.id i (current_chapter_index-id cs i c own found)
        (get_elem?-lt cs (suc i) here)
      ∙ sym (current_chapter-at cs id (suc i) at),
)
