-- ===== src/ReaderGesture/Asking.antt =====
-- Which page a drag in useReaderGesture.ts asks for, in terms of the screen, the pointer and the chapter.
use mathlib.Core.Path.{subst}
use kiyomi.Base.{
  ℕ, zero, suc, ◌*◌, ◌-◌, ◌<◌, ◌≤◌, max, true, false, String, Option, none, some, ltb, ◌≡◌, ◌≢◌,
  ◌⊎◌, ◌↔◌, inl, inr, refl, sym, ap, ◌∙◌, arith, Bool-cases, if_true, if_false, ltb→lt, lt→ltb,
  ◌==◌, String_eq, eq_of_beq, ne_of_beq, beq_of_ne,
}
use kiyomi.Base.Int.{ℤ, pos, negsuc, abs, is_pos, is_neg}
use kiyomi.ReaderGesture.{
  ContainerWidth, absent, size, measured, Options, Start, Gesture, Turn, next_page, prev_page,
  width_of, get_width, meets_distance, meets_threshold, handle_end,
}
use kiyomi.ReaderGesture.Turning.{can_turn, asked, Passes, IsReady, handle_end-Passes_iff}

-- The width of the window, 800 pixels without one.
abbrev pub IsInnerWidth : Option ℕ → ℕ → Type 0
IsInnerWidth (some w) n = n ≡ w
IsInnerWidth none n = n ≡ 800

-- The width that a drag is measured by: the one that is measured, the given one unless it is zero, or
-- the one of the window.
abbrev pub IsWidth : ContainerWidth → Option ℕ → ℕ → Type 0
IsWidth (measured w) inner n = n ≡ w
IsWidth (size w) inner n = ((0 < w) × (n ≡ w)) ⊎ ((w ≡ 0) × IsInnerWidth inner n)
IsWidth absent inner n = IsInnerWidth inner n

-- At least 50 pixels and 15 per cent of the width.
abbrev pub IsFar : ℕ → ℤ → Type 0
IsFar width drag = (50 ≤ abs drag) × (3 * width ≤ 20 * abs drag)

-- More than 20 pixels, at more than 0.4 pixels a millisecond.
abbrev pub IsFlick : ℕ → ℤ → Type 0
IsFlick elapsed drag = (20 < abs drag) × (2 * elapsed < 5 * abs drag)

-- To the right and to the left.
abbrev pub IsRight : ℤ → Type 0
IsRight drag = (n : ℕ) × (drag ≡ pos (suc n))

abbrev pub IsLeft : ℤ → Type 0
IsLeft drag = (n : ℕ) × (drag ≡ negsuc n)

-- The next page comes in from the left in right-to-left reading, and from the right otherwise.
abbrev pub Asks : String → ℤ → Turn → Type 0
Asks mode drag next_page = ((mode ≡ "rtl") × IsRight drag) ⊎ ((mode ≢ "rtl") × IsLeft drag)
Asks mode drag prev_page = ((mode ≡ "rtl") × IsLeft drag) ⊎ ((mode ≢ "rtl") × IsRight drag)

-- There is a page of the chapter, or a chapter, on that side.
abbrev pub HasRoom : Options → Turn → Type 0
HasRoom o next_page = (o.current_page < o.total_pages) ⊎ (o.has_next_chapter ≡ true)
HasRoom o prev_page = (1 < o.current_page) ⊎ (o.has_prev_chapter ≡ true)

-- A drag by this offset in this time turns a page.
abbrev pub Turns : Options → ℕ → ℤ → Turn → Type 0
Turns o elapsed drag t =
    ((width : ℕ) × IsWidth o.container_width o.inner_width width
      × (IsFar width drag ⊎ IsFlick elapsed drag))
    × Asks o.reading_mode drag t
    × HasRoom o t

width-IsInnerWidth : (inner : Option ℕ) → IsInnerWidth inner (width_of absent inner)
width-IsInnerWidth none = refl
width-IsInnerWidth (some w) = refl

width_of-IsWidth : (c : ContainerWidth) (inner : Option ℕ) → IsWidth c inner (width_of c inner)
width_of-IsWidth (measured w) inner = refl
width_of-IsWidth absent inner = width-IsInnerWidth inner
width_of-IsWidth (size w) inner = elim (Bool-cases (ltb 0 w)) [
  | inl e ↦ inl (ltb→lt 0 w e, if_true _ _ e)
  | inr e ↦
      inr
        (ground arith, subst (IsInnerWidth inner) (sym (if_false _ _ e)) (width-IsInnerWidth inner))
]

inner_width_unique : (inner : Option ℕ) (n : ℕ) → IsInnerWidth inner n → n ≡ width_of absent inner
inner_width_unique none n h = h
inner_width_unique (some w) n h = h

width_of_unique :
    (c : ContainerWidth) (inner : Option ℕ) (n : ℕ) → IsWidth c inner n → n ≡ width_of c inner
width_of_unique (measured w) inner n h = h
width_of_unique absent inner n h = inner_width_unique inner n h
width_of_unique (size w) inner n (inl (some_width, h)) =
    h ∙ sym (if_true _ _ (lt→ltb 0 w some_width))
width_of_unique (size w) inner n (inr (no_width, h)) =
    inner_width_unique inner n h ∙ sym (if_false _ _ (ap (ltb 0) no_width))

meets_threshold-cases :
    (width elapsed : ℕ) (drag : ℤ)
    → meets_threshold width elapsed drag ≡ true
    → IsFar width drag ⊎ IsFlick elapsed drag
meets_threshold-cases width elapsed drag h = elim (Bool-cases (meets_distance width drag)) [
  | inl e ↦ inl (ground arith, ground arith)
  | inr e ↦ inr (ground arith, ground arith)
]

meets_threshold-of :
    (width elapsed : ℕ) (drag : ℤ)
    → IsFar width drag ⊎ IsFlick elapsed drag
    → meets_threshold width elapsed drag ≡ true
meets_threshold-of width elapsed drag (inl (far, wide)) = ground arith
meets_threshold-of width elapsed drag (inr (far, fast)) = ground arith

right : (n : ℕ) → is_pos (pos (suc n)) ≡ true
right n = lt→ltb 0 (suc n) (omega arith)

left : (n : ℕ) → is_neg (negsuc n) ≡ true
left n = lt→ltb 0 (suc n) (omega arith)

module _ (o : Options) (rtl : (o.reading_mode == "rtl") ≡ true) where
  rtl_right : (n : ℕ) → asked o (pos (suc n)) ≡ next_page
  rtl_right n = if_true _ _ (if_true _ _ rtl ∙ right n)

  rtl_left : (n : ℕ) → asked o (negsuc n) ≡ prev_page
  rtl_left n = if_false _ _ (if_true _ _ rtl)

module _ (o : Options) (ltr : (o.reading_mode == "rtl") ≡ false) where
  ltr_right : (n : ℕ) → asked o (pos (suc n)) ≡ prev_page
  ltr_right n = if_false _ _ (if_false _ _ ltr)

  ltr_left : (n : ℕ) → asked o (negsuc n) ≡ next_page
  ltr_left n = if_true _ _ (if_false _ _ ltr ∙ left n)

-- The direction, where the drag is not empty.
asked-Asks : (o : Options) (drag : ℤ) → 0 < abs drag → Asks o.reading_mode drag (asked o drag)
asked-Asks o (pos zero) moved = absurd (omega arith)
asked-Asks o (pos (suc n)) moved = elim (Bool-cases (o.reading_mode == "rtl")) [
  | inl e ↦
      subst (Asks o.reading_mode (pos (suc n))) (sym (rtl_right o e n))
        (inl (eq_of_beq _ _ e, (n, refl)))
  | inr e ↦
      subst (Asks o.reading_mode (pos (suc n))) (sym (ltr_right o e n))
        (inr (ne_of_beq _ _ e, (n, refl)))
]
asked-Asks o (negsuc n) moved = elim (Bool-cases (o.reading_mode == "rtl")) [
  | inl e ↦
      subst (Asks o.reading_mode (negsuc n)) (sym (rtl_left o e n))
        (inl (eq_of_beq _ _ e, (n, refl)))
  | inr e ↦
      subst (Asks o.reading_mode (negsuc n)) (sym (ltr_left o e n))
        (inr (ne_of_beq _ _ e, (n, refl)))
]

is_rtl : (o : Options) → o.reading_mode ≡ "rtl" → (o.reading_mode == "rtl") ≡ true
is_rtl o rtl = rw rtl refl

asked-of : (o : Options) (drag : ℤ) (t : Turn) → Asks o.reading_mode drag t → t ≡ asked o drag
asked-of o drag next_page (inl (rtl, (n, e))) = sym (ap (asked o) e ∙ rtl_right o (is_rtl o rtl) n)
asked-of o drag next_page (inr (ltr, (n, e))) =
    sym (ap (asked o) e ∙ ltr_left o (beq_of_ne _ _ ltr) n)
asked-of o drag prev_page (inl (rtl, (n, e))) = sym (ap (asked o) e ∙ rtl_left o (is_rtl o rtl) n)
asked-of o drag prev_page (inr (ltr, (n, e))) =
    sym (ap (asked o) e ∙ ltr_right o (beq_of_ne _ _ ltr) n)

can_turn-HasRoom : (o : Options) (t : Turn) → can_turn o t ≡ true → HasRoom o t
can_turn-HasRoom o next_page h = elim (Bool-cases (ltb o.current_page o.total_pages)) [
  | inl e ↦ inl (ltb→lt _ _ e)
  | inr e ↦ inr (ground arith)
]
can_turn-HasRoom o prev_page h = elim (Bool-cases (ltb 1 o.current_page)) [
  | inl e ↦ inl (ltb→lt _ _ e)
  | inr e ↦ inr (ground arith)
]

can_turn-of : (o : Options) (t : Turn) → HasRoom o t → can_turn o t ≡ true
can_turn-of o next_page (inl room) = ground arith
can_turn-of o next_page (inr chapter) = ground arith
can_turn-of o prev_page (inl room) = ground arith
can_turn-of o prev_page (inr chapter) = ground arith

is_moved : (width elapsed : ℕ) (drag : ℤ) → IsFar width drag ⊎ IsFlick elapsed drag → 0 < abs drag
is_moved width elapsed drag (inl (far, wide)) = omega arith
is_moved width elapsed drag (inr (far, fast)) = omega arith

pub Passes-Turns :
    (o : Options) (elapsed : ℕ) (drag : ℤ) (t : Turn)
    → Passes o elapsed drag t ↔ Turns o elapsed drag t
Passes-Turns o elapsed drag t = (
  λ (meets, same, can).
      let counts = meets_threshold-cases (get_width o) elapsed drag meets in
      (
        (get_width o, width_of-IsWidth o.container_width o.inner_width, counts),
        subst (Asks o.reading_mode drag) (sym same)
            (asked-Asks o drag (is_moved (get_width o) elapsed drag counts)),
        can_turn-HasRoom o t can,
      ),
  λ ((width, is_width, counts), asks, room). (
    ap (λ w. meets_threshold w elapsed drag)
          (sym (width_of_unique o.container_width o.inner_width width is_width))
        ∙ meets_threshold-of width elapsed drag counts,
    asked-of o drag t asks,
    can_turn-of o t room,
  ),
)

-- A release turns a page exactly if the reader is paged and not disabled, a drag was begun and moved
-- far enough to count as one, no animation runs, the offset is at least 50 pixels and 15 per cent of
-- the width, or more than 20 pixels at more than 0.4 pixels a millisecond, the page is the next one for
-- a drag to the right in right-to-left mode and to the left in any other mode, and the previous one for
-- the other direction, and there is such a page in the chapter or a chapter on that side.
pub handle_end-Turns_iff :
    (o : Options) (now : ℕ) (s : Gesture) (t : Turn)
    → ((handle_end o now s).1 ≡ some t)
      ↔ ((start : Start) × IsReady o s start × Turns o (max 1 (now - start.time)) s.drag_offset t)
handle_end-Turns_iff o now s t = (
  λ h.
      let (start, ready, passes) = (handle_end-Passes_iff o now s t).0 h in
      (start, ready, (Passes-Turns o (max 1 (now - start.time)) s.drag_offset t).0 passes),
  λ (start, ready, turns).
      (handle_end-Passes_iff o now s t).1
        (start, ready, (Passes-Turns o (max 1 (now - start.time)) s.drag_offset t).1 turns),
)
