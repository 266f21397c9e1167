-- ===== src/ReaderGesture/Turning.antt =====
-- When a drag in useReaderGesture.ts turns a page.
use kiyomi.Base.{
  ℕ, ◌-◌, max, Bool, true, false, not, ◌||◌, Option, none, some, ltb, ◌≡◌, ◌↔◌, inl, inr, refl, ap,
  ◌∙◌, sym, arith, Bool-cases, if◌then◌else◌, if_true, if_false, ℕ_eq,
}
use kiyomi.Base.Int.{ℤ}
use kiyomi.ReaderGesture.{
  Options, Start, Gesture, Turn, next_page, prev_page, get_width, meets_threshold, is_next,
  turn_or_spring, released, end_from, handle_end,
}

-- There is a page, or a chapter, to turn to.
abbrev pub can_turn : Options → Turn → Bool
can_turn o next_page = ltb o.current_page o.total_pages || o.has_next_chapter
can_turn o prev_page = ltb 1 o.current_page || o.has_prev_chapter

turn_or_spring-can_turn :
    (o : Options) (forward : Bool) (s : Gesture) (t : Turn)
    → (turn_or_spring o forward s).1 ≡ some t
    → (can_turn o t ≡ true) × (t ≡ (if forward then next_page else prev_page))
turn_or_spring-can_turn o true s t h = elim (Bool-cases (can_turn o next_page)) [
  | inl e ↦ let same : next_page ≡ t = ground arith in rw (← same) (e, refl)
  | inr e ↦ cc
]
turn_or_spring-can_turn o false s t h = elim (Bool-cases (can_turn o prev_page)) [
  | inl e ↦ let same : prev_page ≡ t = ground arith in rw (← same) (e, refl)
  | inr e ↦ cc
]

turn_or_spring-turns :
    (o : Options) (forward : Bool) (s : Gesture)
    → can_turn o (if forward then next_page else prev_page) ≡ true
    → (turn_or_spring o forward s).1 ≡ some (if forward then next_page else prev_page)
turn_or_spring-turns o true s h = rw h refl
turn_or_spring-turns o false s h = rw h refl

-- What a drag asks for.
abbrev pub asked : Options → ℤ → Turn
asked o drag = if is_next o.reading_mode drag then next_page else prev_page

-- A drag of this offset passes the tests of the handler.
abbrev pub Passes : Options → ℕ → ℤ → Turn → Type 0
Passes o elapsed drag t =
    (meets_threshold (get_width o) elapsed drag ≡ true) × (t ≡ asked o drag) × (can_turn o t ≡ true)

-- The handler is ready to end a drag that began at `start`.
pub record IsReady (o : Options) (s : Gesture) (start : Start) : Type 0 where
  pub paged : o.is_paged ≡ true
  pub enabled : o.disabled ≡ false
  pub dragged : s.did_drag ≡ true
  pub still : s.is_animating ≡ false
  pub started : s.start_pos ≡ some start

end_from-turn :
    (o : Options) (now : ℕ) (start : Option Start) (s : Gesture) (t : Turn)
    → (end_from o now start s).1 ≡ some t
    → (p : Start) × (start ≡ some p)
      × (s.did_drag ≡ true)
      × (s.is_animating ≡ false)
      × Passes o (max 1 (now - p.time)) s.drag_offset t
end_from-turn o now none s t h = cc
end_from-turn o now (some p) s t h = elim (Bool-cases (not s.did_drag || s.is_animating)) [
  | inl e ↦ cc
  | inr e ↦ elim (Bool-cases (meets_threshold (get_width o) (max 1 (now - p.time)) s.drag_offset)) [
    | inl m ↦
        let turned : (turn_or_spring o (is_next o.reading_mode s.drag_offset) (released s)).1
            ≡ some t =
          rw (e, m) at h in
        let (can, same) =
          turn_or_spring-can_turn o (is_next o.reading_mode s.drag_offset) (released s) t turned in
        (p, refl, ground arith, ground arith, (m, same, can))
    | inr m ↦ cc
  ]
]

abbrev turn_made : Gesture × Option Turn → Option Turn
turn_made (s, t) = t

ready-end_from :
    (o : Options) (now : ℕ) (s : Gesture) (start : Start) (t : Turn)
    → IsReady o s start
    → Passes o (max 1 (now - start.time)) s.drag_offset t
    → (handle_end o now s).1 ≡ some t
unfolding handle_end
ready-end_from o now s start t ready (meets, same, can) =
    ap turn_made (if_false _ _ on)
    ∙ ap (λ p. (end_from o now p s).1) ready.started
    ∙ ap turn_made (if_false _ _ drags)
    ∙ ap turn_made (if_true _ _ meets)
    ∙ turn_or_spring-turns o (is_next o.reading_mode s.drag_offset) (released s)
        (ap (can_turn o) (sym same) ∙ can)
    ∙ ap some (sym same)
  where
    on : (not o.is_paged || o.disabled) ≡ false
    on = ground (arith, ready.paged, ready.enabled)

    drags : (not s.did_drag || s.is_animating) ≡ false
    drags = ground (arith, ready.dragged, ready.still)

handle_end-IsReady :
    (o : Options) (now : ℕ) (s : Gesture) (t : Turn)
    → (handle_end o now s).1 ≡ some t
    → (start : Start) × IsReady o s start × Passes o (max 1 (now - start.time)) s.drag_offset t
unfolding handle_end
handle_end-IsReady o now s t h = elim (Bool-cases (not o.is_paged || o.disabled)) [
  | inl e ↦ cc
  | inr e ↦
      let (p, at, dragged, still, turns) = end_from-turn o now s.start_pos s t (rw e at h) in
      (
        p,
        record {
          paged = ground arith;
          enabled = ground arith;
          dragged = dragged;
          still = still;
          started = at;
        },
        turns,
      )
]

-- A release turns a page exactly if the handler is ready and the drag passes its tests.
pub handle_end-Passes_iff :
    (o : Options) (now : ℕ) (s : Gesture) (t : Turn)
    → ((handle_end o now s).1 ≡ some t)
      ↔ ((start : Start) × IsReady o s start × Passes o (max 1 (now - start.time)) s.drag_offset t)
handle_end-Passes_iff o now s t = (
  handle_end-IsReady o now s t,
  λ (start, ready, turns). ready-end_from o now s start t ready turns,
)
