-- ===== src/ReaderGesture/Swipes.antt =====
-- Whole gestures of useReaderGesture.ts: from the first touch to the release.
use kiyomi.Base.{
  ℕ, ◌-◌, max, Bool, true, false, not, ◌||◌, Option, none, some, List, [], ◌∷◌, ◌≡◌, ◌↔◌, inl, inr,
  refl, ap, ◌∙◌, sym, arith, All, Bool-cases, Option-cases, if_true, if_false,
}
use kiyomi.Base.Int.{ℤ, pos, ◌-ℤ◌}
use kiyomi.ReaderGesture.{
  Options, Start, Gesture, Turn, handle_start, is_drag, drag_from, handle_move, handle_end,
}
use kiyomi.ReaderGesture.Asking.{Turns, handle_end-Turns_iff}

abbrev pub move_all : Options → List (ℤ × ℤ) → Gesture → Gesture
move_all o [] s = s
move_all o ((x, y) ∷ moves) s = move_all o moves (handle_move o x y s)

-- The first touch, the moves and the release.
abbrev pub gesture : Options → Start → List (ℤ × ℤ) → ℕ → Gesture → Option Turn
gesture o start moves now s =
    (handle_end o now (move_all o moves (handle_start o start.x start.y start.time s))).1

abbrev is_off : Options → Gesture → Bool
is_off o s = not o.is_paged || o.disabled || s.is_animating

handle_start-off :
    (o : Options) (start : Start) (s : Gesture)
    → is_off o s ≡ true
    → handle_start o start.x start.y start.time s ≡ s
unfolding handle_start
handle_start-off o start s h = if_true _ _ h

handle_move-off :
    (o : Options) (x y : ℤ) (s : Gesture) → is_off o s ≡ true → handle_move o x y s ≡ s
unfolding handle_move
handle_move-off o x y s h = if_true _ _ h

move_all-off :
    (o : Options) (moves : List (ℤ × ℤ)) (s : Gesture) → is_off o s ≡ true → move_all o moves s ≡ s
move_all-off o [] s h = refl
move_all-off o ((x, y) ∷ moves) s h =
    ap (move_all o moves) (handle_move-off o x y s h) ∙ move_all-off o moves s h

drag_from-still :
    (start : Start) (p : Option Start) (x y : ℤ) (s : Gesture)
    → p ≡ some start
    → is_drag (x -ℤ start.x) (y -ℤ start.y) ≡ false
    → drag_from p x y s ≡ s
drag_from-still start p x y s at h = ap (λ q. drag_from q x y s) at ∙ if_false _ _ h

handle_move-still :
    (o : Options) (start : Start) (x y : ℤ) (s : Gesture)
    → s.start_pos ≡ some start
    → is_drag (x -ℤ start.x) (y -ℤ start.y) ≡ false
    → handle_move o x y s ≡ s
unfolding handle_move
handle_move-still o start x y s at h = elim (Bool-cases (is_off o s)) [
  | inl e ↦ if_true _ _ e
  | inr e ↦ if_false _ _ e ∙ drag_from-still start s.start_pos x y s at h
]

abbrev pub IsStill : Start → List (ℤ × ℤ) → Type 0
IsStill start = All (λ (x, y). is_drag (x -ℤ start.x) (y -ℤ start.y) ≡ false)

move_all-still :
    (o : Options) (start : Start) (moves : List (ℤ × ℤ)) (s : Gesture)
    → s.start_pos ≡ some start
    → IsStill start moves
    → move_all o moves s ≡ s
move_all-still o start [] s at h = refl
move_all-still o start ((x, y) ∷ moves) s at (h, rest) =
    ap (move_all o moves) (handle_move-still o start x y s at h)
    ∙ move_all-still o start moves s at rest

abbrev begun : Start → Gesture → Gesture
begun start s = record s {
  start_pos = some (record { x = start.x; y = start.y; time = start.time });
  did_drag = false;
  is_dragging = false;
  drag_offset = pos 0;
}

handle_start-begun :
    (o : Options) (start : Start) (s : Gesture)
    → is_off o s ≡ false
    → handle_start o start.x start.y start.time s ≡ begun start s
unfolding handle_start
handle_start-begun o start s h = if_false _ _ h

-- A gesture that never moves more than ten pixels sideways, or never further sideways than up or
-- down, turns no page: taps and vertical scrolls do nothing.
pub gesture-still :
    (o : Options) (start : Start) (moves : List (ℤ × ℤ)) (now : ℕ) (s : Gesture)
    → IsStill start moves
    → gesture o start moves now s ≡ none
gesture-still o start moves now s h = elim (Option-cases (gesture o start moves now s)) [
  | inl e ↦ e
  | inr (t, e) ↦ elim (Bool-cases (is_off o s)) [
    | inl off ↦
        let same : move_all o moves (handle_start o start.x start.y start.time s) ≡ s =
          ap (move_all o moves) (handle_start-off o start s off) ∙ move_all-off o moves s off in
        let (p, ready, turns) =
          (handle_end-Turns_iff o now s t).0 (ap (λ g. (handle_end o now g).1) (sym same) ∙ e) in
        absurd (ground (arith, off, ready.paged, ready.enabled, ready.still))
    | inr on ↦
        let same : move_all o moves (handle_start o start.x start.y start.time s) ≡ begun start s =
          ap (move_all o moves) (handle_start-begun o start s on)
          ∙ move_all-still o start moves (begun start s) refl h in
        let (p, ready, turns) =
          (handle_end-Turns_iff o now (begun start s) t).0
            (ap (λ g. (handle_end o now g).1) (sym same) ∙ e) in
        absurd (cc ready.dragged)
  ]
]

abbrev dragged : Start → ℤ → Gesture → Gesture
dragged start drag s = record (begun start s) {
  did_drag = true;
  is_dragging = true;
  drag_offset = drag;
}

abbrev time_of : Option Start → ℕ
time_of none = 0
time_of (some p) = p.time

-- A single drag on a reader that is paged, not disabled and not animating turns the page that its
-- width, its speed and its direction ask for, and none else.
pub gesture-Turns_iff :
    (o : Options) (start : Start) (x y : ℤ) (now : ℕ) (s : Gesture) (t : Turn)
    → o.is_paged ≡ true
    → o.disabled ≡ false
    → s.is_animating ≡ false
    → is_drag (x -ℤ start.x) (y -ℤ start.y) ≡ true
    → (gesture o start ((x, y) ∷ []) now s ≡ some t)
      ↔ Turns o (max 1 (now - start.time)) (x -ℤ start.x) t
unfolding handle_move
gesture-Turns_iff o start x y now s t paged enabled still drags = (
  λ e.
      let (p, ready, turns) = (handle_end-Turns_iff o now there t).0 (ap end (sym same) ∙ e) in
      let at : start.time ≡ p.time = ap time_of ready.started in rw at turns,
  λ turns.
      ap end same
      ∙ (handle_end-Turns_iff o now there t).1 (
        start,
        record { paged = paged; enabled = enabled; dragged = refl; still = still; started = refl },
        turns,
      ),
)
  where
    there : Gesture
    there = dragged start (x -ℤ start.x) s

    end : Gesture → Option Turn
    end g = (handle_end o now g).1

    on : is_off o s ≡ false
    on = ground (arith, paged, enabled, still)

    same : move_all o ((x, y) ∷ []) (handle_start o start.x start.y start.time s) ≡ there
    same =
        ap (handle_move o x y) (handle_start-begun o start s on)
        ∙ if_false _ _ on
        ∙ if_true _ _ drags
