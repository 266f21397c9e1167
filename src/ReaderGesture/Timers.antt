-- ===== src/ReaderGesture/Timers.antt =====
-- The timers of useReaderGesture.ts, which end an animation and forget a drag.
use kiyomi.Base.{
  ℕ, ◌-◌, max, ltb, Bool, true, false, not, ◌||◌, Option, none, some, List, [], ◌∷◌, any_of, find,
  ◌≡◌, inl, inr, refl, ap, ◌∙◌, sym, arith, Bool-cases, if_false, is_some, ◌==◌, ℕ_eq, find,
  Option-cases,
}
use kiyomi.Base.Int.{ℤ, ◌-ℤ◌}
use kiyomi.ReaderGesture.{
  Options, Start, Callback, spring_ends, cancel_ends, Timer, Gesture, without_timer, reset_gesture,
  handle_start, is_drag, drag_from, handle_move, meets_threshold, turn_or_spring, released,
  end_from, handle_end, handle_cancel, call, timer_fires, Event, touch_start, touch_move,
  mouse_down, mouse_move, touch_end, touch_cancel, mouse_up, mouse_leave, resets, timer_ends, step,
  on_touch_start, on_touch_move, get_width, is_next,
}

abbrev pub ends_spring : Timer → Bool
ends_spring t = elim t.callback [ spring_ends ↦ true | cancel_ends ↦ false ]

-- An animation that runs has a timer that ends it, and a drag has a start.
abbrev pub IsTimed : Gesture → Type 0
IsTimed s =
    (s.is_animating ≡ true → any_of ends_spring s.timers ≡ true)
    × (s.is_dragging ≡ true → is_some s.start_pos ≡ true)

handle_start-IsTimed :
    (o : Options) (x y : ℤ) (now : ℕ) (s : Gesture) → IsTimed s → IsTimed (handle_start o x y now s)
unfolding handle_start
handle_start-IsTimed o x y now s (a, d) =
    elim (Bool-cases (not o.is_paged || o.disabled || s.is_animating)) [
      | inl e ↦ rw e (a, d)
      | inr e ↦ rw e (a, λ h. cc)
    ]

drag_from-IsTimed :
    (p : Option Start) (x y : ℤ) (s : Gesture)
    → s.start_pos ≡ p
    → IsTimed s
    → IsTimed (drag_from p x y s)
drag_from-IsTimed none x y s at h = h
drag_from-IsTimed (some p) x y s at (a, d) = elim (Bool-cases (is_drag (x -ℤ p.x) (y -ℤ p.y))) [
  | inl e ↦ rw e (a, λ h. ap is_some at)
  | inr e ↦ rw e (a, d)
]

handle_move-IsTimed :
    (o : Options) (x y : ℤ) (s : Gesture) → IsTimed s → IsTimed (handle_move o x y s)
unfolding handle_move
handle_move-IsTimed o x y s h = elim (Bool-cases (not o.is_paged || o.disabled || s.is_animating)) [
  | inl e ↦ rw e h
  | inr e ↦ rw e (drag_from-IsTimed s.start_pos x y s refl h)
]

turn_or_spring-IsTimed :
    (o : Options) (forward : Bool) (s : Gesture)
    → IsTimed s
    → s.is_dragging ≡ false
    → IsTimed (turn_or_spring o forward s).0
turn_or_spring-IsTimed o true s h d =
    elim (Bool-cases (ltb o.current_page o.total_pages || o.has_next_chapter)) [
      | inl e ↦ rw e h
      | inr e ↦ rw e (λ a. refl, λ k. cc)
    ]
turn_or_spring-IsTimed o false s h d =
    elim (Bool-cases (ltb 1 o.current_page || o.has_prev_chapter)) [
      | inl e ↦ rw e h
      | inr e ↦ rw e (λ a. refl, λ k. cc)
    ]

end_from-IsTimed :
    (o : Options) (now : ℕ) (p : Option Start) (s : Gesture)
    → IsTimed s
    → IsTimed (end_from o now p s).0
end_from-IsTimed o now none s h = h
end_from-IsTimed o now (some p) s (a, d) = elim (Bool-cases (not s.did_drag || s.is_animating)) [
  | inl e ↦ rw e (a, λ h. cc)
  | inr e ↦ elim (Bool-cases (meets_threshold (get_width o) (max 1 (now - p.time)) s.drag_offset)) [
    | inl m ↦
        rw (e, m)
          (turn_or_spring-IsTimed o (is_next o.reading_mode s.drag_offset) (released s) (a, λ h. cc)
            refl)
    | inr m ↦ rw (e, m) (λ h. refl, λ h. cc)
  ]
]

handle_end-IsTimed :
    (o : Options) (now : ℕ) (s : Gesture) → IsTimed s → IsTimed (handle_end o now s).0
unfolding handle_end
handle_end-IsTimed o now s h = elim (Bool-cases (not o.is_paged || o.disabled)) [
  | inl e ↦ rw e h
  | inr e ↦ rw e (end_from-IsTimed o now s.start_pos s h)
]

-- Where the first timer with an id does not end an animation, the animation keeps its timer.
without_timer-spring :
    (id : ℕ) (timers : List Timer) (t : Timer)
    → find (λ t. t.id == id) timers ≡ some t
    → ends_spring t ≡ false
    → any_of ends_spring (without_timer id timers) ≡ any_of ends_spring timers
without_timer-spring id [] t f e = refl
without_timer-spring id (u ∷ timers) t f e = elim (Bool-cases (u.id == id)) [
  | inl h ↦
      let same : u ≡ t = ground arith in
      rw h (ap (λ b. b || any_of ends_spring timers) (sym (ap ends_spring same ∙ e)))
  | inr h ↦
      rw h (
        ap (λ b. ends_spring u || b)
          (without_timer-spring id timers t (sym (if_false _ _ h) ∙ f) e))
]

call-IsTimed :
    (c : Callback) (s : Gesture) (timers : List Timer)
    → IsTimed s
    → (c ≡ cancel_ends → any_of ends_spring timers ≡ any_of ends_spring s.timers)
    → IsTimed (call c (record s { timers = timers }))
call-IsTimed spring_ends s timers (a, d) h = (λ k. cc, d)
call-IsTimed cancel_ends s timers (a, d) h = (λ k. h refl ∙ a k, d)

cancels : (t : Timer) → t.callback ≡ cancel_ends → ends_spring t ≡ false
cancels t c = rw c refl

pub timer_fires-IsTimed : (id : ℕ) (s : Gesture) → IsTimed s → IsTimed (timer_fires id s)
unfolding timer_fires
timer_fires-IsTimed id s h = elim (Option-cases (find (λ t. t.id == id) s.timers)) [
  | inl e ↦ rw e h
  | inr (t, e) ↦ rw e (
      call-IsTimed t.callback s (without_timer id s.timers) h
        (λ c. without_timer-spring id s.timers t e (cancels t c)))
]

on_touch_start-IsTimed :
    (o : Options) (now : ℕ) (touches : List (ℤ × ℤ)) (s : Gesture)
    → IsTimed s
    → IsTimed (on_touch_start o now touches s)
on_touch_start-IsTimed o now [] s h = h
on_touch_start-IsTimed o now ((x, y) ∷ []) s h = handle_start-IsTimed o x y now s h
on_touch_start-IsTimed o now (a ∷ b ∷ touches) s h = h

on_touch_move-IsTimed :
    (o : Options) (touches : List (ℤ × ℤ)) (s : Gesture)
    → IsTimed s
    → IsTimed (on_touch_move o touches s)
on_touch_move-IsTimed o [] s h = h
on_touch_move-IsTimed o ((x, y) ∷ []) s h = handle_move-IsTimed o x y s h
on_touch_move-IsTimed o (a ∷ b ∷ touches) s h = h

-- Every event keeps the invariant: an animation that runs has a timer that will end it, and a drag
-- that is shown has a start.
pub step-IsTimed :
    (o : Options) (now : ℕ) (e : Event) (s : Gesture) → IsTimed s → IsTimed (step o now e s).0
unfolding step handle_cancel reset_gesture
step-IsTimed o now (touch_start touches) s h = on_touch_start-IsTimed o now touches s h
step-IsTimed o now (touch_move touches) s h = on_touch_move-IsTimed o touches s h
step-IsTimed o now (mouse_down button x y) s h = elim (Bool-cases (button == 0)) [
  | inl e ↦ rw e (handle_start-IsTimed o x y now s h)
  | inr e ↦ rw e h
]
step-IsTimed o now (mouse_move x y) s h = elim (Bool-cases (is_some s.start_pos)) [
  | inl e ↦ rw e (handle_move-IsTimed o x y s h)
  | inr e ↦ rw e h
]
step-IsTimed o now touch_end s h = handle_end-IsTimed o now s h
step-IsTimed o now touch_cancel s (a, d) = (a, λ k. cc)
step-IsTimed o now mouse_up s h = handle_end-IsTimed o now s h
step-IsTimed o now mouse_leave s h = elim (Bool-cases (is_some s.start_pos)) [
  | inl e ↦ rw e (handle_end-IsTimed o now s h)
  | inr e ↦ rw e h
]
step-IsTimed o now resets s h = (λ k. cc, λ k. cc)
step-IsTimed o now (timer_ends id) s h = timer_fires-IsTimed id s h
