-- ===== src/ReaderGesture/Settling.antt =====
-- What happens in useReaderGesture.ts when the timers have fired.
use kiyomi.Base.{
  ℕ, true, false, none, List, [], ◌∷◌, any_of, find, find, ◌≡◌, inl, inr, refl, ap, ◌∙◌, Bool-cases,
  if_true, ◌==◌, ℕ_eq, beq_refl, Option-cases,
}
use kiyomi.Base.Int.{ℤ, ◌-ℤ◌}
use kiyomi.ReaderGesture.{
  Options, Start, Callback, spring_ends, cancel_ends, Timer, Gesture, without_timer, handle_start,
  is_drag, handle_move, handle_end, handle_cancel, call, call_of, timer_fires,
}
use kiyomi.ReaderGesture.Turning.{handle_end-Passes_iff}
use kiyomi.ReaderGesture.Timers.{ends_spring, IsTimed, timer_fires-IsTimed}

-- The timers fire one after another.
abbrev pub fire_all : List Timer → Gesture → Gesture
fire_all [] s = s
fire_all (t ∷ timers) s = fire_all timers (timer_fires t.id s)

timer_fires-first :
    (t : Timer) (timers : List Timer) (s : Gesture)
    → s.timers ≡ t ∷ timers
    → (timer_fires t.id s).timers ≡ timers
unfolding timer_fires
timer_fires-first t timers s h =
    ap (λ ts. (call_of t.id (find (λ u. u.id == t.id) ts) (record s { timers = ts })).timers) h
    ∙ ap (λ found. (call_of t.id found (record s { timers = t ∷ timers })).timers)
        (if_true _ _ (beq_refl t.id))
    ∙ keeps t.callback (without_timer t.id (t ∷ timers))
    ∙ if_true _ _ (beq_refl t.id)
  where
    keeps : (c : Callback) (ts : List Timer) → (call c (record s { timers = ts })).timers ≡ ts
    keeps spring_ends ts = refl
    keeps cancel_ends ts = refl

settles :
    (timers : List Timer) (s : Gesture)
    → s.timers ≡ timers
    → IsTimed s
    → ((fire_all timers s).is_animating ≡ false) × ((fire_all timers s).timers ≡ [])
settles [] s e (a, d) = elim (Bool-cases s.is_animating) [
  | inl on ↦ cc (a on, ap (any_of ends_spring) e)
  | inr off ↦ (off, e)
]
settles (t ∷ timers) s e h =
    settles timers (timer_fires t.id s) (timer_fires-first t timers s e)
      (timer_fires-IsTimed t.id s h)

-- No animation is stuck: in a state where a running animation has its timer, once the timers that
-- run have fired, nothing is animating and no timer is left.
pub fire_all-settles :
    (s : Gesture)
    → IsTimed s
    → ((fire_all s.timers s).is_animating ≡ false) × ((fire_all s.timers s).timers ≡ [])
fire_all-settles s h = settles s.timers s refl h

-- A drag after a cancelled touch: a new touch, one move, the timer of the cancelled touch, the release.
abbrev pub after_cancel : Options → Start → ℤ → ℤ → Gesture → Gesture
after_cancel o start x y s =
    timer_fires s.next_timer
      (handle_move o x y (handle_start o start.x start.y start.time (handle_cancel s)))

after_cancel-did_drag :
    (o : Options) (start : Start) (x y : ℤ) (s : Gesture)
    → o.is_paged ≡ true
    → o.disabled ≡ false
    → s.is_animating ≡ false
    → is_drag (x -ℤ start.x) (y -ℤ start.y) ≡ true
    → (after_cancel o start x y s).did_drag ≡ false
unfolding handle_cancel handle_start handle_move timer_fires
after_cancel-did_drag o start x y s paged enabled still drags =
    rw (paged, enabled, still, drags, beq_refl s.next_timer) refl

-- A touch that is cancelled shortly before the next one spoils it: where the timer of the cancelled
-- touch fires after the last move of the new drag and before its release, the release turns no page,
-- however far the drag went.
pub after_cancel-no_turn :
    (o : Options) (start : Start) (x y : ℤ) (now : ℕ) (s : Gesture)
    → o.is_paged ≡ true
    → o.disabled ≡ false
    → s.is_animating ≡ false
    → is_drag (x -ℤ start.x) (y -ℤ start.y) ≡ true
    → (handle_end o now (after_cancel o start x y s)).1 ≡ none
after_cancel-no_turn o start x y now s paged enabled still drags =
    elim (Option-cases (handle_end o now (after_cancel o start x y s)).1) [
      | inl e ↦ e
      | inr (t, e) ↦
          let (p, ready, turns) =
            (handle_end-Passes_iff o now (after_cancel o start x y s) t).0 e in
          cc (ready.dragged, after_cancel-did_drag o start x y s paged enabled still drags)
    ]
