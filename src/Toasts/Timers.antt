-- ===== src/Toasts/Timers.antt =====
-- Every message goes away: its timer runs until it is gone.
use kiyomi.Base.{
  ℕ, Bool, true, false, ◌||◌, String, List, [], ◌∷◌, ◌++◌, ◌≡◌, refl, inl, inr, Bool-cases, any_of,
  All, ◌==◌, String_eq, beq_refl, arith,
}
use kiyomi.Toasts.{
  ToastMessage, ToastState, Event, shows, dismisses, fires, without, without_timer, remove_toast,
  show_toast, timer_fires, step,
}

abbrev pub is_timed : List (String × ℕ) → String → Bool
is_timed timers id = any_of (λ t. t.0 == id) timers

-- Every message on the screen has a timer that runs.
abbrev pub IsTimed : ToastState → Type 0
IsTimed s = All (λ t. is_timed s.timers t.id ≡ true) s.toasts

is_timed-append :
    (timers more : List (String × ℕ)) (id : String)
    → is_timed (timers ++ more) id ≡ (is_timed timers id || is_timed more id)
is_timed-append [] more id = refl
is_timed-append (t ∷ timers) more id = ground (arith, is_timed-append timers more id)

is_timed-snoc :
    (timers : List (String × ℕ)) (id : String) (ms : ℕ)
    → is_timed (timers ++ (id, ms) ∷ []) id ≡ true
is_timed-snoc [] id ms = ground (arith, beq_refl id)
is_timed-snoc (t ∷ timers) id ms = ground (arith, is_timed-snoc timers id ms)

is_timed-without_timer :
    (timers : List (String × ℕ)) (id other : String)
    → (other == id) ≡ false
    → is_timed timers other ≡ true
    → is_timed (without_timer id timers) other ≡ true
is_timed-without_timer [] id other ne h = h
is_timed-without_timer (t ∷ timers) id other ne h = ground (
  arith,
  is_timed-without_timer timers id other ne,
  String_eq.same_iff t.0 id,
  String_eq.same_iff t.0 other,
  String_eq.same_iff other id,
)

with_more :
    (timers more : List (String × ℕ)) (toasts : List ToastMessage)
    → All (λ t. is_timed timers t.id ≡ true) toasts
    → All (λ t. is_timed (timers ++ more) t.id ≡ true) toasts
with_more timers more [] h = tt
with_more timers more (t ∷ toasts) (p, h) =
    (ground (arith, is_timed-append timers more t.id), with_more timers more toasts h)

All-snoc :
    (P : ToastMessage → Type 0) (toasts : List ToastMessage) (t : ToastMessage)
    → All P toasts
    → P t
    → All P (toasts ++ t ∷ [])
All-snoc P [] t h p = (p, tt)
All-snoc P (x ∷ toasts) t (q, h) p = (q, All-snoc P toasts t h p)

-- What holds of all messages, and of those with another id in a stronger form.
All-without :
    (P Q : ToastMessage → Type 0) (id : String) (toasts : List ToastMessage)
    → ((t : ToastMessage) → (t.id == id) ≡ false → P t → Q t)
    → All P toasts
    → All Q (without id toasts)
All-without P Q id [] f h = tt
All-without P Q id (t ∷ toasts) f (p, h) = elim (Bool-cases (t.id == id)) [
  | inl e ↦ rw e (All-without P Q id toasts f h)
  | inr e ↦ rw e (f t e p, All-without P Q id toasts f h)
]

-- Showing a message, dismissing one and a timer that runs out keep a timer for every message that is
-- still on the screen.
pub step-IsTimed : (s : ToastState) (e : Event) → IsTimed s → IsTimed (step s e)
unfolding step show_toast timer_fires remove_toast
step-IsTimed s (shows t duration_ms) h =
    All-snoc _ s.toasts t (with_more s.timers _ s.toasts h) (is_timed-snoc s.timers t.id _)
step-IsTimed s (dismisses id) h = All-without _ _ id s.toasts (λ t ne p. p) h
step-IsTimed s (fires id) h =
    All-without _ _ id s.toasts (λ t ne p. is_timed-without_timer s.timers id t.id ne p) h

-- The timers that run now run out, in their order.
abbrev pub fire_all : List (String × ℕ) → ToastState → ToastState
fire_all [] s = s
fire_all (t ∷ timers) s = fire_all timers (step s (fires t.0))

none_left : (toasts : List ToastMessage) → All (λ t. false ≡ true) toasts → toasts ≡ []
none_left [] h = refl
none_left (t ∷ toasts) (p, h) = ground arith

fire_all-toasts :
    (timers : List (String × ℕ)) (s : ToastState)
    → All (λ t. is_timed timers t.id ≡ true) s.toasts
    → (fire_all timers s).toasts ≡ []
unfolding step timer_fires remove_toast
fire_all-toasts [] s h = none_left s.toasts h
fire_all-toasts (t ∷ timers) s h = fire_all-toasts timers (step s (fires t.0)) (
    All-without _ _ t.0 s.toasts
      (λ x ne p. ground (arith, String_eq.same_iff t.0 x.id, String_eq.same_iff x.id t.0)) h)

-- The messages come, go and run out in this order.
abbrev pub run : List Event → ToastState → ToastState
run [] s = s
run (e ∷ events) s = run events (step s e)

run-IsTimed : (events : List Event) (s : ToastState) → IsTimed s → IsTimed (run events s)
run-IsTimed [] s h = h
run-IsTimed (e ∷ events) s h = run-IsTimed events (step s e) (step-IsTimed s e h)

-- Before the first message.
abbrev pub no_toasts : ToastState
no_toasts = record { toasts = []; timers = [] }

-- Whatever messages were shown and dismissed, and whatever timers ran out, since the page was loaded: once
-- the timers that run then have run out too, no message is left on the screen.
pub fire_all-empties :
    (events : List Event)
    → (fire_all (run events no_toasts).timers (run events no_toasts)).toasts ≡ []
fire_all-empties events =
    let s : ToastState = run events no_toasts in
    fire_all-toasts s.timers s (run-IsTimed events no_toasts tt)
