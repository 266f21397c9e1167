-- ===== src/ReaderGesture.antt =====
-- web/src/hooks/useReaderGesture.ts: turning pages by dragging. The state and the refs of the hook
-- are one record; a handler sees the values of the last render, which is the state that the handler
-- before it left. Positions are whole pixels, times are milliseconds.
pub mod Turning
pub mod Asking
pub mod Swipes
pub mod Mirror
pub mod Timers
pub mod Settling
mod Tests
use kiyomi.Base.{
  ℕ, suc, ◌+◌, ◌*◌, ◌-◌, max, Bool, true, false, not, ◌&&◌, ◌||◌, String, Option, none, some, List,
  [], ◌∷◌, ltb, leb, ◌==◌, ℕ_eq, String_eq, if◌then◌else◌, find, ◌otherwise◌, is_some,
}
use kiyomi.Base.Int.{ℤ, pos, negsuc, ◌-ℤ◌, abs, is_pos, is_neg}

-- `containerWidth`: not given, a number, or what the function answers.
pub data ContainerWidth : Type 0 where
  absent : ContainerWidth
  size measured : ℕ → ContainerWidth

-- `inner_width` is `window.innerWidth`, where there is a window.
pub record Options : Type 0 where
  pub reading_mode : String
  pub is_paged : Bool
  pub current_page : ℕ
  pub total_pages : ℕ
  pub has_next_chapter : Bool
  pub has_prev_chapter : Bool
  pub container_width : ContainerWidth
  pub inner_width : Option ℕ
  pub disabled : Bool

pub record Start : Type 0 where
  pub x : ℤ
  pub y : ℤ
  pub time : ℕ

-- The callbacks of the timers: the end of a spring animation, and the end of a cancelled drag.
pub data Callback : Type 0 where
  spring_ends cancel_ends : Callback

pub record Timer : Type 0 where
  pub id : ℕ
  pub callback : Callback

-- `timers` are the timers that run; `anim_timeout` is the reference to the one that was set last.
pub record Gesture : Type 0 where
  pub drag_offset : ℤ
  pub is_dragging : Bool
  pub is_animating : Bool
  pub did_drag : Bool
  pub start_pos : Option Start
  pub anim_timeout : Option ℕ
  pub timers : List Timer
  pub next_timer : ℕ

pub data Turn : Type 0 where
  next_page prev_page : Turn

abbrev pub at_rest : Gesture
at_rest = record {
  drag_offset = pos 0;
  is_dragging = false;
  is_animating = false;
  did_drag = false;
  start_pos = none;
  anim_timeout = none;
  timers = [];
  next_timer = 0;
}

abbrev pub width_of : ContainerWidth → Option ℕ → ℕ
width_of (measured w) inner = w
width_of (size w) inner = if ltb 0 w then w else inner otherwise 800
width_of absent inner = inner otherwise 800

abbrev pub get_width : Options → ℕ
get_width o = width_of o.container_width o.inner_width

-- `animTimeoutRef.current = setTimeout(callback)`
abbrev pub set_timer : Callback → Gesture → Gesture
set_timer callback s = record s {
  anim_timeout = some s.next_timer;
  timers = record { id = s.next_timer; callback = callback } ∷ s.timers;
  next_timer = suc s.next_timer;
}

abbrev pub without_timer : ℕ → List Timer → List Timer
without_timer id [] = []
without_timer id (t ∷ timers) = if t.id == id then timers else t ∷ without_timer id timers

-- `clearTimeout(animTimeoutRef.current)`
abbrev pub clear_timer : Option ℕ → List Timer → List Timer
clear_timer none timers = timers
clear_timer (some id) timers = without_timer id timers

unfoldable pub reset_gesture : Gesture → Gesture
reset_gesture s = record s {
  start_pos = none;
  did_drag = false;
  drag_offset = pos 0;
  is_dragging = false;
  is_animating = false;
  anim_timeout = none;
  timers = clear_timer s.anim_timeout s.timers;
}

-- The cleanup when the reader is left.
unfoldable pub unmount : Gesture → Gesture
unmount s = record s { timers = clear_timer s.anim_timeout s.timers }

unfoldable pub handle_start : Options → ℤ → ℤ → ℕ → Gesture → Gesture
handle_start o client_x client_y now s =
    if not o.is_paged || o.disabled || s.is_animating then s else record s {
      start_pos = some (record { x = client_x; y = client_y; time = now });
      did_drag = false;
      is_dragging = false;
      drag_offset = pos 0;
    }

-- Further than 10 pixels, and further across than up or down.
abbrev pub is_drag : ℤ → ℤ → Bool
is_drag delta_x delta_y = ltb 10 (abs delta_x) && ltb (abs delta_y) (abs delta_x)

abbrev pub drag_from : Option Start → ℤ → ℤ → Gesture → Gesture
drag_from none client_x client_y s = s
drag_from (some start) client_x client_y s =
    if is_drag (client_x -ℤ start.x) (client_y -ℤ start.y)
    then record s { did_drag = true; is_dragging = true; drag_offset = client_x -ℤ start.x }
    else s

unfoldable pub handle_move : Options → ℤ → ℤ → Gesture → Gesture
handle_move o client_x client_y s =
    if not o.is_paged || o.disabled || s.is_animating
    then s
    else drag_from s.start_pos client_x client_y s

-- `Math.abs(drag) >= Math.max(50, width * 0.15)`, and `Math.abs(drag / elapsed) > 0.4` with
-- `Math.abs(drag) > 20`, over whole numbers.
abbrev pub meets_distance : ℕ → ℤ → Bool
meets_distance width drag = leb (max 1000 (3 * width)) (20 * abs drag)

abbrev pub is_flick : ℕ → ℤ → Bool
is_flick elapsed drag = ltb (2 * elapsed) (5 * abs drag) && ltb 20 (abs drag)

abbrev pub meets_threshold : ℕ → ℕ → ℤ → Bool
meets_threshold width elapsed drag = meets_distance width drag || is_flick elapsed drag

abbrev pub is_next : String → ℤ → Bool
is_next reading_mode drag = if reading_mode == "rtl" then is_pos drag else is_neg drag

abbrev pub spring_back : Gesture → Gesture
spring_back s = set_timer spring_ends (record s { is_animating = true; drag_offset = pos 0 })

abbrev pub turn_or_spring : Options → Bool → Gesture → Gesture × Option Turn
turn_or_spring o true s =
    if ltb o.current_page o.total_pages || o.has_next_chapter
    then (s, some next_page)
    else (spring_back s, none)
turn_or_spring o false s =
    if ltb 1 o.current_page || o.has_prev_chapter
    then (s, some prev_page)
    else (spring_back s, none)

abbrev pub released : Gesture → Gesture
released s = record s { start_pos = none; is_dragging = false }

abbrev pub end_from : Options → ℕ → Option Start → Gesture → Gesture × Option Turn
end_from o now none s = (s, none)
end_from o now (some start) s =
    let elapsed = max 1 (now - start.time) in
    if not s.did_drag || s.is_animating
    then (record (released s) { drag_offset = pos 0 }, none)
    else if meets_threshold (get_width o) elapsed s.drag_offset
    then turn_or_spring o (is_next o.reading_mode s.drag_offset) (released s)
    else (spring_back (released s), none)

unfoldable pub handle_end : Options → ℕ → Gesture → Gesture × Option Turn
handle_end o now s =
    if not o.is_paged || o.disabled then (s, none) else end_from o now s.start_pos s

unfoldable pub handle_cancel : Gesture → Gesture
handle_cancel s =
    set_timer cancel_ends (record s { start_pos = none; is_dragging = false; drag_offset = pos 0 })

-- A timer fires.
abbrev pub call : Callback → Gesture → Gesture
call spring_ends s = record s { is_animating = false; did_drag = false }
call cancel_ends s = record s { did_drag = false }

abbrev pub call_of : ℕ → Option Timer → Gesture → Gesture
call_of id none s = s
call_of id (some t) s = call t.callback (record s { timers = without_timer id s.timers })

unfoldable pub timer_fires : ℕ → Gesture → Gesture
timer_fires id s = call_of id (find (λ t. t.id == id) s.timers) s

-- The handlers. `touches` are the positions of the fingers.
pub data Event : Type 0 where
  touch_start touch_move : List (ℤ × ℤ) → Event
  mouse_down : ℕ → ℤ → ℤ → Event
  mouse_move : ℤ → ℤ → Event
  touch_end touch_cancel mouse_up mouse_leave resets : Event
  timer_ends : ℕ → Event

abbrev pub on_touch_start : Options → ℕ → List (ℤ × ℤ) → Gesture → Gesture
on_touch_start o now [] s = s
on_touch_start o now ((x, y) ∷ []) s = handle_start o x y now s
on_touch_start o now (touch ∷ other ∷ touches) s = s

abbrev pub on_touch_move : Options → List (ℤ × ℤ) → Gesture → Gesture
on_touch_move o [] s = s
on_touch_move o ((x, y) ∷ []) s = handle_move o x y s
on_touch_move o (touch ∷ other ∷ touches) s = s

unfoldable pub step : Options → ℕ → Event → Gesture → Gesture × Option Turn
step o now (touch_start touches) s = (on_touch_start o now touches s, none)
step o now (touch_move touches) s = (on_touch_move o touches s, none)
step o now (mouse_down button x y) s = (if button == 0 then handle_start o x y now s else s, none)
step o now (mouse_move x y) s = (if is_some s.start_pos then handle_move o x y s else s, none)
step o now touch_end s = handle_end o now s
step o now touch_cancel s = (handle_cancel s, none)
step o now mouse_up s = handle_end o now s
step o now mouse_leave s = if is_some s.start_pos then handle_end o now s else (s, none)
step o now resets s = (reset_gesture s, none)
step o now (timer_ends id) s = (timer_fires id s, none)

abbrev pub transition_style : Gesture → String
transition_style s =
    if s.is_dragging
    then "none"
    else if s.is_animating
    then "transform 220ms cubic-bezier(0.16, 1, 0.3, 1)"
    else "none"
