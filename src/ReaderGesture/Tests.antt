-- ===== src/ReaderGesture/Tests.antt =====
-- Runs of useReaderGesture.ts, and the theorems at concrete drags.
use kiyomi.Base.{
  ◌-◌, max, true, false, String, none, some, [], ◌∷◌, ◌≡◌, ◌≢◌, ◌↔◌, refl, String_eq, ne_of_beq,
}
use kiyomi.Base.Int.{pos, negsuc, ◌-ℤ◌}
use kiyomi.ReaderGesture.{
  Options, absent, Start, Gesture, at_rest, next_page, handle_end, spring_ends,
}
use kiyomi.ReaderGesture.Turning.{IsReady}
use kiyomi.ReaderGesture.Asking.{Turns, handle_end-Turns_iff}
use kiyomi.ReaderGesture.Swipes.{gesture, gesture-Turns_iff}
use kiyomi.ReaderGesture.Settling.{fire_all, fire_all-settles, after_cancel, after_cancel-no_turn}

abbrev reader : Options
reader = record {
  reading_mode = "ltr";
  is_paged = true;
  current_page = 3;
  total_pages = 9;
  has_next_chapter = false;
  has_prev_chapter = false;
  container_width = absent;
  inner_width = some 400;
  disabled = false;
}

abbrev touch : Start
touch = record { x = pos 300; y = pos 10; time = 5 }

abbrev dragging : Gesture
dragging = record at_rest {
  start_pos = some touch;
  did_drag = true;
  is_dragging = true;
  drag_offset = negsuc 99;
}

abbrev springing : Gesture
springing = record dragging {
  is_animating = true;
  timers = record { id = 0; callback = spring_ends } ∷ [];
  anim_timeout = some 0;
  next_timer = 1;
}

turns_on : (handle_end reader 200 dragging).1 ≡ some next_page
unfolding handle_end
turns_on = refl

handle_end-Turns_iff_example : ((handle_end reader 200 dragging).1 ≡ some next_page) ↔ (
    (start : Start) × IsReady reader dragging start
    × Turns reader (max 1 (200 - start.time)) (negsuc 99) next_page)
handle_end-Turns_iff_example = handle_end-Turns_iff reader 200 dragging next_page

gesture-Turns_iff_example :
    (gesture reader touch ((pos 180, pos 10) ∷ []) 200 at_rest ≡ some next_page)
    ↔ Turns reader (max 1 (200 - 5)) (pos 180 -ℤ pos 300) next_page
unfolding ◌-ℤ◌
gesture-Turns_iff_example =
    gesture-Turns_iff reader touch (pos 180) (pos 10) 200 at_rest next_page refl refl refl refl

other_mode : ◌≢◌ {A = String} "ltr" "rtl"
other_mode = ne_of_beq "ltr" "rtl" refl

fire_all-settles_example :
    ((fire_all springing.timers springing).is_animating ≡ false)
    × ((fire_all springing.timers springing).timers ≡ [])
fire_all-settles_example = fire_all-settles springing (λ h. refl, λ h. refl)

after_cancel-no_turn_example :
    (handle_end reader 200 (after_cancel reader touch (pos 20) (pos 10) at_rest)).1 ≡ none
unfolding ◌-ℤ◌
after_cancel-no_turn_example =
    after_cancel-no_turn reader touch (pos 20) (pos 10) 200 at_rest refl refl refl refl
