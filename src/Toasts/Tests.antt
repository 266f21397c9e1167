-- ===== src/Toasts/Tests.antt =====
-- The messages of ToastContext at concrete messages.
use kiyomi.Base.{none, some, List, [], ◌∷◌, ◌≡◌, refl}
use kiyomi.Api.Values.{object, nil, is_truthy}
use kiyomi.Toasts.{
  Event, shows, dismisses, ToastMessage, ToastState, success, default_mode, json, show_toast,
  error_details,
}
use kiyomi.Toasts.Timers.{fire_all, run, no_toasts, fire_all-empties}

abbrev saved : ToastMessage
saved = record {
  id = "t1";
  message = "Saved";
  kind = success;
  details = none;
  mode = default_mode;
  action = some "Undo";
}

abbrev shown : ToastState
shown = record { toasts = saved ∷ []; timers = ("t1", 10000) ∷ [] }

shows_saved : show_toast saved none (record { toasts = []; timers = [] }) ≡ shown
unfolding show_toast
shows_saved = refl

details_of_error :
    error_details (record { message = none; details = object nil; stack = none; printed = "x" })
    ≡ json (object nil)
unfolding error_details is_truthy
details_of_error = refl

abbrev events : List Event
events = shows saved none ∷ shows (record saved { id = "t2" }) (some 500) ∷ dismisses "t1" ∷ []

fire_all-empties_example :
    (fire_all (run events no_toasts).timers (run events no_toasts)).toasts ≡ []
fire_all-empties_example = fire_all-empties events
