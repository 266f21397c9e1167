-- ===== src/Toasts.antt =====
-- web/src/context/ToastContext.tsx: the messages on the screen with their timers, and the details that
-- the callers of `showToast` take from an error.
pub mod Timers
mod Tests
use kiyomi.Base.{
  ℕ, Bool, not, String, Option, none, some, List, [], ◌∷◌, ◌++◌, filter_by, is_blank, or_text, ◌==◌,
  String_eq, if◌then◌else◌, ◌otherwise◌,
}
use kiyomi.Api.Values.{Value, string, is_truthy}

pub data ToastType : Type 0 where
  info error success : ToastType

pub data ToastMode : Type 0 where
  default_mode subtle : ToastMode

-- A text, or `JSON.stringify(value, null, 2)`.
pub data Details : Type 0 where
  plain : String → Details
  json : Value → Details

-- `ToastMessage`; of an action only its label is kept.
pub record ToastMessage : Type 0 where
  pub id : String
  pub message : String
  pub kind : ToastType
  pub details : Option Details
  pub mode : ToastMode
  pub action : Option String

-- The messages, and the ids of the timers that run with their milliseconds.
pub record ToastState : Type 0 where
  pub toasts : List ToastMessage
  pub timers : List (String × ℕ)

abbrev pub without : String → List ToastMessage → List ToastMessage
without id toasts = filter_by (λ t. not (t.id == id)) toasts

unfoldable pub remove_toast : String → ToastState → ToastState
remove_toast id s = record s { toasts = without id s.toasts }

abbrev pub default_timeout : Option String → ℕ
default_timeout none = 3200
default_timeout (some label) = 10000

-- The message comes with its random id.
unfoldable pub show_toast : ToastMessage → Option ℕ → ToastState → ToastState
show_toast t duration_ms s = record {
  toasts = s.toasts ++ t ∷ [];
  timers = s.timers ++ (t.id, duration_ms otherwise default_timeout t.action) ∷ [];
}

-- A timer runs out: the first that runs for the id.
abbrev pub without_timer : String → List (String × ℕ) → List (String × ℕ)
without_timer id [] = []
without_timer id (t ∷ timers) = if t.0 == id then timers else t ∷ without_timer id timers

unfoldable pub timer_fires : String → ToastState → ToastState
unfolding remove_toast
timer_fires id s = record (remove_toast id s) { timers = without_timer id s.timers }

pub data Event : Type 0 where
  shows : ToastMessage → Option ℕ → Event
  dismisses fires : String → Event

unfoldable pub step : ToastState → Event → ToastState
unfolding show_toast remove_toast timer_fires
step s (shows t duration_ms) = show_toast t duration_ms s
step s (dismisses id) = remove_toast id s
step s (fires id) = timer_fires id s

-- What a caught error gives: `err.message`, `err.details`, `err.stack` and `String(err)`.
pub record Failure : Type 0 where
  pub message : Option String
  pub details : Value
  pub stack : Option String
  pub printed : String

abbrev pub details_text : Value → Details
details_text (string s) = plain s
details_text v = json v

-- `err.details ? (typeof err.details === 'string' ? … : JSON.stringify(…)) : err.stack || String(err)`
unfoldable pub error_details : Failure → Details
error_details err =
    if is_truthy err.details
    then details_text err.details
    else plain (or_text (err.stack otherwise "") err.printed)

-- `err.message || 'An error occurred'`
abbrev pub error_text : Failure → String
error_text err = or_text (err.message otherwise "") "An error occurred"
