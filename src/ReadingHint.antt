-- ===== src/ReadingHint.antt =====
-- web/src/hooks/useReadingHint.ts: the hint that says how to turn pages. `storage` holds the keys that
-- the session storage has; `dismiss_timer` is whether the timer that hides the hint runs.
pub mod Showing
mod Tests
use kiyomi.Base.{
  Bool, true, false, not, ◌&&◌, ◌||◌, String, Option, none, some, List, [], ◌∷◌, is_blank, ◌==◌,
  String_eq, ◌otherwise◌, if◌then◌else◌,
}
use kiyomi.Base.Sets.{has, add}
use kiyomi.Api.Numbers.{◌+text◌}

pub record ReadingHint : Type 0 where
  pub reading_mode : String
  pub message : String
  pub visible : Bool

pub record HintState : Type 0 where
  pub hint : Option ReadingHint
  pub dismiss_timer : Bool
  pub prev_mode : Option String
  pub storage : List String

abbrev pub get_storage_key : String → String → String
get_storage_key manga_id mode = "kiyomi_reading_hint_" +text manga_id +text "_" +text mode

abbrev pub default_message : String → String
default_message reading_mode =
    if reading_mode == "vertical" || reading_mode == "longstrip"
    then "Scroll to navigate"
    else "Tap left/right to navigate"

unfoldable pub dismiss_hint : HintState → HintState
dismiss_hint s = record s { dismiss_timer = false; hint = none }

abbrev pub message_of : String → Option String → String
message_of reading_mode custom_message =
    let custom = custom_message otherwise "" in
    if is_blank custom then default_message reading_mode else custom

unfoldable pub show_hint : String → Option String → HintState → HintState
show_hint reading_mode custom_message s = record s {
  hint = some (record {
    reading_mode = reading_mode;
    message = message_of reading_mode custom_message;
    visible = true;
  });
  dismiss_timer = true;
}

abbrev pub is_mode : Option String → String → Bool
is_mode none mode = false
is_mode (some prev) mode = prev == mode

-- The effect of a visit. The identity of the manga and the mode are its dependencies.
unfoldable pub visit : Option String → String → HintState → HintState
unfolding show_hint
visit manga_id reading_mode s =
    let id = manga_id otherwise "" in
    let key = get_storage_key id reading_mode in
    if is_blank id || is_blank reading_mode
    then s
    else if not (has s.storage key) || not (is_mode s.prev_mode reading_mode)
    then show_hint reading_mode none
        (record s { storage = add key s.storage; prev_mode = some reading_mode })
    else s

-- The cleanup of the effect before.
abbrev pub leave : HintState → HintState
leave s = record s { dismiss_timer = false }

unfoldable pub timer_fires : HintState → HintState
timer_fires s = if s.dismiss_timer then record s { hint = none; dismiss_timer = false } else s

-- A render with another manga or mode, after one with both given: React cleans up, then runs the
-- effect.
unfoldable pub switch : Option String → String → HintState → HintState
unfolding visit
switch manga_id reading_mode s = visit manga_id reading_mode (leave s)
