-- ===== src/ReaderKeyboard/Tests.antt =====
-- Runs of useReaderKeyboard.ts, and the theorems at concrete presses.
use kiyomi.Base.{true, false, String, none, [], ◌∷◌, ◌≡◌, ◌≢◌, ◌⊎◌, refl, String_eq, ne_of_beq}
use kiyomi.ReaderKeyboard.{
  Options, KeyboardEvent, prevent_default, next_page, Key, other, handle_key_down,
}
use kiyomi.ReaderKeyboard.Promises.{IsBlocked, IsKey, Answers}
use kiyomi.ReaderKeyboard.Dispatch.{handle_key_down-Reacts}

abbrev reader : Options
reader = record {
  reading_mode = "rtl";
  enabled = true;
  given = λ a. true;
  has_document = true;
  full = false;
}

abbrev arrow : KeyboardEvent
arrow = record {
  target = none;
  key = "ArrowLeft";
  code = "ArrowLeft";
  ctrl_key = false;
  meta_key = false;
  alt_key = false;
  shift_key = false;
}

left_is_next : handle_key_down reader arrow ≡ prevent_default ∷ next_page ∷ []
unfolding handle_key_down
left_is_next = refl

handle_key_down-Reacts_example :
    ((handle_key_down reader arrow ≡ []) × (IsBlocked reader arrow ⊎ IsKey arrow other))
    ⊎ ((¬ IsBlocked reader arrow)
        × ((k : Key) × IsKey arrow k × Answers reader false k (handle_key_down reader arrow)))
handle_key_down-Reacts_example = handle_key_down-Reacts reader arrow

other_mode : ◌≢◌ {A = String} "webtoon" "rtl"
other_mode = ne_of_beq "webtoon" "rtl" refl
