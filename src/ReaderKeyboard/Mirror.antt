-- ===== src/ReaderKeyboard/Mirror.antt =====
-- How the reading direction turns the arrow keys of useReaderKeyboard.ts.
use kiyomi.Base.{
  Bool, not, ◌||◌, String, ◌≡◌, ◌≢◌, inl, inr, refl, Bool-cases, ◌==◌, String_eq, beq_of_ne,
}
use kiyomi.ReaderKeyboard.{
  KeyboardEvent, Options, types_text, arrow_left, arrow_right, press, handle_key_down,
}

abbrev pub with_mode : String → Options → Options
with_mode mode o = record o { reading_mode = mode }

press-mirror :
    (o : Options) (mode : String) (shift : Bool)
    → mode ≢ "rtl"
    → (press (with_mode "rtl" o) shift arrow_left ≡ press (with_mode mode o) shift arrow_right)
      × (press (with_mode "rtl" o) shift arrow_right ≡ press (with_mode mode o) shift arrow_left)
press-mirror o mode shift ltr = rw (beq_of_ne mode "rtl" ltr) (refl, refl)

-- In right-to-left mode each arrow key does what the opposite arrow key does in any other mode.
pub handle_key_down-mirror :
    (o : Options) (mode : String) (e : KeyboardEvent)
    → mode ≢ "rtl"
    → (handle_key_down (with_mode "rtl" o) (record e { key = "ArrowLeft" })
        ≡ handle_key_down (with_mode mode o) (record e { key = "ArrowRight" }))
      × (handle_key_down (with_mode "rtl" o) (record e { key = "ArrowRight" })
          ≡ handle_key_down (with_mode mode o) (record e { key = "ArrowLeft" }))
unfolding handle_key_down
handle_key_down-mirror o mode e ltr =
    elim (Bool-cases
      (not o.enabled || types_text e.target || e.ctrl_key || e.meta_key || e.alt_key)) [
        | inl h ↦ rw h (refl, refl)
        | inr h ↦ elim (Bool-cases (e.code == "Space")) [
          | inl s ↦ rw (h, s) (refl, refl)
          | inr s ↦ rw (h, s) (press-mirror o mode e.shift_key ltr)
        ]
      ]
