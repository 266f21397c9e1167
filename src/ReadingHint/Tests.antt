-- ===== src/ReadingHint/Tests.antt =====
-- A run of useReadingHint.ts, and the theorems at a concrete session.
use kiyomi.Base.{true, some, [], ◌∷◌, ◌≡◌, refl}
use kiyomi.Base.Sets.{has}
use kiyomi.ReadingHint.{HintState, timer_fires, switch}

-- Manga "one" was just opened; "two" was seen before in the same mode.
abbrev just_opened : HintState
just_opened = record {
  hint =
      some
        (record { reading_mode = "rtl"; message = "Tap left/right to navigate"; visible = true });
  dismiss_timer = true;
  prev_mode = some "rtl";
  storage = "kiyomi_reading_hint_two_rtl" ∷ [];
}

-- The hint stays on the screen.
nothing_hides_it : (timer_fires (switch (some "two") "rtl" just_opened)).hint ≡ just_opened.hint
unfolding timer_fires switch has
nothing_hides_it = refl
