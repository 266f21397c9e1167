-- ===== src/ReadingHint/Showing.antt =====
-- When the hint of useReadingHint.ts is shown, and when it goes.
use kiyomi.Base.{Bool, not, ◌||◌, String, String_eq}
use kiyomi.Base.Sets.{has}
use kiyomi.ReadingHint.{HintState, get_storage_key, is_mode}

-- The hint is due: the visit is the first of the session, or follows one in another mode.
abbrev pub is_due : String → String → HintState → Bool
is_due id mode s = not (has s.storage (get_storage_key id mode)) || not (is_mode s.prev_mode mode)
