-- ===== src/ReaderGesture/Mirror.antt =====
-- The reading directions of useReaderGesture.ts.
use kiyomi.Base.{
  ℕ, ◌*◌, ◌-◌, max, Bool, true, false, not, ◌&&◌, ◌||◌, String, Option, none, some, ltb, leb, ◌≡◌,
  ◌≢◌, inl, inr, refl, ap, ◌∙◌, Bool-cases, if◌then◌else◌, String_eq, beq_of_ne,
}
use kiyomi.Base.Int.{ℤ, pos, negate, is_pos-negate, abs-negate}
use kiyomi.ReaderGesture.{
  Options, Start, Gesture, Turn, get_width, meets_threshold, is_next, spring_back, turn_or_spring,
  released, end_from, handle_end,
}

-- The same reader in another direction, and the same drag the other way.
abbrev pub with_mode : String → Options → Options
with_mode mode o = record o { reading_mode = mode }

abbrev pub mirrored : Gesture → Gesture
mirrored s = record s { drag_offset = negate s.drag_offset }

meets_threshold-negate :
    (width elapsed : ℕ) (drag : ℤ)
    → meets_threshold width elapsed (negate drag) ≡ meets_threshold width elapsed drag
meets_threshold-negate width elapsed drag =
    ap (λ d. leb (max 1000 (3 * width)) (20 * d) || (ltb (2 * elapsed) (5 * d) && ltb 20 d))
      (abs-negate drag)

is_next-negate :
    (mode : String) (drag : ℤ) → mode ≢ "rtl" → is_next "rtl" (negate drag) ≡ is_next mode drag
is_next-negate mode drag other = rw (beq_of_ne mode "rtl" other) (is_pos-negate drag)

turn_or_spring-mode :
    (o : Options) (mode : String) (forward : Bool) (s : Gesture)
    → (turn_or_spring (with_mode "rtl" o) forward (mirrored s)).1
      ≡ (turn_or_spring (with_mode mode o) forward s).1
turn_or_spring-mode o mode true s =
    elim (Bool-cases (ltb o.current_page o.total_pages || o.has_next_chapter)) [
      | inl e ↦ rw e refl
      | inr e ↦ rw e refl
    ]
turn_or_spring-mode o mode false s =
    elim (Bool-cases (ltb 1 o.current_page || o.has_prev_chapter)) [
      | inl e ↦ rw e refl
      | inr e ↦ rw e refl
    ]

-- The turn of a release by its tests: it is ignored, it is far or fast enough, it goes forward.
abbrev turn_by : Options → Gesture → Bool → Bool → Bool → Option Turn
turn_by o s ignored meets forward =
    (if ignored
      then (record (released s) { drag_offset = pos 0 }, none)
      else if meets
      then turn_or_spring o forward (released s)
      else (spring_back (released s), none)).1

turn_by-mode :
    (o : Options) (mode : String) (s : Gesture) (ignored meets forward : Bool)
    → turn_by (with_mode "rtl" o) (mirrored s) ignored meets forward
      ≡ turn_by (with_mode mode o) s ignored meets forward
turn_by-mode o mode s true meets forward = refl
turn_by-mode o mode s false true forward = turn_or_spring-mode o mode forward (released s)
turn_by-mode o mode s false false forward = refl

end_from-mode :
    (o : Options) (mode : String) (now : ℕ) (start : Option Start) (s : Gesture)
    → mode ≢ "rtl"
    → (end_from (with_mode "rtl" o) now start (mirrored s)).1
      ≡ (end_from (with_mode mode o) now start s).1
end_from-mode o mode now none s other = refl
end_from-mode o mode now (some p) s other =
    ap
      (λ m.
        turn_by (with_mode "rtl" o) (mirrored s) ignored m (is_next "rtl" (negate s.drag_offset)))
      (meets_threshold-negate (get_width o) (max 1 (now - p.time)) s.drag_offset)
    ∙ ap (turn_by (with_mode "rtl" o) (mirrored s) ignored meets)
        (is_next-negate mode s.drag_offset other)
    ∙ turn_by-mode o mode s ignored meets (is_next mode s.drag_offset)
  where
    ignored : Bool
    ignored = not s.did_drag || s.is_animating

    meets : Bool
    meets = meets_threshold (get_width o) (max 1 (now - p.time)) s.drag_offset

-- Right-to-left reading is the mirror image: with the drag reversed, a release turns to the same page
-- in right-to-left mode as in any other mode, or turns none in both.
pub handle_end-mirror :
    (o : Options) (mode : String) (now : ℕ) (s : Gesture)
    → mode ≢ "rtl"
    → (handle_end (with_mode "rtl" o) now (mirrored s)).1 ≡ (handle_end (with_mode mode o) now s).1
unfolding handle_end
handle_end-mirror o mode now s other = elim (Bool-cases (not o.is_paged || o.disabled)) [
  | inl e ↦ rw e refl
  | inr e ↦ rw e (end_from-mode o mode now s.start_pos s other)
]
