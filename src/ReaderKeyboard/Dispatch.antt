-- ===== src/ReaderKeyboard/Dispatch.antt =====
-- The key handler of useReaderKeyboard.ts keeps what the keys promise.
use mathlib.Core.Path.{subst}
use kiyomi.Base.{
  Bool, true, false, not, ◌||◌, String, Option, none, some, [], ◌∷◌, ◌≡◌, ◌≢◌, ◌⊎◌, inl, inr, refl,
  ap, ◌∙◌, arith, Bool-cases, ◌==◌, String_eq, if◌then◌else◌, eq_of_beq, ne_of_beq, if_false,
  if_true,
}
use kiyomi.ReaderKeyboard.{
  Target, KeyboardEvent, Action, toggle_fullscreen, next_page, prev_page, Options, call, types_text,
  full_screen, Key, fullscreen, menu, home, end, page_up, page_down, space, arrow_left, arrow_right,
  other, key_of, is_rtl, press, handle_key_down, toggle_overlays, first_page, last_page,
}
use kiyomi.ReaderKeyboard.Promises.{
  Types, IsBlocked, IsNoneOf, named_keys, IsKey, Calls, Chooses, SwitchesScreen, Answers,
}

types_text-Types : (t : Option Target) → types_text t ≡ true → Types t
types_text-Types none h = cc
types_text-Types (some t) h = elim (Bool-cases (t.tag_name == "INPUT")) [
  | inl a ↦ inl (eq_of_beq _ _ a)
  | inr a ↦ inr (elim (Bool-cases (t.tag_name == "TEXTAREA")) [
    | inl b ↦ inl (eq_of_beq _ _ b)
    | inr b ↦
        inr (elim (Bool-cases t.is_content_editable) [ inl c ↦ inl c | inr c ↦ inr (ground arith) ])
  ])
]

types_text-of : (t : Option Target) → Types t → types_text t ≡ true
types_text-of none h = absurd h
types_text-of (some t) (inl h) = rw h refl
types_text-of (some t) (inr (inl h)) = rw h (ground arith)
types_text-of (some t) (inr (inr (inl h))) = ground arith
types_text-of (some t) (inr (inr (inr h))) = ground arith

abbrev is_blocked : Options → KeyboardEvent → Bool
is_blocked o e = not o.enabled || types_text e.target || e.ctrl_key || e.meta_key || e.alt_key

is_blocked-IsBlocked : (o : Options) (e : KeyboardEvent) → is_blocked o e ≡ true → IsBlocked o e
is_blocked-IsBlocked o e h = elim (Bool-cases o.enabled) [
  | inr a ↦ inl a
  | inl a ↦ inr (elim (Bool-cases (types_text e.target)) [
    | inl b ↦ inl (types_text-Types e.target b)
    | inr b ↦ inr (elim (Bool-cases e.ctrl_key) [
      | inl c ↦ inl c
      | inr c ↦ inr (elim (Bool-cases e.meta_key) [ inl d ↦ inl d | inr d ↦ inr (ground arith) ])
    ])
  ])
]

is_blocked-not : (o : Options) (e : KeyboardEvent) → is_blocked o e ≡ false → ¬ IsBlocked o e
is_blocked-not o e h (inl a) = ground arith
is_blocked-not o e h (inr (inl b)) = ground (arith, types_text-of e.target b)
is_blocked-not o e h (inr (inr (inl c))) = ground arith
is_blocked-not o e h (inr (inr (inr (inl d)))) = ground arith
is_blocked-not o e h (inr (inr (inr (inr f)))) = ground arith

-- One of two names.
either_of : (a b c d : String) → (a == b || c == d) ≡ true → (a ≡ b) ⊎ (c ≡ d)
either_of a b c d h = elim (Bool-cases (a == b)) [
  | inl e ↦ inl (eq_of_beq _ _ e)
  | inr e ↦ inr (eq_of_beq _ _ (ground arith))
]

neither_of : (a b c d : String) → (a == b || c == d) ≡ false → (a ≢ b) × (c ≢ d)
neither_of a b c d h = (ne_of_beq _ _ (ground arith), ne_of_beq _ _ (ground arith))

abbrev late_key : KeyboardEvent → Key
late_key e =
    if e.key == " " || e.code == "Space"
    then space
    else if e.key == "ArrowLeft"
    then arrow_left
    else if e.key == "ArrowRight"
    then arrow_right
    else other

-- The keys after PageDown.
late_key-IsKey : (e : KeyboardEvent) → IsNoneOf e named_keys → IsKey e (late_key e)
late_key-IsKey e unnamed = elim (Bool-cases (e.key == " " || e.code == "Space")) [
  | inl h ↦ rw h (unnamed, either_of _ _ _ _ h)
  | inr s ↦
      let (blank, code) = neither_of _ _ _ _ s in
      elim (Bool-cases (e.key == "ArrowLeft")) [
        | inl h ↦ rw (s, h) (code, eq_of_beq _ _ h)
        | inr l ↦ elim (Bool-cases (e.key == "ArrowRight")) [
          | inl h ↦ rw (s, l, h) (code, eq_of_beq _ _ h)
          | inr r ↦ rw (s, l, r) (unnamed, code, (blank, (ne_of_beq _ _ l, (ne_of_beq _ _ r, tt))))
        ]
      ]
]

unnamed_by :
    (e : KeyboardEvent)
    → (e.key == "f" || e.key == "F") ≡ false
    → (e.key == "m" || e.key == "M") ≡ false
    → (e.key == "Home") ≡ false
    → (e.key == "End") ≡ false
    → (e.key == "PageUp") ≡ false
    → (e.key == "PageDown") ≡ false
    → IsNoneOf e named_keys
unnamed_by e f m n x up down =
    let (small_f, large_f) = neither_of _ _ _ _ f in
    let (small_m, large_m) = neither_of _ _ _ _ m in
    let pages : IsNoneOf e ("PageUp" ∷ "PageDown" ∷ []) =
      (ne_of_beq _ _ up, (ne_of_beq _ _ down, tt)) in
    let ends : IsNoneOf e ("Home" ∷ "End" ∷ "PageUp" ∷ "PageDown" ∷ []) =
      (ne_of_beq _ _ n, (ne_of_beq _ _ x, pages)) in
    (small_f, (large_f, (small_m, (large_m, ends))))

key_of-IsKey : (e : KeyboardEvent) → IsKey e (key_of e)
key_of-IsKey e = elim (Bool-cases (e.key == "f" || e.key == "F")) [
  | inl h ↦ rw h (either_of _ _ _ _ h)
  | inr f ↦ elim (Bool-cases (e.key == "m" || e.key == "M")) [
    | inl h ↦ rw (f, h) (either_of _ _ _ _ h)
    | inr m ↦ elim (Bool-cases (e.key == "Home")) [
      | inl h ↦ rw (f, m, h) (eq_of_beq _ _ h)
      | inr n ↦ elim (Bool-cases (e.key == "End")) [
        | inl h ↦ rw (f, m, n, h) (eq_of_beq _ _ h)
        | inr x ↦ elim (Bool-cases (e.key == "PageUp")) [
          | inl h ↦ rw (f, m, n, x, h) (eq_of_beq _ _ h)
          | inr u ↦ elim (Bool-cases (e.key == "PageDown")) [
            | inl h ↦ rw (f, m, n, x, u, h) (eq_of_beq _ _ h)
            | inr d ↦ rw (f, m, n, x, u, d) (late_key-IsKey e (unnamed_by e f m n x u d))
          ]
        ]
      ]
    ]
  ]
]

call-Calls : (o : Options) (a : Action) → Calls o a (call o a)
call-Calls o a = elim (Bool-cases (o.given a)) [
  | inl e ↦ inl (e, if_true _ _ e)
  | inr e ↦ inr (e, if_false _ _ e)
]

call-Chooses :
    (o : Options) (c : Bool) (a b : Action)
    → Chooses o (c ≡ true) (c ≡ false) a b (if c then call o a else call o b)
call-Chooses o true a b = inl (refl, call-Calls o a)
call-Chooses o false a b = inr (refl, call-Calls o b)

mode-Chooses :
    (o : Options) (a b : Action)
    → Chooses o
        (o.reading_mode ≡ "rtl")
        (o.reading_mode ≢ "rtl")
        a
        b
        (if is_rtl o then call o a else call o b)
mode-Chooses o a b = elim (call-Chooses o (is_rtl o) a b) [
  | inl (e, calls) ↦ inl (eq_of_beq _ _ e, calls)
  | inr (e, calls) ↦ inr (ne_of_beq _ _ e, calls)
]

full_screen-SwitchesScreen : (o : Options) → SwitchesScreen o (full_screen o)
full_screen-SwitchesScreen o = elim (Bool-cases (o.given toggle_fullscreen)) [
  | inl e ↦ inl (e, if_true _ _ e)
  | inr e ↦ inr (
    e,
    elim (Bool-cases o.has_document) [
      | inr d ↦ inl (d, if_false _ _ e ∙ if_true _ _ (ap not d))
      | inl d ↦ inr (
        d,
        elim (Bool-cases o.full) [
          | inl f ↦ inl (f, if_false _ _ e ∙ if_false _ _ (ap not d) ∙ if_true _ _ f)
          | inr f ↦ inr (f, if_false _ _ e ∙ if_false _ _ (ap not d) ∙ if_false _ _ f)
        ],
      )
    ],
  )
]

press-Answers :
    (o : Options) (shift : Bool) (k : Key)
    → ((k ≡ other) × (press o shift k ≡ [])) ⊎ Answers o shift k (press o shift k)
press-Answers o shift fullscreen = inr (full_screen o, refl, full_screen-SwitchesScreen o)
press-Answers o shift menu = inr (call o toggle_overlays, refl, call-Calls o toggle_overlays)
press-Answers o shift home = inr (call o first_page, refl, call-Calls o first_page)
press-Answers o shift end = inr (call o last_page, refl, call-Calls o last_page)
press-Answers o shift page_up = inr (call o prev_page, refl, call-Calls o prev_page)
press-Answers o shift page_down = inr (call o next_page, refl, call-Calls o next_page)
press-Answers o shift space = inr (_, refl, call-Chooses o shift prev_page next_page)
press-Answers o shift arrow_left = inr (_, refl, mode-Chooses o next_page prev_page)
press-Answers o shift arrow_right = inr (_, refl, mode-Chooses o prev_page next_page)
press-Answers o shift other = inl (refl, refl)

-- A key press does nothing exactly where it is blocked, since the shortcuts are off, the target is an
-- input, a text area, editable or inside a dialog, or a modifier is held, or where its key is none of
-- the shortcuts. Any other press prevents the default and then does what its key stands for: f and F
-- switch the full screen, m and M the overlays, Home and End go to the first and the last page, PageUp
-- and the space bar with shift to the previous one, PageDown and the space bar to the next one, and the
-- left arrow to the next page in right-to-left mode and to the previous one in any other, the right
-- arrow the other way round. A callback that is not given is not called.
pub handle_key_down-Reacts :
    (o : Options) (e : KeyboardEvent)
    → ((handle_key_down o e ≡ []) × (IsBlocked o e ⊎ IsKey e other))
      ⊎ ((¬ IsBlocked o e)
          × ((k : Key) × IsKey e k × Answers o e.shift_key k (handle_key_down o e)))
unfolding handle_key_down
handle_key_down-Reacts o e = elim (Bool-cases (is_blocked o e)) [
  | inl h ↦ inl (if_true _ _ h, inl (is_blocked-IsBlocked o e h))
  | inr h ↦ elim (press-Answers o e.shift_key (key_of e)) [
    | inl (unbound, quiet) ↦
        inl (if_false _ _ h ∙ quiet, inr (subst (IsKey e) unbound (key_of-IsKey e)))
    | inr (rest, same, does) ↦
        inr (is_blocked-not o e h, (key_of e, key_of-IsKey e, (rest, if_false _ _ h ∙ same, does)))
  ]
]
