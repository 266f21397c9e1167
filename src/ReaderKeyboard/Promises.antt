-- ===== src/ReaderKeyboard/Promises.antt =====
-- What each key of useReaderKeyboard.ts stands for, and which presses are left alone.
use kiyomi.Base.{
  Bool, true, false, String, Option, none, some, List, [], ◌∷◌, ◌≡◌, ◌≢◌, ◌⊎◌, All, String_eq,
}
use kiyomi.ReaderKeyboard.{
  Target, KeyboardEvent, Action, toggle_fullscreen, request_fullscreen, exit_fullscreen,
  prevent_default, next_page, prev_page, Options, Key, fullscreen, menu, home, end, page_up,
  page_down, space, arrow_left, arrow_right, other, toggle_overlays, first_page, last_page,
}

-- The target of an event takes text, or is inside a dialog.
abbrev pub Types : Option Target → Type 0
Types none = ⊥
Types (some t) =
    (t.tag_name ≡ "INPUT")
    ⊎ ((t.tag_name ≡ "TEXTAREA") ⊎ ((t.is_content_editable ≡ true) ⊎ (t.within_dialog ≡ true)))

-- A press that is left alone, whatever its key: the shortcuts are off, or a modifier is held.
abbrev pub IsBlocked : Options → KeyboardEvent → Type 0
IsBlocked o e =
    (o.enabled ≡ false)
    ⊎ (Types e.target ⊎ ((e.ctrl_key ≡ true) ⊎ ((e.meta_key ≡ true) ⊎ (e.alt_key ≡ true))))

abbrev pub IsNoneOf : KeyboardEvent → List String → Type 0
IsNoneOf e = All (λ name. e.key ≢ name)

abbrev pub named_keys : List String
named_keys = "f" ∷ "F" ∷ "m" ∷ "M" ∷ "Home" ∷ "End" ∷ "PageUp" ∷ "PageDown" ∷ []

-- What the browser calls each key; the space bar also goes by its code.
abbrev pub IsKey : KeyboardEvent → Key → Type 0
IsKey e fullscreen = (e.key ≡ "f") ⊎ (e.key ≡ "F")
IsKey e menu = (e.key ≡ "m") ⊎ (e.key ≡ "M")
IsKey e home = e.key ≡ "Home"
IsKey e end = e.key ≡ "End"
IsKey e page_up = e.key ≡ "PageUp"
IsKey e page_down = e.key ≡ "PageDown"
IsKey e space = IsNoneOf e named_keys × ((e.key ≡ " ") ⊎ (e.code ≡ "Space"))
IsKey e arrow_left = (e.code ≢ "Space") × (e.key ≡ "ArrowLeft")
IsKey e arrow_right = (e.code ≢ "Space") × (e.key ≡ "ArrowRight")
IsKey e other =
    IsNoneOf e named_keys × (e.code ≢ "Space") × IsNoneOf e (" " ∷ "ArrowLeft" ∷ "ArrowRight" ∷ [])

-- A callback is called, or nothing happens where it is not given.
abbrev pub Calls : Options → Action → List Action → Type 0
Calls o a out = ((o.given a ≡ true) × (out ≡ a ∷ [])) ⊎ ((o.given a ≡ false) × (out ≡ []))

-- One or the other callback, by a condition.
abbrev pub Chooses : Options → Type 0 → Type 0 → Action → Action → List Action → Type 0
Chooses o first second a b out = (first × Calls o a out) ⊎ (second × Calls o b out)

-- Without the callback the document enters or leaves the full screen itself.
abbrev pub SwitchesScreen : Options → List Action → Type 0
SwitchesScreen o out =
    ((o.given toggle_fullscreen ≡ true) × (out ≡ toggle_fullscreen ∷ []))
    ⊎ ((o.given toggle_fullscreen ≡ false)
        × (((o.has_document ≡ false) × (out ≡ []))
            ⊎ ((o.has_document ≡ true)
                × (((o.full ≡ true) × (out ≡ exit_fullscreen ∷ []))
                    ⊎ ((o.full ≡ false) × (out ≡ request_fullscreen ∷ []))))))

-- What each key does.
abbrev pub Does : Options → Bool → Key → List Action → Type 0
Does o shift fullscreen out = SwitchesScreen o out
Does o shift menu out = Calls o toggle_overlays out
Does o shift home out = Calls o first_page out
Does o shift end out = Calls o last_page out
Does o shift page_up out = Calls o prev_page out
Does o shift page_down out = Calls o next_page out
Does o shift space out = Chooses o (shift ≡ true) (shift ≡ false) prev_page next_page out
Does o shift arrow_left out =
    Chooses o (o.reading_mode ≡ "rtl") (o.reading_mode ≢ "rtl") next_page prev_page out
Does o shift arrow_right out =
    Chooses o (o.reading_mode ≡ "rtl") (o.reading_mode ≢ "rtl") prev_page next_page out
Does o shift other out = ⊥

abbrev pub Answers : Options → Bool → Key → List Action → Type 0
Answers o shift k out = (rest : List Action) × (out ≡ prevent_default ∷ rest) × Does o shift k rest
