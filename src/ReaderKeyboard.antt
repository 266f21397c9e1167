-- ===== src/ReaderKeyboard.antt =====
-- web/src/hooks/useReaderKeyboard.ts: what a key does in the reader. A press gives the calls that it
-- makes, in their order.
pub mod Promises
pub mod Dispatch
pub mod Mirror
mod Tests
use kiyomi.Base.{
  Bool, true, false, not, ◌&&◌, ◌||◌, String, Option, none, some, List, [], ◌∷◌, ◌==◌, String_eq,
  if◌then◌else◌,
}

-- `within_dialog` is whether `target.closest('[role="dialog"]')` finds an element.
pub record Target : Type 0 where
  pub tag_name : String
  pub is_content_editable : Bool
  pub within_dialog : Bool

pub record KeyboardEvent : Type 0 where
  pub target : Option Target
  pub key : String
  pub code : String
  pub ctrl_key : Bool
  pub meta_key : Bool
  pub alt_key : Bool
  pub shift_key : Bool

pub data Action : Type 0 where
  prevent_default next_page prev_page first_page last_page toggle_overlays : Action
  toggle_fullscreen request_fullscreen exit_fullscreen : Action

-- `given` says which callbacks are given; `full` and `has_document` are what the document says.
pub record Options : Type 0 where
  pub reading_mode : String
  pub enabled : Bool
  pub given : Action → Bool
  pub has_document : Bool
  pub full : Bool

-- `callback?.()`
abbrev pub call : Options → Action → List Action
call o a = if o.given a then a ∷ [] else []

abbrev pub types_text : Option Target → Bool
types_text none = false
types_text (some t) =
    t.tag_name == "INPUT" || t.tag_name == "TEXTAREA" || t.is_content_editable || t.within_dialog

abbrev pub full_screen : Options → List Action
full_screen o =
    if o.given toggle_fullscreen
    then toggle_fullscreen ∷ []
    else if not o.has_document
    then []
    else if o.full
    then exit_fullscreen ∷ []
    else request_fullscreen ∷ []

-- The keys by what they are called.
pub data Key : Type 0 where
  fullscreen menu home end page_up page_down space arrow_left arrow_right other : Key

abbrev pub key_of : KeyboardEvent → Key
key_of e =
    if e.key == "f" || e.key == "F"
    then fullscreen
    else if e.key == "m" || e.key == "M"
    then menu
    else if e.key == "Home"
    then home
    else if e.key == "End"
    then end
    else if e.key == "PageUp"
    then page_up
    else if e.key == "PageDown"
    then page_down
    else if e.key == " " || e.code == "Space"
    then space
    else if e.key == "ArrowLeft"
    then arrow_left
    else if e.key == "ArrowRight"
    then arrow_right
    else other

abbrev pub is_rtl : Options → Bool
is_rtl o = o.reading_mode == "rtl"

abbrev pub press : Options → Bool → Key → List Action
press o shift fullscreen = prevent_default ∷ full_screen o
press o shift menu = prevent_default ∷ call o toggle_overlays
press o shift home = prevent_default ∷ call o first_page
press o shift end = prevent_default ∷ call o last_page
press o shift page_up = prevent_default ∷ call o prev_page
press o shift page_down = prevent_default ∷ call o next_page
press o shift space = prevent_default ∷ (if shift then call o prev_page else call o next_page)
press o shift arrow_left =
    prevent_default ∷ (if is_rtl o then call o next_page else call o prev_page)
press o shift arrow_right =
    prevent_default ∷ (if is_rtl o then call o prev_page else call o next_page)
press o shift other = []

-- The listener, where the effect has installed it.
unfoldable pub handle_key_down : Options → KeyboardEvent → List Action
handle_key_down o e =
    if not o.enabled || types_text e.target || e.ctrl_key || e.meta_key || e.alt_key
    then []
    else press o e.shift_key (key_of e)
