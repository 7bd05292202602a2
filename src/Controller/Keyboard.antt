-- ===== src/Controller/Keyboard.antt =====
-- The keyboard (module 8 of the bundle, `controllers/inputs/keyboard.js`): what its two listeners
-- emit, and the digits that they keep (`_gotoSlideNumber`).
use analisis_de_protocolo_de.Prelude.{
  ℕ, Bool, false, ◌||◌, Option, none, some, List, [], ◌∷◌, ◌++◌, ◌==◌, ◌%◌, if◌then◌else◌, is_empty,
}
use analisis_de_protocolo_de.Prelude.Text.{Text, codes, text_eq, contains}
use analisis_de_protocolo_de.Prelude.Number.{is_digit}

-- What the listeners of the inputs do.
pub data Emitted : Type 0 where
  goto_previous_slide goto_next_slide goto_first_slide goto_last_slide : Emitted
  goto_numbered : Text → Emitted
  hide_overlay toggle_blackout toggle_mirrored create_clone toggle_presenter_mode : Emitted
  toggle_fullscreen toggle_timer reset_timer toggle_help : Emitted
  -- event.preventDefault()
  prevent_default : Emitted

pub record Modifiers : Type 0 where
  pub meta : Bool
  pub ctrl : Bool
  pub alt : Bool
  pub shift : Bool

-- The listener of `keydown`, with the event's `keyCode`.
unfoldable pub on_keydown : Modifiers → ℕ → Text → Text × List Emitted
unfolding contains
on_keydown m key_code digits =
    if m.meta || (m.ctrl || m.alt)
    then (digits, [])
    else if contains key_code (33 ∷ 37 ∷ 38 ∷ [])
    then (digits, goto_previous_slide ∷ [])
    else if key_code == 32
    then (digits, (if m.shift then goto_previous_slide else goto_next_slide) ∷ [])
    else if contains key_code (34 ∷ 39 ∷ 40 ∷ [])
    then (digits, goto_next_slide ∷ [])
    else if key_code == 36
    then (digits, goto_first_slide ∷ [])
    else if key_code == 35
    then (digits, goto_last_slide ∷ [])
    else if key_code == 27
    then (digits, hide_overlay ∷ [])
    else if key_code == 13
    then (if is_empty digits then (digits, []) else ([], goto_numbered digits ∷ []))
    else (digits, [])

-- The event of a key that is no digit.
unfoldable pub command_of : Text → Option Emitted
unfolding text_eq
command_of key =
    if text_eq key (codes "j")
    then some goto_next_slide
    else if text_eq key (codes "k")
    then some goto_previous_slide
    else if text_eq key (codes "b")
    then some toggle_blackout
    else if text_eq key (codes "m")
    then some toggle_mirrored
    else if text_eq key (codes "c")
    then some create_clone
    else if text_eq key (codes "p")
    then some toggle_presenter_mode
    else if text_eq key (codes "f")
    then some toggle_fullscreen
    else if text_eq key (codes "s")
    then some toggle_timer
    else if text_eq key (codes "t")
    then some reset_timer
    else if text_eq key (codes "h") || text_eq key (codes "?")
    then some toggle_help
    else none

abbrev pub is_digit_key : Text → Bool
is_digit_key [] = false
is_digit_key (c ∷ []) = is_digit c
is_digit_key (c ∷ (d ∷ s)) = false

-- The listener of `keypress`, with the event's `which`; events have `preventDefault`.
unfoldable pub on_keypress : (Text → Text) → Modifiers → ℕ → Text → Text × List Emitted
unfolding command_of
on_keypress to_lower_case m which digits =
    let key = to_lower_case ((which % 0x10000) ∷ []) in
    if m.meta || m.ctrl
    then (digits, [])
    else if is_digit_key key
    then (digits ++ key, prevent_default ∷ [])
    else elim (command_of key) [
      | none ↦ (digits, [])
      | some e ↦ (digits, e ∷ (prevent_default ∷ []))
    ]
