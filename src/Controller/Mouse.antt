-- ===== src/Controller/Mouse.antt =====
-- The mouse (module 11 of the bundle, `controllers/inputs/mouse.js`): what its listeners emit.
use analisis_de_protocolo_de.Prelude.{
  ℕ, zero, suc, Bool, true, false, ◌||◌, List, [], ◌∷◌, ◌==◌, if◌then◌else◌,
}
use analisis_de_protocolo_de.Prelude.Int.{ℤ, pos, negsuc}
use analisis_de_protocolo_de.Controller.Keyboard.{
  Emitted, goto_previous_slide, goto_next_slide, prevent_default,
}

-- The listener of `click`: whether the target is a link, and the button.
unfoldable pub on_click : Bool → ℕ → List Emitted
on_click is_link button = if is_link then [] else if button == 0 then goto_next_slide ∷ [] else []

-- The listener of `contextmenu`
unfoldable pub on_contextmenu : Bool → List Emitted
on_contextmenu is_link = if is_link then [] else prevent_default ∷ (goto_previous_slide ∷ [])

abbrev is_negative : ℤ → Bool
is_negative (pos n) = false
is_negative (negsuc n) = true

abbrev is_positive : ℤ → Bool
is_positive (pos zero) = false
is_positive (pos (suc n)) = true
is_positive (negsuc n) = false

-- scrollHandler, of `wheelDeltaY` and `detail`; one that is undefined is no more and no less than 0
unfoldable pub scroll_handler : ℤ → ℤ → List Emitted
scroll_handler wheel_delta_y detail =
    if is_positive wheel_delta_y || is_negative detail
    then goto_previous_slide ∷ []
    else if is_negative wheel_delta_y || is_positive detail
    then goto_next_slide ∷ []
    else []
