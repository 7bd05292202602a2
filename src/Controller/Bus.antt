-- ===== src/Controller/Bus.antt =====
-- The events of the inputs that navigation listens to (`events.on` in
-- `models/slideshow/navigation.js`).
use analisis_de_protocolo_de.Prelude.{false, List, [], ◌∷◌, ◌++◌}
use analisis_de_protocolo_de.Navigation.{
  Command, goto_number, previous, next, first, last, create_clone, reset_timer,
}
use analisis_de_protocolo_de.Controller.Keyboard.{
  Emitted, goto_previous_slide, goto_next_slide, goto_first_slide, goto_last_slide, goto_numbered,
}

unfoldable pub command_for : Emitted → List Command
command_for goto_previous_slide = previous ∷ []
command_for goto_next_slide = next ∷ []
command_for goto_first_slide = first ∷ []
command_for goto_last_slide = last ∷ []
command_for (goto_numbered t) = goto_number t false ∷ []
command_for Emitted.create_clone = create_clone ∷ []
command_for Emitted.reset_timer = reset_timer ∷ []
command_for Emitted.hide_overlay = []
command_for Emitted.toggle_blackout = []
command_for Emitted.toggle_mirrored = []
command_for Emitted.toggle_presenter_mode = []
command_for Emitted.toggle_fullscreen = []
command_for Emitted.toggle_timer = []
command_for Emitted.toggle_help = []
command_for Emitted.prevent_default = []

unfoldable pub commands_for : List Emitted → List Command
unfolding command_for
commands_for [] = []
commands_for (e ∷ es) = command_for e ++ commands_for es
