-- ===== src/Controller/Calls.antt =====
-- The functions of a show that its users call, of `models/slideshow.js`, which emit an event as an input does.
use analisis_de_protocolo_de.Controller.Keyboard.{Emitted}

pub data Call : Type 0 where
  toggle_presenter_mode toggle_help toggle_blackout toggle_mirrored toggle_fullscreen : Call
  create_clone reset_timer : Call

unfoldable pub emitted_by : Call → Emitted
emitted_by toggle_presenter_mode = Emitted.toggle_presenter_mode
emitted_by toggle_help = Emitted.toggle_help
emitted_by toggle_blackout = Emitted.toggle_blackout
emitted_by toggle_mirrored = Emitted.toggle_mirrored
emitted_by toggle_fullscreen = Emitted.toggle_fullscreen
emitted_by create_clone = Emitted.create_clone
emitted_by reset_timer = Emitted.reset_timer
