-- ===== src/Session/Events.antt =====
-- What a show gets from its page, and the events of the page.
use analisis_de_protocolo_de.Prelude.{
  ℕ, zero, suc, Bool, true, false, not, List, [], ◌∷◌, ◌++◌, if◌then◌else◌,
}
use analisis_de_protocolo_de.Prelude.Text.{Text}
use analisis_de_protocolo_de.Parser.{ParserOptions}
use analisis_de_protocolo_de.Macros.{Inherited}
use analisis_de_protocolo_de.Slide.{Slide}
use analisis_de_protocolo_de.SlideView.Code.{Block, CodeOptions}
use analisis_de_protocolo_de.Slideshow.{SlideOptions}
use analisis_de_protocolo_de.View.{
  ViewEvent, toggle_presenter_mode_event, toggle_help_event, toggle_blackout_event,
  toggle_mirrored_event, hide_overlay_event,
}
use analisis_de_protocolo_de.Controller.Listeners.{
  EventName, keydown_event, keypress_event, click_event, contextmenu_event, mousewheel_event,
  dom_mouse_scroll_event, touchstart_event, touchend_event, touchmove_event, message_event,
  hashchange_event, slide_changed_event, toggled_presenter_event, pause_event, resume_event,
}
use analisis_de_protocolo_de.Controller.{Input, InputOptions}
use analisis_de_protocolo_de.Controller.Keyboard.{Emitted}
use analisis_de_protocolo_de.Controller.Touch.{TouchInput, Touch, no_touch, on_touch}
use analisis_de_protocolo_de.Controller.Calls.{Call}

-- What a show gets from its page and its options: `toLowerCase`, what every object inherits, the options,
-- whether its container is not the body, whether there are `window.opener` and `window.matchMedia`, the class of
-- the container, its width, the parts that a pixel is counted in, and the `innerHTML` of a slide's notes; and
-- for its code the blocks that the HTML of a slide and of its notes has, the highlighter, and what the
-- browser reads from the `innerHTML` of a block.
pub record Page : Type 0 where
  pub low : Text → Text
  pub inherited : Inherited
  pub parser_options : ParserOptions
  pub slide_options : SlideOptions
  pub inputs : InputOptions
  pub is_embedded : Bool
  pub has_opener : Bool
  pub has_match_media : Bool
  pub container_class : Text
  pub client_width : ℕ
  pub unit : ℕ
  pub notes_html : Slide → Text
  pub code_options : CodeOptions
  pub code_blocks : Slide → List Block
  pub engine : Text → Text → Text → Text × Text
  pub children_of : Text → List Text
  pub lines_of : Text → List Text

-- The events that are forwarded to the show: those of the window, and those of its container.
unfoldable pub is_forwarded : Bool → EventName → Bool
is_forwarded is_embedded keydown_event = true
is_forwarded is_embedded keypress_event = true
is_forwarded is_embedded mousewheel_event = true
is_forwarded is_embedded touchstart_event = true
is_forwarded is_embedded touchmove_event = true
is_forwarded is_embedded touchend_event = true
is_forwarded is_embedded click_event = not is_embedded
is_forwarded is_embedded contextmenu_event = not is_embedded
is_forwarded is_embedded hashchange_event = not is_embedded
is_forwarded is_embedded message_event = not is_embedded
is_forwarded is_embedded dom_mouse_scroll_event = not is_embedded
is_forwarded is_embedded slide_changed_event = false
is_forwarded is_embedded toggled_presenter_event = false
is_forwarded is_embedded pause_event = false
is_forwarded is_embedded resume_event = false

-- What the slide show view listens to, of what the inputs emit.
unfoldable pub view_listens : Emitted → List ViewEvent
view_listens Emitted.hide_overlay = hide_overlay_event ∷ []
view_listens Emitted.toggle_blackout = toggle_blackout_event ∷ []
view_listens Emitted.toggle_mirrored = toggle_mirrored_event ∷ []
view_listens Emitted.toggle_presenter_mode = toggle_presenter_mode_event ∷ []
view_listens Emitted.toggle_help = toggle_help_event ∷ []
view_listens Emitted.goto_previous_slide = []
view_listens Emitted.goto_next_slide = []
view_listens Emitted.goto_first_slide = []
view_listens Emitted.goto_last_slide = []
view_listens (Emitted.goto_numbered t) = []
view_listens Emitted.create_clone = []
view_listens Emitted.toggle_fullscreen = []
view_listens Emitted.toggle_timer = []
view_listens Emitted.reset_timer = []
view_listens Emitted.prevent_default = []

pub data PageEvent : Type 0 where
  input : Input → PageEvent
  touch : TouchInput → PageEvent
  message : Text → PageEvent
  hash_change : Text → PageEvent
  -- the calls of the show's functions, `pause` and `resume` apart
  call : Call → PageEvent
  pause_call resume_call : PageEvent
  -- the timeout of a slide that was hidden
  timeout : ℕ → PageEvent

-- What the listeners of a touch do, as many as are registered for its event: those of the newest
-- registrations, the older ones first, each with the variables of its registration.
unfoldable pub on_each_touch : ℕ → ℕ → TouchInput → ℕ → List Touch → List Touch × List Emitted
unfolding on_touch
on_each_touch unit client_width t zero xs = (xs, [])
on_each_touch unit client_width t (suc n) [] = ([], [])
on_each_touch unit client_width t (suc n) (x ∷ xs) =
    let (xs', earlier) = on_each_touch unit client_width t n xs in
    let (x', emitted) = on_touch unit client_width t x in (x' ∷ xs', earlier ++ emitted)

-- The variables of a registration.
abbrev pub new_touches : InputOptions → List Touch
new_touches options = if options.touch then no_touch ∷ [] else []
