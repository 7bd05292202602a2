-- ===== src/Controller/Clone.antt =====
-- A show and its clone in another window: the moves of each, and the messages that they post to each other
-- (`postMessage` in `models/slideshow/navigation.js`, received in `controllers/inputs/message.js`).
use analisis_de_protocolo_de.Prelude.{Option, none, some, List, [], ◌∷◌, ◌++◌}
use analisis_de_protocolo_de.Prelude.Text.{Text}
use analisis_de_protocolo_de.Prelude.Number.{Number}
use analisis_de_protocolo_de.Slideshow.{Building}
use analisis_de_protocolo_de.Navigation.{
  Navigation, Event, hide_slide, show_slide, start, slide_changed, force_presenter_mode,
  open_window, focus_clone, post_to_clone, post_to_opener, Command, perform,
}
use analisis_de_protocolo_de.Controller.Location.{
  received, received_toggle_blackout, nothing, message_text, navigate_by_message,
}

-- The slide number that an event posts to the clone, and to the opener.
abbrev pub number_to_clone : Event → Option Number
number_to_clone (post_to_clone n) = some n
number_to_clone (post_to_opener n) = none
number_to_clone (hide_slide i) = none
number_to_clone (show_slide i) = none
number_to_clone start = none
number_to_clone (slide_changed i) = none
number_to_clone force_presenter_mode = none
number_to_clone open_window = none
number_to_clone focus_clone = none

abbrev pub number_to_opener : Event → Option Number
number_to_opener (post_to_opener n) = some n
number_to_opener (post_to_clone n) = none
number_to_opener (hide_slide i) = none
number_to_opener (show_slide i) = none
number_to_opener start = none
number_to_opener (slide_changed i) = none
number_to_opener force_presenter_mode = none
number_to_opener open_window = none
number_to_opener focus_clone = none

-- A message arrives; a blackout does not move the show.
unfoldable pub receive_move : Building → Text → Navigation → Navigation × List Event
unfolding navigate_by_message
receive_move slides message nav = elim (navigate_by_message message) [
  | received c ↦ perform slides c nav
  | received_toggle_blackout ↦ (nav, [])
  | nothing ↦ (nav, [])
]

-- The messages among the events arrive in the window, one after the other.
unfoldable pub tell :
    (Event → Option Number) → Building → List Event → Navigation → Navigation × List Event
unfolding receive_move message_text
tell number_to slides [] nav = (nav, [])
tell number_to slides (e ∷ es) nav = elim (number_to e) [
  | none ↦ tell number_to slides es nav
  | some n ↦
      let (nav', emitted) = receive_move slides (message_text n) nav in
      let (nav'', further) = tell number_to slides es nav' in (nav'', emitted ++ further)
]

pub record Shows : Type 0 where
  pub main : Navigation
  pub clone : Navigation

pub data Place : Type 0 where
  at_main at_clone : Place

-- A command in one of the windows, and then the arrival of its messages in the other, with what that
-- emits. A browser delivers a message some time after it was posted; here it arrives before the next
-- command, and windows whose messages cross are not modelled.
unfoldable pub perform_at : Building → Place → Command → Shows → Shows × List Event
unfolding perform tell
perform_at slides at_main c s =
    let (main, events) = perform slides c s.main in
    let (clone, replies) = tell number_to_clone slides events s.clone in
    (record { main = main; clone = clone }, replies)
perform_at slides at_clone c s =
    let (clone, events) = perform slides c s.clone in
    let (main, replies) = tell number_to_opener slides events s.main in
    (record { main = main; clone = clone }, replies)

unfoldable pub perform_all : Building → List (Place × Command) → Shows → Shows × List Event
unfolding perform_at
perform_all slides [] s = (s, [])
perform_all slides ((place, c) ∷ cs) s =
    let (s', replies) = perform_at slides place c s in
    let (s'', further) = perform_all slides cs s' in (s'', replies ++ further)
