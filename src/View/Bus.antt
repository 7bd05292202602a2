-- ===== src/View/Bus.antt =====
-- The events of navigation that the view listens to.
use analisis_de_protocolo_de.Prelude.{List, [], ◌∷◌, ◌++◌}
use analisis_de_protocolo_de.Navigation.{Event}
use analisis_de_protocolo_de.View.{
  ViewEvent, hide_slide_event, show_slide_event, force_presenter_mode_event,
}

unfoldable pub view_event : Event → List ViewEvent
view_event (Event.hide_slide i) = hide_slide_event i ∷ []
view_event (Event.show_slide i) = show_slide_event i ∷ []
view_event Event.force_presenter_mode = force_presenter_mode_event ∷ []
view_event Event.start = []
view_event (Event.slide_changed i) = []
view_event (Event.post_to_clone i) = []
view_event (Event.post_to_opener i) = []
view_event Event.open_window = []
view_event Event.focus_clone = []

unfoldable pub view_events : List Event → List ViewEvent
unfolding view_event
view_events [] = []
view_events (e ∷ es) = view_event e ++ view_events es
