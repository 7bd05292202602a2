-- ===== src/NotesView.antt =====
-- The notes of the presenter's view (module 26 of the bundle, `views/notesView.js`): the notes of the slide
-- that is shown, and of the next. The `innerHTML` of the notes element of each slide view is given.
pub mod Follows
pub mod Tests
use analisis_de_protocolo_de.Prelude.{ℕ, suc, Option, none, some, List, [], ◌∷◌, get_elem?}
use analisis_de_protocolo_de.Prelude.Text.{Text}
use analisis_de_protocolo_de.Prelude.Int.{pos, negsuc}
use analisis_de_protocolo_de.Prelude.Number.{Number, nan, int}
use analisis_de_protocolo_de.Prelude.Result.{Result, ok, err, type_error, ◌>>=◌}
use analisis_de_protocolo_de.Navigation.{Event}

pub record Notes : Type 0 where
  pub notes : Text
  pub preview : Text

-- the notes of the next slide view, or nothing
unfoldable pub next_notes : ℕ → List Text → Text
next_notes n slide_notes = elim (get_elem? slide_notes (suc n)) [ none ↦ [] | some t ↦ t ]

-- NotesView.prototype.showSlide; without a slide view of the index it throws.
unfoldable pub show_notes : List Text → Number → Result Notes
unfolding next_notes
show_notes slide_notes nan = err type_error
show_notes slide_notes (int (negsuc n)) = err type_error
show_notes slide_notes (int (pos n)) = elim (get_elem? slide_notes n) [
  | none ↦ err type_error
  | some t ↦ ok (record { notes = t; preview = next_notes n slide_notes })
]

-- The events of navigation, of which the notes listen to `showSlide`.
unfoldable pub on_event : List Text → Event → Notes → Result Notes
unfolding show_notes
on_event slide_notes (Event.show_slide i) v = show_notes slide_notes i
on_event slide_notes (Event.hide_slide i) v = ok v
on_event slide_notes Event.force_presenter_mode v = ok v
on_event slide_notes Event.start v = ok v
on_event slide_notes (Event.slide_changed i) v = ok v
on_event slide_notes (Event.post_to_clone i) v = ok v
on_event slide_notes (Event.post_to_opener i) v = ok v
on_event slide_notes Event.open_window v = ok v
on_event slide_notes Event.focus_clone v = ok v

unfoldable pub on_events : List Text → List Event → Notes → Result Notes
unfolding on_event
on_events slide_notes [] v = ok v
on_events slide_notes (e ∷ es) v = on_event slide_notes e v >>= on_events slide_notes es
