-- ===== src/NotesView/Tests.antt =====
-- The notes of a show of two slides, and the theorem at them.
use analisis_de_protocolo_de.Prelude.{◌≡◌, refl, false, List, [], ◌∷◌}
use analisis_de_protocolo_de.Prelude.Text.{Text, codes}
use analisis_de_protocolo_de.Prelude.Result.{ok}
use analisis_de_protocolo_de.Parser.{create_slide}
use analisis_de_protocolo_de.Slideshow.{Building, SlideOptions, create_slides}
use analisis_de_protocolo_de.Navigation.{Command, next, previous, run, start_navigation}
use analisis_de_protocolo_de.NotesView.{Notes, on_events}
use analisis_de_protocolo_de.NotesView.Follows.{IsShownFor, before, run-IsShownFor}

abbrev options : SlideOptions
options = record {
  skip_incremental_count = false;
  excluded_classes = [];
  drop_presenter_notes = false;
}

abbrev slides : Building
slides = create_slides options (create_slide (codes "false") ∷ create_slide (codes "false") ∷ [])

abbrev slide_notes : List Text
slide_notes = codes "hello" ∷ codes "bye" ∷ []

abbrev commands : List Command
commands = next ∷ next ∷ previous ∷ []

abbrev empty_notes : Notes
empty_notes = record { notes = []; preview = [] }

test_notes :
    (v' : Notes) × (on_events slide_notes
        (run slides commands (start_navigation false)).1
        empty_notes
      ≡ ok v')
    × IsShownFor slide_notes v' (run slides commands (start_navigation false)).0.current_slide_index
unfolding create_slides
test_notes =
    run-IsShownFor slide_notes slides commands (start_navigation false) empty_notes refl
      (tt, (tt, (tt, tt))) refl before
