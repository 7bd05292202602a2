-- ===== src/Navigation/Tests.antt =====
-- Moves in a small show, and the theorems at them.
use analisis_de_protocolo_de.Prelude.{
  ◌≡◌, ◌≢◌, ap, refl, ◌≤◌, ◌<◌, false, List, [], ◌∷◌, ◌++◌, arith,
}
use analisis_de_protocolo_de.Prelude.Text.{codes, text_eq}
use analisis_de_protocolo_de.Prelude.Int.{pos}
use analisis_de_protocolo_de.Prelude.Number.{nan, int, parse_int}
use analisis_de_protocolo_de.Slide.{Slide}
use analisis_de_protocolo_de.Slideshow.{Building, create_slides, SlideOptions}
use analisis_de_protocolo_de.Slideshow.Numbers.{numbered, create_slides-IsNumbered}
use analisis_de_protocolo_de.Parser.{create_slide}
use analisis_de_protocolo_de.Navigation.{
  Navigation, Event, show_slide, start_navigation, Command, goto, goto_number, previous, next, last,
  create_clone, run, perform, slide_name, get_slide_count, goto_slide, goto_slide_number,
  slides_changed, moved, shown, no_clone,
}
use analisis_de_protocolo_de.Navigation.Range.{Keeps, IsOnSlide}
use analisis_de_protocolo_de.Navigation.Runs.{run-Keeps, goto_slide_nan, slides_changed_off}
use analisis_de_protocolo_de.Navigation.Moves.{previous-next, goto_slide_number-first}
use analisis_de_protocolo_de.Navigation.Starts.{starts, starts-run}

abbrev options : SlideOptions
options = record {
  skip_incremental_count = false;
  excluded_classes = [];
  drop_presenter_notes = false;
}

-- Three slides.
abbrev slides : Building
slides =
    create_slides options (
      create_slide (codes "false")
      ∷ create_slide (codes "false")
      ∷ create_slide (codes "true")
      ∷ [])

abbrev commands : List Command
commands =
    goto (slide_name (codes "p2")) false
    ∷ next
    ∷ next
    ∷ goto_number (codes "1") false
    ∷ create_clone
    ∷ last
    ∷ previous
    ∷ []

-- A location hash other than NaN.
not_nan : codes "p2" ≢ codes "NaN"
unfolding text_eq
not_nan e = cc (ap (λ t. text_eq t (codes "NaN")) e)

run-Keeps_example :
    Keeps
      (get_slide_count slides)
      (start_navigation false).current_slide_index
      (run slides commands (start_navigation false))
run-Keeps_example =
    run-Keeps slides commands (start_navigation false)
      (not_nan, (tt, (tt, (tt, (tt, (tt, (tt, tt))))))) refl

-- On the second slide.
abbrev on_second : Navigation
on_second = record {
  current_slide_index = int (pos 1);
  started = shown;
  clone = no_clone;
  opener = false;
}

previous-next_example :
    (perform slides previous (perform slides next on_second).0).0.current_slide_index ≡ int (pos 1)
unfolding create_slides
previous-next_example = previous-next slides 1 on_second refl (omega arith)

starts-run_example :
    (starts (run slides commands on_second).1 ≤ 1)
    × (on_second.started ≡ moved → starts (run slides commands on_second).1 ≡ 0)
starts-run_example =
    starts-run slides commands on_second (refl, (refl, (refl, (refl, (refl, (refl, (refl, tt)))))))

goto_slide_number-first_example :
    (s : Slide) × (r : List Slide) × (numbered 2 slides.slides ≡ s ∷ r)
    × (s.number ≡ 2)
    × (s.index < get_slide_count slides)
    × ((goto_slide_number slides (codes "2") false on_second).0.current_slide_index
        ≡ int (pos s.index))
unfolding parse_int create_slides
goto_slide_number-first_example =
    goto_slide_number-first slides 2 (codes "2") false on_second
      (create_slides-IsNumbered options (
        create_slide (codes "false")
        ∷ create_slide (codes "false")
        ∷ create_slide (codes "true")
        ∷ []))
      refl (omega arith) (omega arith)

test_goto_nan :
    ((goto_slide slides (slide_name (codes "NaN")) false on_second).0.current_slide_index ≡ nan)
    × (before : List Event) × (after : List Event) × ((goto_slide slides
          (slide_name (codes "NaN"))
          false
          on_second).1
        ≡ before ++ (show_slide nan ∷ after))
test_goto_nan = goto_slide_nan slides false on_second

-- The second slide was the last one, and is gone.
test_slides_changed : ¬ IsOnSlide 1 (slides_changed 1 on_second).current_slide_index
test_slides_changed = slides_changed_off 1 1 on_second refl (omega arith)
