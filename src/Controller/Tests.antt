-- ===== src/Controller/Tests.antt =====
-- A controller at work, and the theorems at it.
use analisis_de_protocolo_de.Prelude.{◌+◌, ◌++◌, ◌≡◌, refl, true, false, List, [], ◌∷◌, arith, All}
use analisis_de_protocolo_de.Prelude.Text.{codes}
use analisis_de_protocolo_de.Prelude.Number.{int, parse_int, plus_one}
use analisis_de_protocolo_de.Prelude.Int.{pos, negsuc}
use analisis_de_protocolo_de.Parser.{create_slide}
use analisis_de_protocolo_de.Slide.{Slide}
use analisis_de_protocolo_de.Slideshow.{Building, SlideOptions, create_slides}
use analisis_de_protocolo_de.Slideshow.Numbers.{numbered, create_slides-IsNumbered}
use analisis_de_protocolo_de.Navigation.{
  next, previous, last, open_clone, Navigation, run, perform, Command, start_navigation, all_digits,
}
use analisis_de_protocolo_de.Navigation.Messages.{IsNoPost}
use analisis_de_protocolo_de.Controller.Location.{
  update_hash, navigate_by_hash, navigate_by_message, message_text, received,
}
use analisis_de_protocolo_de.Controller.Sync.{
  navigate_by_hash-update_hash, navigate_by_message-message_text,
}
use analisis_de_protocolo_de.Controller.{
  InputOptions, new_controller, pause, pause_and_resume, handle, dispatch, keypress, keydown, click,
  dom_mouse_scroll,
}
use analisis_de_protocolo_de.Controller.Listeners.{same_name}
use analisis_de_protocolo_de.Controller.Listed.{listed}
use analisis_de_protocolo_de.Controller.Keyboard.{
  Modifiers, goto_next_slide, goto_previous_slide, prevent_default,
}
use analisis_de_protocolo_de.Controller.Mouse.{scroll_handler}
use analisis_de_protocolo_de.Controller.Bus.{commands_for}
use analisis_de_protocolo_de.Controller.Clone.{Shows, Place, at_main, at_clone, perform_all}
use analisis_de_protocolo_de.Controller.Agree.{IsPaired, perform_all-IsPaired}
use analisis_de_protocolo_de.Controller.Touch.{
  TouchInput, touch_name, less, distance, no_touch, on_touches, gesture,
}
use analisis_de_protocolo_de.Controller.Gestures.{swipes-back, taps-back}
use analisis_de_protocolo_de.Controller.Typing.{handle_all, typed}
use analisis_de_protocolo_de.Controller.Numbers.{typed-first}
use analisis_de_protocolo_de.Controller.Pausing.{
  copies, handle-pause, dispatch-pause_and_resume, dispatch-scroll,
}

abbrev inputs : InputOptions
inputs = record { click = true; scroll = true; touch = true }

abbrev shifted : Modifiers
shifted = record { meta = false; ctrl = false; alt = false; shift = true }

test_space :
    (handle listed (λ s. s) (keydown shifted 32) (new_controller listed false inputs)).1
    ≡ goto_previous_slide ∷ []
unfolding handle new_controller listed same_name
test_space = refl

test_letter :
    (handle listed (λ s. s) (keypress shifted b'j') (new_controller listed false inputs)).1
    ≡ goto_next_slide ∷ prevent_default ∷ []
unfolding handle new_controller listed same_name
test_letter = refl

test_scroll_while_paused :
    (handle listed
      (λ s. s)
      (dom_mouse_scroll (pos 0) (pos 3))
      (pause listed (new_controller listed false inputs))).1
    ≡ goto_next_slide ∷ []
unfolding handle pause new_controller listed same_name
test_scroll_while_paused = refl

handle-pause_example :
    (handle listed (λ s. s) (click false 0) (pause listed (new_controller listed false inputs))
      ≡ (pause listed (new_controller listed false inputs), []))
    × ((t : TouchInput)
        → listed.listener_count
            (touch_name t)
            (pause listed (new_controller listed false inputs)).listeners
          ≡ 0)
unfolding same_name
handle-pause_example =
    handle-pause listed (λ s. s) (click false 0) (new_controller listed false inputs) refl

dispatch-pause_and_resume_example :
    (dispatch listed
        (λ s. s)
        (click false 0)
        (pause_and_resume listed inputs 3 (new_controller listed false inputs)).listeners
        []
      ≡ dispatch listed (λ s. s) (click false 0) (new_controller listed false inputs).listeners [])
    × ((t : TouchInput)
        → listed.listener_count
            (touch_name t)
            (pause_and_resume listed inputs 3 (new_controller listed false inputs)).listeners
          ≡ listed.listener_count (touch_name t) (new_controller listed false inputs).listeners)
unfolding same_name
dispatch-pause_and_resume_example =
    dispatch-pause_and_resume listed (λ s. s) false inputs 3 (click false 0) [] refl

dispatch-scroll_example :
    dispatch listed
      (λ s. s)
      (dom_mouse_scroll (pos 0) (negsuc 2))
      (pause_and_resume listed inputs 2 (new_controller listed false inputs)).listeners
      []
    ≡ ([], copies (2 + 1) (scroll_handler (pos 0) (negsuc 2)))
dispatch-scroll_example = dispatch-scroll listed (λ s. s) false inputs 2 (pos 0) (negsuc 2) [] refl

abbrev options : SlideOptions
options = record {
  skip_incremental_count = false;
  excluded_classes = [];
  drop_presenter_notes = false;
}

abbrev slides : Building
slides = create_slides options (create_slide (codes "false") ∷ create_slide (codes "false") ∷ [])

typed-first_example :
    (v : Slide) × (r : List Slide) × (numbered 2 slides.slides ≡ v ∷ r)
    × ((run slides
          (commands_for
            (handle_all listed
              (λ s. s)
              (typed (b'0' ∷ (b'2' ∷ [])))
              (pause_and_resume listed inputs 1 (new_controller listed false inputs))).1)
          (start_navigation false)).0.current_slide_index
        ≡ int (pos v.index))
unfolding parse_int create_slides all_digits
typed-first_example =
    typed-first listed (λ s. s) false inputs 1 slides 2 b'0' (b'2' ∷ []) (start_navigation false)
      (λ c h. refl) refl refl
      (create_slides-IsNumbered options
        (create_slide (codes "false") ∷ create_slide (codes "false") ∷ []))
      (omega arith) (omega arith)

navigate_by_hash-update_hash_example :
    (perform slides
      (navigate_by_hash (update_hash true (int (pos (1 + 1)))))
      (start_navigation false)).0.current_slide_index
    ≡ int (pos 1)
unfolding create_slides
navigate_by_hash-update_hash_example =
    navigate_by_hash-update_hash slides true 1 (start_navigation false) (omega arith)

navigate_by_message-message_text_example :
    (c : Command) × (navigate_by_message (message_text (plus_one (int (pos 1)))) ≡ received c)
    × ((perform slides c (start_navigation true)).0.current_slide_index ≡ int (pos 1))
    × All IsNoPost (perform slides c (start_navigation true)).1
unfolding create_slides
navigate_by_message-message_text_example =
    navigate_by_message-message_text slides 1 (start_navigation true) (omega arith)

abbrev on_first : Navigation
on_first = record (start_navigation false) { current_slide_index = int (pos 0) }

-- A touch is counted in halves of a pixel, in a container of 100 pixels.
swipes-back_example :
    (run slides
      (commands_for
        (on_touches 2 100 (gesture (pos 60) (negsuc 3) ++ gesture (negsuc 3) (pos 60)) no_touch).1)
      on_first).0.current_slide_index
    ≡ int (pos 0)
unfolding create_slides less distance
swipes-back_example =
    swipes-back 2 100 (pos 60) (negsuc 3) no_touch slides 0 on_first refl (omega arith) refl
      (omega arith)

taps-back_example :
    (run slides
      (commands_for
        (on_touches 2 100 (gesture (pos 110) (pos 120) ++ gesture (pos 20) (pos 20)) no_touch).1)
      on_first).0.current_slide_index
    ≡ int (pos 0)
unfolding create_slides distance
taps-back_example =
    taps-back 2 100 120 20 (pos 110) (pos 20) no_touch slides 0 on_first (omega arith) (omega arith)
      (omega arith) (omega arith) refl (omega arith)

-- A show and its clone, on the first slide.
abbrev pair : Shows
pair = record {
  main = record on_first { clone = open_clone };
  clone = record on_first { opener = true };
}

abbrev moves : List (Place × Command)
moves = (at_main, next) ∷ ((at_clone, previous) ∷ ((at_clone, last) ∷ []))

perform_all-IsPaired_example :
    IsPaired slides (perform_all slides moves pair).0
    × All IsNoPost (perform_all slides moves pair).1
unfolding create_slides
perform_all-IsPaired_example =
    perform_all-IsPaired slides moves pair (tt, (tt, (tt, tt)))
      (record {
        has_clone = refl;
        no_opener = refl;
        no_clones = refl;
        has_opener = refl;
        same_slide = refl;
        on_slide = omega arith;
      })
