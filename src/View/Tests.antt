-- ===== src/View/Tests.antt =====
-- The view of a small show, and the theorems at it.
use analisis_de_protocolo_de.Prelude.{ℕ, ◌≤◌, ◌≡◌, refl, true, false, none, List, [], ◌∷◌, arith}
use analisis_de_protocolo_de.Prelude.Text.{codes, text_eq}
use analisis_de_protocolo_de.Prelude.Int.{pos}
use analisis_de_protocolo_de.Prelude.Number.{int}
use analisis_de_protocolo_de.Prelude.Result.{ok, err, type_error}
use analisis_de_protocolo_de.ClassList.{has_class, get_classes}
use analisis_de_protocolo_de.ClassList.Laws.{occurs}
use analisis_de_protocolo_de.Parser.{create_slide}
use analisis_de_protocolo_de.Slideshow.{Building, SlideOptions, create_slides}
use analisis_de_protocolo_de.Navigation.{
  Navigation, Command, next, previous, last, run, get_slide_count, start_navigation, slides_changed,
  shown, no_clone,
}
use analisis_de_protocolo_de.Navigation.Range.{IsOnSlide}
use analisis_de_protocolo_de.Printing.{landscape, portrait, sized, page_width, page_height}
use analisis_de_protocolo_de.View.{
  View, new_views, on_view_events, update_slide_views, on_force_presenter_mode,
  on_toggle_presenter_mode, is_presenting, ViewEvent, toggle_help_event, force_presenter_mode_event,
  pause_event, resume_event, hide_overlay_event, toggle_blackout_event,
}
use analisis_de_protocolo_de.View.Windows.{
  Windows, IsConnected, in_main, in_clone, toggle_all, is_blacked_out, differ, toggle_all-differ,
}
use analisis_de_protocolo_de.Prelude.Dict.{get}
use analisis_de_protocolo_de.Controller.Location.{first_command}
use analisis_de_protocolo_de.View.Session.{first_command-IsShowing}
use analisis_de_protocolo_de.View.Bus.{view_events}
use analisis_de_protocolo_de.View.Visible.{
  new_views-IsShowing, run-IsShowing, update_slide_views-IsShowing,
}
use analisis_de_protocolo_de.View.Showing.{IsShowing}
use analisis_de_protocolo_de.View.Modes.{on_view_events-HasModes, force-toggle_orientation}
use analisis_de_protocolo_de.View.Switches.{
  Switches, HasModes, switch_events, presenter, help, blackout, mirrored, pause,
}

abbrev options : SlideOptions
options = record {
  skip_incremental_count = false;
  excluded_classes = [];
  drop_presenter_notes = false;
}

abbrev slides : Building
slides =
    create_slides options (
      create_slide (codes "false")
      ∷ create_slide (codes "false")
      ∷ create_slide (codes "true")
      ∷ [])

abbrev view : View
view = record {
  container = codes "remark-container";
  slide_views = new_views 3;
  preview = none;
  print = sized landscape page_width page_height;
}

abbrev commands : List Command
commands = next ∷ next ∷ last ∷ previous ∷ []

run-IsShowing_example :
    (v' : View) × (on_view_events
        (view_events (run slides commands (start_navigation false)).1)
        view
      ≡ ok v')
    × IsShowing
        (get_slide_count slides)
        (run slides commands (start_navigation false)).0.current_slide_index
        v'
unfolding create_slides
run-IsShowing_example =
    run-IsShowing slides commands (start_navigation false) view (tt, (tt, (tt, (tt, tt)))) refl
      (new_views-IsShowing 3 view)

abbrev on_third : Navigation
on_third = record {
  current_slide_index = int (pos 2);
  started = shown;
  clone = no_clone;
  opener = false;
}

update_slide_views-IsShowing_example :
    (IsOnSlide 2 on_third.current_slide_index
      → (v' : View) × (update_slide_views 2 (slides_changed 2 on_third).current_slide_index view
          ≡ ok v')
        × IsShowing 2 on_third.current_slide_index v')
    × ((n : ℕ)
        → on_third.current_slide_index ≡ int (pos n)
        → 2 ≤ n
        → update_slide_views 2 (slides_changed 2 on_third).current_slide_index view
          ≡ err type_error)
update_slide_views-IsShowing_example = update_slide_views-IsShowing 2 on_third view

abbrev events : List ViewEvent
events =
    toggle_help_event ∷ force_presenter_mode_event ∷ pause_event ∷ toggle_blackout_event
    ∷ hide_overlay_event ∷ resume_event ∷ []

abbrev all_off : Switches
all_off m = false

view-HasModes : HasModes all_off view.container
unfolding has_class occurs get_classes text_eq
view-HasModes presenter = (refl, omega arith)
view-HasModes help = (refl, omega arith)
view-HasModes blackout = (refl, omega arith)
view-HasModes mirrored = (refl, omega arith)
view-HasModes pause = (refl, omega arith)

abbrev after : View
after = record view {
  container = codes "remark-container remark-presenter-mode";
  print = sized landscape page_width page_height;
}

on_view_events-HasModes_example : HasModes (switch_events events all_off) after.container
unfolding on_view_events text_eq
on_view_events-HasModes_example =
    on_view_events-HasModes events all_off view after refl view-HasModes

-- Forced presenter mode begins with a landscape page, and toggled with a portrait one.
test_orientation :
    ((v' : View) × (on_force_presenter_mode view ≡ ok v')
      × (is_presenting v' ≡ true)
      × (v'.print.orientation ≡ landscape))
    × ((v' : View) × (on_toggle_presenter_mode view ≡ ok v')
        × (is_presenting v' ≡ true)
        × (v'.print.orientation ≡ portrait))
test_orientation = force-toggle_orientation all_off view view-HasModes refl

-- The show and its clone, where the main window is blacked out and the clone is not.
abbrev windows : Windows
windows = record {
  main = record {
    view = record view { container = codes "remark-container remark-blackout-mode" };
    has_clone = true;
    has_opener = false;
  };
  clone = record { view = view; has_clone = false; has_opener = true };
}

windows-IsConnected : IsConnected windows
unfolding get_classes occurs text_eq
windows-IsConnected = record {
  has_clone = refl;
  no_clone = refl;
  has_opener = refl;
  no_opener = refl;
  once_in_main = omega arith;
  once_in_clone = omega arith;
}

toggle_all-differ_example :
    ((toggle_all (in_main ∷ in_clone ∷ []) windows).1 ≡ [])
    × IsConnected (toggle_all (in_main ∷ in_clone ∷ []) windows).0
    × (differ
          (is_blacked_out (toggle_all (in_main ∷ in_clone ∷ []) windows).0.main)
          (is_blacked_out (toggle_all (in_main ∷ in_clone ∷ []) windows).0.clone)
        ≡ differ (is_blacked_out windows.main) (is_blacked_out windows.clone))
toggle_all-differ_example = toggle_all-differ (in_main ∷ in_clone ∷ []) windows windows-IsConnected

first_command-IsShowing_example :
    (v' : View) × (on_view_events
        (view_events (run slides (first_command false [] ∷ []) (start_navigation true)).1)
        (record view { slide_views = new_views (get_slide_count slides) })
      ≡ ok v')
    × IsShowing (get_slide_count slides) (int (pos 0)) v'
unfolding create_slides get
first_command-IsShowing_example = first_command-IsShowing slides false true view (omega arith) refl
