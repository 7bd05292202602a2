-- ===== src/View/Session.antt =====
-- The start of a show: its first command, and what the views show then.
use analisis_de_protocolo_de.Prelude.{
  ◌<◌, ◌≡◌, refl, ap, ◌∙◌, subst, Bool, true, false, none, [], ◌∷◌,
}
use analisis_de_protocolo_de.Prelude.Text.{text_eq}
use analisis_de_protocolo_de.Prelude.Dict.{get}
use analisis_de_protocolo_de.Prelude.Int.{pos}
use analisis_de_protocolo_de.Prelude.Number.{int, parse_int, unsigned, to_string}
use analisis_de_protocolo_de.Prelude.Result.{ok}
use analisis_de_protocolo_de.Slideshow.{Building}
use analisis_de_protocolo_de.Navigation.{
  Navigation, get_slide_count, start_navigation, run, perform, goto_slide, get_slide_index,
  goto_slide_by_index, slide_name, is_presenter_name, is_digits,
}
use analisis_de_protocolo_de.Navigation.Moves.{current-goto_slide_by_index}
use analisis_de_protocolo_de.Navigation.Numeric.{IsNumericCommand}
use analisis_de_protocolo_de.Controller.Location.{first_command}
use analisis_de_protocolo_de.View.{View, new_views, on_view_events}
use analisis_de_protocolo_de.View.Bus.{view_events}
use analisis_de_protocolo_de.View.Visible.{new_views-IsShowing, run-IsShowing}
use analisis_de_protocolo_de.View.Showing.{IsShowing}

first_command-numeric : (is_embedded : Bool) → IsNumericCommand (first_command is_embedded [])
unfolding first_command
first_command-numeric true = λ h. absurd (cc h)
first_command-numeric false = λ h. absurd (cc h)

no_name :
    (slides : Building)
    → get [] slides.by_name ≡ none
    → (get_slide_index slides (slide_name [])).0 ≡ int (pos 0)
unfolding get_slide_index text_eq parse_int is_presenter_name to_string is_digits unsigned
no_name slides e = rw e refl

first_command-first :
    (slides : Building) (is_embedded : Bool) (nav : Navigation)
    → 0 < get_slide_count slides
    → get [] slides.by_name ≡ none
    → (run slides (first_command is_embedded [] ∷ []) nav).0.current_slide_index ≡ int (pos 0)
unfolding first_command run perform goto_slide get_slide_index
first_command-first slides true nav h e =
    current-goto_slide_by_index (get_slide_count slides) 0 false nav h
first_command-first slides false nav h e =
    ap (λ i. (goto_slide_by_index (get_slide_count slides) i false nav).0.current_slide_index)
      (no_name slides e)
    ∙ current-goto_slide_by_index (get_slide_count slides) 0 false nav h

-- A show with a slide, embedded or with an empty location hash, where no slide has the empty name, starts
-- on its first slide: the views of its slides throw no error, and exactly that of the first is visible.
pub first_command-IsShowing :
    (slides : Building) (is_embedded opener : Bool) (v : View)
    → 0 < get_slide_count slides
    → get [] slides.by_name ≡ none
    → (v' : View) × (on_view_events
          (view_events (run slides (first_command is_embedded [] ∷ []) (start_navigation opener)).1)
          (record v { slide_views = new_views (get_slide_count slides) })
        ≡ ok v')
      × IsShowing (get_slide_count slides) (int (pos 0)) v'
first_command-IsShowing slides is_embedded opener v h e =
    let nav = start_navigation opener in
    let (v', p, s) =
      run-IsShowing slides (first_command is_embedded [] ∷ []) nav
        (record v { slide_views = new_views (get_slide_count slides) })
        (first_command-numeric is_embedded, tt) refl
        (new_views-IsShowing (get_slide_count slides) v) in
    (
      v',
      p,
      subst (λ i. IsShowing (get_slide_count slides) i v')
          (first_command-first slides is_embedded nav h e) s,
    )
