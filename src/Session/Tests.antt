-- ===== src/Session/Tests.antt =====
-- A show at work, and the theorems at it.
use analisis_de_protocolo_de.Prelude.{◌≡◌, refl, true, false, none, List, [], ◌∷◌, inl}
use analisis_de_protocolo_de.Prelude.Text.{codes, text_eq}
use analisis_de_protocolo_de.Prelude.Int.{pos}
use analisis_de_protocolo_de.Prelude.Result.{ok, err, type_error, ◌>>=◌}
use analisis_de_protocolo_de.Parser.Tests.{inherited}
use analisis_de_protocolo_de.Parser.{no_options, create_slide}
use analisis_de_protocolo_de.Slideshow.{create_slides}
use analisis_de_protocolo_de.Navigation.{slide_name}
use analisis_de_protocolo_de.View.{new_views, toggle_mode}
use analisis_de_protocolo_de.Printing.{sized, landscape, page_width, page_height}
use analisis_de_protocolo_de.Controller.{keydown, dom_mouse_scroll}
use analisis_de_protocolo_de.Controller.Keyboard.{Modifiers}
use analisis_de_protocolo_de.Controller.Listed.{listed}
use analisis_de_protocolo_de.Controller.Touch.{touch_start, touch_end}
use analisis_de_protocolo_de.Controller.Calls.{toggle_blackout}
use analisis_de_protocolo_de.Session.{Session, move_to, unmoved, on_page_event, on_page_events}
use analisis_de_protocolo_de.Session.Events.{
  Page, PageEvent, input, touch, message, hash_change, call, pause_call, resume_call, timeout,
}
use analisis_de_protocolo_de.Session.Paused.{stopped, pause_call-stopped, on_page_events-pause}

abbrev page : Page
page = record {
  low = λ s. s;
  inherited = inherited;
  parser_options = no_options;
  slide_options = record {
    skip_incremental_count = false;
    excluded_classes = [];
    drop_presenter_notes = false;
  };
  inputs = record { click = true; scroll = true; touch = true };
  is_embedded = false;
  has_opener = false;
  has_match_media = true;
  container_class = [];
  client_width = 100;
  unit = 1;
  notes_html = λ s. codes "-";
  code_options = record { lines = true; inline_code = false; language = codes "js"; spans = none };
  code_blocks =
      λ s. record { class_name = []; in_pre = true; inner_html = 42 ∷ (97 ∷ (10 ∷ [])) } ∷ [];
  engine = λ tab class_name html. (class_name, html);
  children_of = λ html. [] ∷ [];
  lines_of = λ html. html ∷ [];
}

abbrev no_modifiers : Modifiers
no_modifiers = record { meta = false; ctrl = false; alt = false; shift = false }

abbrev happenings : List PageEvent
happenings =
    input (keydown no_modifiers 32)
    ∷ (touch (touch_start (pos 60))
        ∷ (touch (touch_end false (pos 20))
            ∷ (call toggle_blackout
                ∷ (pause_call
                    ∷ (input (dom_mouse_scroll (pos 0) (pos 3))
                        ∷ (resume_call
                            ∷ (timeout 0
                                ∷ (message (codes "gotoSlide:1")
                                    ∷ (hash_change (codes "#2") ∷ [])))))))))

abbrev embedded : Page
embedded = record page { is_embedded = true }

-- A show of two slides, before its first command.
abbrev session : Session listed embedded
session =
    unmoved listed embedded
      (record {
        slides =
            create_slides embedded.slide_options
              (create_slide (codes "false") ∷ create_slide (codes "false") ∷ []);
        links = [];
      })
      []
      (record {
        container = codes "remark-container";
        slide_views = new_views 2;
        preview = none;
        print = sized landscape page_width page_height;
      })

test_inherited_hash :
    move_to listed embedded (slide_name (codes "constructor")) session ≡ err type_error
unfolding move_to text_eq create_slides unmoved
test_inherited_hash = refl

abbrev inputs_while_paused : List PageEvent
inputs_while_paused =
    input (dom_mouse_scroll (pos 0) (pos 3))
    ∷ (input (keydown no_modifiers 32)
        ∷ (touch (touch_start (pos 60))
            ∷ (touch (touch_end false (pos 20)) ∷ (message (codes "gotoSlide:1") ∷ []))))

on_page_events-pause_example :
    on_page_events listed embedded inputs_while_paused (stopped listed embedded session)
    ≡ ok (stopped listed embedded session)
on_page_events-pause_example =
    on_page_events-pause listed embedded inputs_while_paused session
      (stopped listed embedded session) (pause_call-stopped listed embedded session)
      (inl refl, (inl refl, (tt, (tt, (refl, tt)))))

-- A blackout that is called for while the show is paused.
test_blackout_while_paused :
    on_page_events listed embedded (pause_call ∷ (call toggle_blackout ∷ [])) session
      >>= (λ s. ok s.view.container)
    ≡ ok (codes "remark-container remark-pause-mode remark-blackout-mode")
unfolding on_page_events unmoved on_page_event toggle_mode text_eq
test_blackout_while_paused = refl
