-- ===== src/Session.antt =====
-- A whole show: how `create` of api.js puts the parts together, and what an event of the page does, from
-- the forwarding in views/slideshowView.js through the controller to navigation, the views and the notes.
-- The timer, the posts to other windows and the location hash that `updateHash` sets follow the same
-- events, and are not part of its state; a change of the hash by the user is an event.
pub mod Events
pub mod Numeric
mod Keeps
mod Created
mod Paused
mod Tests
use analisis_de_protocolo_de.Prelude.{
  ℕ, Bool, true, false, not, ◌&&◌, ◌||◌, some, Option, none, List, [], ◌∷◌, ◌++◌, map,
  if◌then◌else◌,
}
use analisis_de_protocolo_de.Prelude.Text.{Text, codes, text_eq}
use analisis_de_protocolo_de.Prelude.Result.{Result, ok, err, type_error, ◌>>=◌}
use analisis_de_protocolo_de.Parser.{ParserOptions}
use analisis_de_protocolo_de.Macros.{macros}
use analisis_de_protocolo_de.Slide.{Slide}
use analisis_de_protocolo_de.Slideshow.{SlideOptions, Building}
use analisis_de_protocolo_de.SlideView.Code.{Highlighted, highlight_code_blocks}
use analisis_de_protocolo_de.Prelude.Number.{to_string, parse_int}
use analisis_de_protocolo_de.Prelude.Dict.{get}
use analisis_de_protocolo_de.Slideshow.Loading.{Show, load_from_string}
use analisis_de_protocolo_de.Navigation.{
  is_presenter_name, Target, slide_no, slide_name, goto, Navigation, Command, start_navigation,
  slides_changed, run, get_slide_count,
}
use analisis_de_protocolo_de.ClassList.{add_class}
use analisis_de_protocolo_de.Printing.{init}
use analisis_de_protocolo_de.View.{
  View, ViewEvent, toggle_presenter_mode_event, toggle_help_event, toggle_blackout_event,
  toggle_mirrored_event, hide_overlay_event, fading_over, on_view_event, on_view_events,
  update_slide_views,
}
use analisis_de_protocolo_de.View.Bus.{view_events}
use analisis_de_protocolo_de.NotesView.{Notes, on_events}
use analisis_de_protocolo_de.Controller.Listeners.{
  EventName, keydown_event, keypress_event, click_event, contextmenu_event, mousewheel_event,
  dom_mouse_scroll_event, touchstart_event, touchend_event, touchmove_event, message_event,
  hashchange_event, slide_changed_event, toggled_presenter_event, pause_event, resume_event,
  Emitter,
}
use analisis_de_protocolo_de.Controller.{
  Input, name_of, InputOptions, Controller, new_controller, handle, pause, resume,
}
use analisis_de_protocolo_de.Controller.Keyboard.{Emitted}
use analisis_de_protocolo_de.Controller.Touch.{
  touch_name, TouchInput, touch_start, touch_end, touch_move, Touch, no_touch, on_touch,
}
use analisis_de_protocolo_de.Controller.Location.{
  first_target, hash_target, navigate_by_message, received, received_toggle_blackout, nothing,
}
use analisis_de_protocolo_de.Controller.Bus.{command_for}
use analisis_de_protocolo_de.Controller.Calls.{Call, emitted_by}
use analisis_de_protocolo_de.Api.{apply_defaults}
use analisis_de_protocolo_de.Session.Events.{
  Page, is_forwarded, view_listens, PageEvent, on_each_touch, new_touches, call, message,
  resume_call, touch, hash_change, input, timeout, pause_call,
}

module _ (e : Emitter) (page : Page) where
  pub record Session : Type 0 where
    pub show : Show
    pub navigation : Navigation
    pub view : View
    pub notes : Notes
    pub controller : Controller e
    -- the variables of the touch listeners, one of each registration, the newest first
    pub touches : List Touch
    -- the code blocks of the slides' views
    pub code : List (List Highlighted)

  -- Commands to navigation, with what the views and the notes do on the events that it emits.
  unfoldable pub move : List Command → Session → Result Session
  unfolding run view_events on_view_events on_events
  move commands s =
      let slides = s.show.slides in
      let (navigation, events) = run slides commands s.navigation in
      on_view_events (view_events events) s.view >>= λ view.
      on_events (map page.notes_html slides.slides) events s.notes >>= λ notes.
      ok (record s { navigation = navigation; view = view; notes = notes })

  -- Whether getSlideIndex finds something by the name of the target that is inherited and no slide.
  unfoldable pub finds_inherited : Target → Building → Bool
  unfolding text_eq to_string parse_int is_presenter_name get
  finds_inherited (slide_no n) slides = false
  finds_inherited (slide_name t) slides =
      not (text_eq (to_string (parse_int t)) t || is_presenter_name t)
      && elim (get t slides.by_name) [ none ↦ page.inherited.is_name t | some s ↦ false ]

  -- gotoSlide, of the location hash: `getSlideIndex` of what is inherited is no function.
  unfoldable pub move_to : Target → Session → Result Session
  unfolding finds_inherited move
  move_to target s =
      if finds_inherited target s.show.slides
      then err type_error
      else move (goto target false ∷ []) s

  unfoldable pub show_events : List ViewEvent → Session → Result Session
  unfolding on_view_events
  show_events events s = on_view_events events s.view >>= λ view. ok (record s { view = view })

  -- What the listeners of one event that an input emits do, and of several.
  unfoldable pub emit : Emitted → Session → Result Session
  unfolding move command_for show_events view_listens
  emit event s = move (command_for event) s >>= show_events (view_listens event)

  unfoldable pub emit_all : List Emitted → Session → Result Session
  unfolding emit
  emit_all [] s = ok s
  emit_all (event ∷ events) s = emit event s >>= emit_all events

  -- navigateByMessage
  unfoldable pub on_message : Text → Session → Result Session
  unfolding navigate_by_message move show_events
  on_message text s = elim (navigate_by_message text) [
    | received c ↦ move (c ∷ []) s
    | received_toggle_blackout ↦ show_events (toggle_blackout_event ∷ []) s
    | nothing ↦ ok s
  ]

  -- An event of the page, and several.
  unfoldable pub on_page_event : PageEvent → Session → Result Session
  unfolding is_forwarded handle emit_all on_each_touch on_message move_to emit emitted_by pause
      resume show_events
  on_page_event (input i) s =
      let (controller, events) = handle e page.low i s.controller in
      if is_forwarded page.is_embedded (name_of i)
      then emit_all events (record s { controller = controller })
      else ok s
  on_page_event (touch t) s =
      let (touches, events) =
        on_each_touch page.unit page.client_width t
          (e.listener_count (touch_name t) s.controller.listeners) s.touches in
      if is_forwarded page.is_embedded (touch_name t)
      then emit_all events (record s { touches = touches })
      else ok s
  on_page_event (message text) s =
      if is_forwarded page.is_embedded message_event then on_message text s else ok s
  on_page_event (hash_change hash) s =
      if is_forwarded page.is_embedded hashchange_event then move_to (hash_target hash) s else ok s
  on_page_event (call c) s = emit (emitted_by c) s
  on_page_event pause_call s =
      show_events (ViewEvent.pause_event ∷ []) (record s { controller = pause e s.controller })
  on_page_event resume_call s = show_events (ViewEvent.resume_event ∷ []) (record s {
    controller = resume e page.inputs s.controller;
    touches = new_touches page.inputs ++ s.touches;
  })
  on_page_event (timeout n) s = show_events (fading_over n ∷ []) s

  unfoldable pub on_page_events : List PageEvent → Session → Result Session
  unfolding on_page_event
  on_page_events [] s = ok s
  on_page_events (event ∷ events) s = on_page_event event s >>= on_page_events events

  -- The view that SlideshowView starts with.
  unfoldable pub new_view : Result View
  unfolding add_class init
  new_view = init page.has_match_media >>= λ print. ok (record {
    container = add_class page.container_class (codes "remark-container");
    slide_views = [];
    preview = none;
    print = print.0;
  })

  -- Navigation after the event `slidesChanged` of the loading, which the view does not hear yet.
  unfoldable pub loaded : Show → Navigation
  loaded show = slides_changed (get_slide_count show.slides) (start_navigation page.has_opener)

  -- The show before its first command.
  unfoldable pub unmoved : Show → List (List Highlighted) → View → Session
  unfolding loaded new_controller
  unmoved show code view = record {
    show = show;
    navigation = loaded show;
    view = view;
    notes = record { notes = []; preview = [] };
    controller = new_controller e page.is_embedded page.inputs;
    touches = new_touches page.inputs;
    code = code;
  }

  -- The first command, of the location hash.
  unfoldable pub move_first : Text → Show → List (List Highlighted) → View → Result Session
  unfolding move_to unmoved
  move_first hash show code view =
      move_to (first_target page.is_embedded hash) (unmoved show code view)

  -- The code blocks of the views of the slides, which their constructors highlight.
  unfoldable pub highlight_slides : List Slide → Result (List (List Highlighted))
  unfolding highlight_code_blocks
  highlight_slides [] = ok []
  highlight_slides (slide ∷ slides) =
      highlight_code_blocks page.engine page.children_of page.lines_of page.code_options
        (page.code_blocks slide)
      >>= λ blocks. highlight_slides slides >>= λ further. ok (blocks ∷ further)

  -- The callback of `create`: the view, with a view of each slide, and then the controller.
  unfoldable pub start : Text → Show → Result Session
  unfolding new_view loaded highlight_slides update_slide_views move_first
  start hash show = new_view >>= λ empty. highlight_slides show.slides.slides >>= λ code.
      update_slide_views (get_slide_count show.slides) (loaded show).current_slide_index empty
      >>= move_first hash show code

  -- Api.prototype.create without a `sourceUrl`, of the option `source`, the source element and the
  -- location hash.
  unfoldable pub create : Option (Option Text) → Option Text → Text → Result Session
  unfolding apply_defaults load_from_string start
  create source source_element hash =
      load_from_string page.low (macros page.inherited) page.inherited.is_name 2 page.parser_options
        page.slide_options (apply_defaults source source_element).0
      >>= start hash
