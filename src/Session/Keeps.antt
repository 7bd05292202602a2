-- ===== src/Session/Keeps.antt =====
-- A show at work throws no error and shows its current slide, whatever happens on the page.
use analisis_de_protocolo_de.Prelude.{
  arith, false, ◌≡◌, refl, List, [], ◌∷◌, ◌++◌, map, All, Bool-cases, Option-cases, inl, inr,
  if◌then◌else◌, length-map,
}
use analisis_de_protocolo_de.Prelude.Text.{Text}
use analisis_de_protocolo_de.Prelude.Result.{Result, ok, ◌>>=◌}
use analisis_de_protocolo_de.Prelude.Dict.{get}
use analisis_de_protocolo_de.Slideshow.Numbers.{IsNumbered}
use analisis_de_protocolo_de.Navigation.{
  Target, slide_no, slide_name, goto, Command, run, get_slide_count,
}
use analisis_de_protocolo_de.Navigation.Range.{IsOnSlide}
use analisis_de_protocolo_de.Navigation.Runs.{run-Keeps}
use analisis_de_protocolo_de.Navigation.Numeric.{IsNumericCommand}
use analisis_de_protocolo_de.NotesView.Follows.{IsShownFor, run-IsShownFor}
use analisis_de_protocolo_de.View.{ViewEvent, toggle_blackout_event, fading_over}
use analisis_de_protocolo_de.View.Visible.{run-IsShowing}
use analisis_de_protocolo_de.View.Showing.{IsShowing}
use analisis_de_protocolo_de.View.Quiet.{IsQuiet, quiet-IsShowing}
use analisis_de_protocolo_de.Controller.Listeners.{
  EventName, message_event, hashchange_event, Emitter,
}
use analisis_de_protocolo_de.Controller.{name_of, Controller, handle, pause, resume}
use analisis_de_protocolo_de.Controller.Calls.{emitted_by}
use analisis_de_protocolo_de.Controller.Keyboard.{Emitted}
use analisis_de_protocolo_de.Controller.Touch.{Touch, touch_name}
use analisis_de_protocolo_de.Controller.Bus.{command_for}
use analisis_de_protocolo_de.Controller.Location.{
  hash_target, navigate_by_message, received, received_toggle_blackout, nothing, Received,
}
use analisis_de_protocolo_de.Session.{
  Session, move, move_to, finds_inherited, show_events, emit, emit_all, on_message, on_page_event,
  on_page_events,
}
use analisis_de_protocolo_de.Session.Events.{
  Page, PageEvent, input, touch, message, hash_change, call, pause_call, resume_call, timeout,
  view_listens, is_forwarded, on_each_touch, new_touches,
}
use analisis_de_protocolo_de.Session.Numeric.{
  IsPlain, IsPlainEvent, command_for-numeric, view_listens-IsQuiet, received-numeric,
}

module _ (e : Emitter) (page : Page) where
  -- The show is on a slide of its own, or before its first; the views and the notes show exactly that.
  pub record IsOnPage (s : Session e page) : Type 0 where
    pub is_numbered :
        IsNumbered s.show.slides.slides s.show.slides.by_number s.show.slides.slide_number
    pub on_slide : IsOnSlide (get_slide_count s.show.slides) s.navigation.current_slide_index
    pub showing : IsShowing (get_slide_count s.show.slides) s.navigation.current_slide_index s.view
    pub noted :
        IsShownFor
          (map page.notes_html s.show.slides.slides)
          s.notes
          s.navigation.current_slide_index

  abbrev pub Goes : Result (Session e page) → Type 0
  Goes r = (s : Session e page) × (r ≡ ok s) × IsOnPage s

  pub and_then :
      (r : Result (Session e page)) (next : Session e page → Result (Session e page))
      → Goes r
      → ((s : Session e page) → IsOnPage s → Goes (next s))
      → Goes (r >>= next)
  and_then r next (s, eq, h) rest = let (s', eq', h') = rest s h in (s', rw (eq, eq') refl, h')

  move-Goes :
      (commands : List Command) (s : Session e page)
      → All IsNumericCommand commands
      → IsOnPage s
      → Goes (move e page commands s)
  unfolding move
  move-Goes commands s p h =
      let slides = s.show.slides in
      let k = run-Keeps slides commands s.navigation p h.on_slide in
      let (view, ve, vs) =
        run-IsShowing slides commands s.navigation s.view p h.on_slide h.showing in
      let (notes, ne, ns) =
        run-IsShownFor (map page.notes_html slides.slides) slides commands s.navigation s.notes
          (length-map slides.slides page.notes_html) p h.on_slide h.noted in
      (
        record s { navigation = (run slides commands s.navigation).0; view = view; notes = notes },
        rw (ve, ne) refl,
        record { is_numbered = h.is_numbered; on_slide = k.on_slide; showing = vs; noted = ns },
      )

  no_inherited :
      (t : Text) (s : Session e page)
      → page.inherited.is_name t ≡ false
      → finds_inherited e page (slide_name t) s.show.slides ≡ false
  unfolding finds_inherited
  no_inherited t s h = elim (Option-cases (get t s.show.slides.by_name)) [
    | inl u ↦ rw (u, h) (ground arith)
    | inr (slide, u) ↦ rw u (ground arith)
  ]

  pub move_to-Goes :
      (target : Target) (s : Session e page)
      → IsPlain page.inherited target
      → IsOnPage s
      → Goes (move_to e page target s)
  unfolding move_to finds_inherited
  move_to-Goes (slide_no n) s p h = move-Goes (goto (slide_no n) false ∷ []) s (p, tt) h
  move_to-Goes (slide_name t) s p h =
      rw (no_inherited t s p.1) (move-Goes (goto (slide_name t) false ∷ []) s (p.0, tt) h)

  show_events-Goes :
      (events : List ViewEvent) (s : Session e page)
      → All IsQuiet events
      → IsOnPage s
      → Goes (show_events e page events s)
  unfolding show_events
  show_events-Goes events s q h =
      let (view, ve, vs) =
        quiet-IsShowing (get_slide_count s.show.slides) s.navigation.current_slide_index events
          s.view q h.showing in
      (
        record s { view = view },
        rw ve refl,
        record {
          is_numbered = h.is_numbered;
          on_slide = h.on_slide;
          showing = vs;
          noted = h.noted;
        },
      )

  emit-Goes : (event : Emitted) (s : Session e page) → IsOnPage s → Goes (emit e page event s)
  unfolding emit
  emit-Goes event s h =
      and_then (move e page (command_for event) s) (show_events e page (view_listens event))
        (move-Goes (command_for event) s (command_for-numeric event) h)
        (λ s1 h1. show_events-Goes (view_listens event) s1 (view_listens-IsQuiet event) h1)

  emit_all-Goes :
      (events : List Emitted) (s : Session e page) → IsOnPage s → Goes (emit_all e page events s)
  unfolding emit_all
  emit_all-Goes [] s h = (s, refl, h)
  emit_all-Goes (event ∷ events) s h =
      and_then (emit e page event s) (emit_all e page events) (emit-Goes event s h)
        (λ s1 h1. emit_all-Goes events s1 h1)

  on_message-Goes :
      (text : Text) (s : Session e page) → IsOnPage s → Goes (on_message e page text s)
  unfolding on_message
  on_message-Goes text s h = by_message (navigate_by_message text) refl
    where
      by_message : (r : Received) → navigate_by_message text ≡ r → Goes (on_message e page text s)
      by_message (received c) eq =
          rw (eq, on_message) (move-Goes (c ∷ []) s (received-numeric text c eq, tt) h)
      by_message received_toggle_blackout eq =
          rw (eq, on_message) (show_events-Goes (toggle_blackout_event ∷ []) s (tt, tt) h)
      by_message nothing eq = rw (eq, on_message) (s, refl, h)

  -- The parts that the page does not show.
  unseen :
      (s : Session e page) (c : Controller e) (ts : List Touch)
      → IsOnPage s
      → IsOnPage (record s { controller = c; touches = ts })
  unseen s c ts h = record {
    is_numbered = h.is_numbered;
    on_slide = h.on_slide;
    showing = h.showing;
    noted = h.noted;
  }

  if_forwarded :
      (name : EventName) (r : Result (Session e page)) (s : Session e page)
      → Goes r
      → IsOnPage s
      → Goes (if is_forwarded page.is_embedded name then r else ok s)
  if_forwarded name r s g h = elim (Bool-cases (is_forwarded page.is_embedded name)) [
    | inl u ↦ rw u g
    | inr u ↦ rw u (s, refl, h)
  ]

  on_page_event-Goes :
      (event : PageEvent) (s : Session e page)
      → IsPlainEvent page.inherited event
      → IsOnPage s
      → Goes (on_page_event e page event s)
  unfolding on_page_event
  on_page_event-Goes (input i) s n h =
      if_forwarded (name_of i) _ s
        (emit_all-Goes (handle e page.low i s.controller).1 _
          (unseen s (handle e page.low i s.controller).0 s.touches h))
        h
  on_page_event-Goes (touch t) s numeric h =
      let n = e.listener_count (touch_name t) s.controller.listeners in
      let (touches, events) = on_each_touch page.unit page.client_width t n s.touches in
      if_forwarded (touch_name t) _ s (emit_all-Goes events _ (unseen s s.controller touches h)) h
  on_page_event-Goes (message text) s n h =
      if_forwarded message_event _ s (on_message-Goes text s h) h
  on_page_event-Goes (hash_change hash) s n h =
      if_forwarded hashchange_event _ s (move_to-Goes (hash_target hash) s n h) h
  on_page_event-Goes (call c) s n h = emit-Goes (emitted_by c) s h
  on_page_event-Goes pause_call s n h =
      show_events-Goes (ViewEvent.pause_event ∷ []) _ (tt, tt)
        (unseen s (pause e s.controller) s.touches h)
  on_page_event-Goes resume_call s n h =
      show_events-Goes (ViewEvent.resume_event ∷ []) _ (tt, tt)
        (unseen s (resume e page.inputs s.controller) (new_touches page.inputs ++ s.touches) h)
  on_page_event-Goes (timeout k) s n h = show_events-Goes (fading_over k ∷ []) _ (tt, tt) h

  -- Whatever happens on the page, but a change of the location hash to NaN or to
  -- an inherited name, the show throws no error and
  -- stays on a slide of its own, which the views and the notes show.
  pub on_page_events-Goes :
      (events : List PageEvent) (s : Session e page)
      → All (IsPlainEvent page.inherited) events
      → IsOnPage s
      → Goes (on_page_events e page events s)
  unfolding on_page_events
  on_page_events-Goes [] s n h = (s, refl, h)
  on_page_events-Goes (event ∷ events) s n h =
      and_then (on_page_event e page event s) (on_page_events e page events)
        (on_page_event-Goes event s n.0 h) (λ s1 h1. on_page_events-Goes events s1 n.1 h1)
