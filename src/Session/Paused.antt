-- ===== src/Session/Paused.antt =====
-- A show that is paused.
use analisis_de_protocolo_de.Prelude.{
  ◌≡◌, refl, ap, sym, ◌∙◌, subst, Bool, true, false, not, List, [], ◌∷◌, All, inl, inr, ◌⊎◌,
  if◌then◌else◌,
}
use analisis_de_protocolo_de.Prelude.Result.{Result, ok, eq_of_ok}
use analisis_de_protocolo_de.View.{pause_mode, toggle_mode, on_view_event, on_view_events}
use analisis_de_protocolo_de.Controller.Counts.{count-pause}
use analisis_de_protocolo_de.Controller.Removals.{is_paused, touch_name-is_paused}
use analisis_de_protocolo_de.Controller.Touch.{touch_name}
use analisis_de_protocolo_de.Controller.Listeners.{
  EventName, dom_mouse_scroll_event, same_name, Emitter,
}
use analisis_de_protocolo_de.Controller.{
  Input, keydown, keypress, click, contextmenu, mousewheel, dom_mouse_scroll, name_of, handle,
  pause, Controller,
}
use analisis_de_protocolo_de.Controller.Keyboard.{Emitted}
use analisis_de_protocolo_de.Controller.Pausing.{handle-pause}
use analisis_de_protocolo_de.Session.{Session, emit_all, show_events, on_page_event, on_page_events}
use analisis_de_protocolo_de.Session.Events.{
  Page, PageEvent, input, touch, message, hash_change, call, pause_call, resume_call, timeout,
  is_forwarded, on_each_touch,
}

-- The events that a paused show does not react to: any touch, and any input but DOMMouseScroll; in an
-- embedded show any input, any message and any change of the location hash.
abbrev pub IsStopped : Bool → PageEvent → Type 0
IsStopped is_embedded (input i) =
    (is_embedded ≡ true) ⊎ (same_name (name_of i) dom_mouse_scroll_event ≡ false)
IsStopped is_embedded (touch t) = Unit
IsStopped is_embedded (message text) = is_embedded ≡ true
IsStopped is_embedded (hash_change hash) = is_embedded ≡ true
IsStopped is_embedded (call c) = ⊥
IsStopped is_embedded pause_call = ⊥
IsStopped is_embedded resume_call = ⊥
IsStopped is_embedded (timeout n) = ⊥

-- DOMMouseScroll is the one input that `pause` leaves, and it is not forwarded to an embedded show.
input-cases :
    (is_embedded : Bool) (i : Input)
    → IsStopped is_embedded (input i)
    → (is_forwarded is_embedded (name_of i) ≡ false)
      ⊎ (same_name (name_of i) dom_mouse_scroll_event ≡ false)
unfolding is_forwarded same_name
input-cases is_embedded (keydown m c) h = inr refl
input-cases is_embedded (keypress m c) h = inr refl
input-cases is_embedded (click l b) h = inr refl
input-cases is_embedded (contextmenu l) h = inr refl
input-cases is_embedded (mousewheel w d) h = inr refl
input-cases is_embedded (dom_mouse_scroll w d) h = elim h [
  | inl u ↦ inl (rw u refl)
  | inr u ↦ absurd (cc (u))
]

module _ (e : Emitter) (page : Page) where
  -- What `pause` makes of a show.
  abbrev pub stopped : Session e page → Session e page
  stopped s = record s { view = toggle_mode pause_mode s.view; controller = pause e s.controller }

  pub pause_call-stopped : (s : Session e page) → on_page_event e page pause_call s ≡ ok (stopped s)
  unfolding on_page_event show_events on_view_events on_view_event
  pause_call-stopped s = refl

  unmoved_if :
      (b : Bool) (r : Result (Session e page)) (s : Session e page)
      → r ≡ ok s
      → (if b then r else ok s) ≡ ok s
  unmoved_if true r s h = h
  unmoved_if false r s h = refl

  not_forwarded :
      {b : Bool}
      → b ≡ false
      → (r : Result (Session e page)) (s : Session e page) → (if b then r else ok s) ≡ ok s
  not_forwarded h r s = rw h refl

  no_listeners-touch :
      (n : EventName) (c : Controller e)
      → is_paused n ≡ true
      → e.listener_count n (pause e c).listeners ≡ 0
  no_listeners-touch n c h = count-pause e n c ∙ rw h refl

  on_page_event-stopped :
      (event : PageEvent) (s : Session e page)
      → IsStopped page.is_embedded event
      → on_page_event e page event (stopped s) ≡ ok (stopped s)
  unfolding on_page_event emit_all on_each_touch is_forwarded
  on_page_event-stopped (input i) s h = elim (input-cases page.is_embedded i h) [
    | inl u ↦ rw u refl
    | inr u ↦ unmoved_if (is_forwarded page.is_embedded (name_of i)) _ (stopped s) (handled u)
  ]
    where
      handled :
          same_name (name_of i) dom_mouse_scroll_event ≡ false
          → emit_all e page
              (handle e page.low i (stopped s).controller).1
              (record (stopped s) { controller = (handle e page.low i (stopped s).controller).0 })
            ≡ ok (stopped s)
      handled u =
          ap
            (λ (r : Controller e × List Emitted).
              emit_all e page r.1 (record (stopped s) { controller = r.0 }))
            (handle-pause e page.low i s.controller u).0
  on_page_event-stopped (touch t) s h =
      unmoved_if (is_forwarded page.is_embedded (touch_name t)) _ (stopped s)
        (rw (no_listeners-touch (touch_name t) s.controller (touch_name-is_paused t)) refl)
  on_page_event-stopped (message text) s h = not_forwarded (ap not h) _ (stopped s)
  on_page_event-stopped (hash_change hash) s h = not_forwarded (ap not h) _ (stopped s)
  on_page_event-stopped (call c) s h = absurd h
  on_page_event-stopped pause_call s h = absurd h
  on_page_event-stopped resume_call s h = absurd h
  on_page_event-stopped (timeout n) s h = absurd h

  on_page_events-stopped :
      (events : List PageEvent) (s : Session e page)
      → All (IsStopped page.is_embedded) events
      → on_page_events e page events (stopped s) ≡ ok (stopped s)
  unfolding on_page_events
  on_page_events-stopped [] s h = refl
  on_page_events-stopped (event ∷ events) s h =
      rw (on_page_event-stopped event s h.0) (on_page_events-stopped events s h.1)

  -- After `pause` no touch, and no input but DOMMouseScroll, changes anything of a show; and in an embedded
  -- show no input at all does, no message and no location hash.
  pub on_page_events-pause :
      (events : List PageEvent) (s paused : Session e page)
      → on_page_event e page pause_call s ≡ ok paused
      → All (IsStopped page.is_embedded) events
      → on_page_events e page events paused ≡ ok paused
  on_page_events-pause events s paused p h =
      let same : stopped s ≡ paused = eq_of_ok (sym (pause_call-stopped s) ∙ p) in
      subst (λ t. on_page_events e page events t ≡ ok t) same (on_page_events-stopped events s h)
