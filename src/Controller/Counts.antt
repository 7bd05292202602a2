-- ===== src/Controller/Counts.antt =====
-- How many listeners there are for each event after the operations of the controller, from the laws of
-- the registry.
use analisis_de_protocolo_de.Prelude.{
  ℕ, zero, suc, ◌+◌, ◌*◌, ◌<◌, ◌≡◌, refl, ◌∙◌, Bool, true, false, if◌then◌else◌, arith,
}
use analisis_de_protocolo_de.Controller.Listeners.{
  EventName, keydown_event, keypress_event, click_event, contextmenu_event, mousewheel_event,
  dom_mouse_scroll_event, touchstart_event, touchend_event, touchmove_event, message_event,
  hashchange_event, slide_changed_event, toggled_presenter_event, pause_event, resume_event,
  Emitter, order,
}
use analisis_de_protocolo_de.Controller.{
  InputOptions, Controller, add_keyboard_event_listeners, remove_keyboard_event_listeners,
  add_mouse_event_listeners, remove_mouse_event_listeners, add_touch_event_listeners,
  remove_touch_event_listeners, add_location_event_listeners, activate, deactivate, pause, resume,
  new_controller, pause_and_resume,
}
use analisis_de_protocolo_de.Controller.Removals.{is_paused, removals, adds, resumed, no_input}

module _ (e : Emitter) where
  open e use {
    Registry, no_listeners, on, remove_all_listeners, listener_count, count-no_listeners, count-on,
    count-remove_all_listeners,
  }

  on-adds :
      (n m : EventName) (r : Registry) → listener_count n (on m r) ≡ listener_count n r + adds m n
  unfolding adds
  on-adds n m r = count-on n m r ∙ ground arith

  on-twice :
      (n m m' : EventName) (r : Registry)
      → listener_count n (on m' (on m r)) ≡ listener_count n r + (adds m n + adds m' n)
  on-twice n m m' r = omega (arith, on-adds n m' (on m r), on-adds n m r)

  count-add_mouse :
      (n : EventName) (o : InputOptions) (r : Registry)
      → listener_count n (add_mouse_event_listeners e o r)
        ≡ listener_count n r
          + (if o.click then adds click_event n + adds contextmenu_event n else 0)
          + (if o.scroll then adds mousewheel_event n + adds dom_mouse_scroll_event n else 0)
  unfolding add_mouse_event_listeners
  count-add_mouse n o r = ground (
    arith,
    on-twice n click_event contextmenu_event r,
    on-twice n mousewheel_event dom_mouse_scroll_event r,
    on-twice n mousewheel_event dom_mouse_scroll_event (on contextmenu_event (on click_event r)),
  )

  count-add_touch :
      (n : EventName) (o : InputOptions) (r : Registry)
      → listener_count n (add_touch_event_listeners e o r)
        ≡ listener_count n r
          + (if o.touch
              then adds touchstart_event n + adds touchend_event n + adds touchmove_event n
              else 0)
  unfolding add_touch_event_listeners
  count-add_touch n o r = ground (
    arith,
    on-twice n touchstart_event touchend_event r,
    on-adds n touchmove_event (on touchend_event (on touchstart_event r)),
  )

  -- `resume` adds listeners to those there are.
  pub count-resume :
      (n : EventName) (o : InputOptions) (c : Controller e)
      → listener_count n (resume e o c).listeners ≡ listener_count n c.listeners + resumed o n
  unfolding resume activate add_keyboard_event_listeners resumed
  count-resume n o c =
      let keys = on keypress_event (on keydown_event c.listeners) in
      omega (
        arith,
        count-add_touch n o (add_mouse_event_listeners e o keys),
        count-add_mouse n o keys,
        on-twice n keydown_event keypress_event c.listeners,
      )

  -- `pause` takes listeners away, and adds none.
  pub count-pause :
      (n : EventName) (c : Controller e)
      → listener_count n (pause e c).listeners
        ≡ (if is_paused n then 0 else listener_count n c.listeners)
  unfolding pause deactivate remove_keyboard_event_listeners remove_mouse_event_listeners
      remove_touch_event_listeners
  count-pause n c =
      let r1 = remove_all_listeners keydown_event c.listeners in
      let r2 = remove_all_listeners keypress_event r1 in
      let r3 = remove_all_listeners click_event r2 in
      let r4 = remove_all_listeners contextmenu_event r3 in
      let r5 = remove_all_listeners mousewheel_event r4 in
      let r6 = remove_all_listeners touchstart_event r5 in
      let r7 = remove_all_listeners touchend_event r6 in
      rw
        (
          count-remove_all_listeners n touchmove_event r7,
          count-remove_all_listeners n touchend_event r6,
          count-remove_all_listeners n touchstart_event r5,
          count-remove_all_listeners n mousewheel_event r4,
          count-remove_all_listeners n contextmenu_event r3,
          count-remove_all_listeners n click_event r2,
          count-remove_all_listeners n keypress_event r1,
          count-remove_all_listeners n keydown_event c.listeners,
        )
        (removals n (listener_count n c.listeners))

  -- The other listeners of a new controller are none of the inputs'.
  count-located :
      (n : EventName) (is_embedded : Bool) (r : Registry)
      → order n < 9
      → listener_count n (add_location_event_listeners e is_embedded (on message_event r))
        ≡ listener_count n r
  unfolding add_location_event_listeners
  count-located n is_embedded r l =
      let r1 = on message_event r in
      let r2 = on slide_changed_event (on hashchange_event r1) in
      ground (
        arith,
        on-adds n message_event r,
        on-twice n hashchange_event slide_changed_event r1,
        on-adds n toggled_presenter_event r2,
        no_input n message_event l (omega arith),
        no_input n hashchange_event l (omega arith),
        no_input n slide_changed_event l (omega arith),
        no_input n toggled_presenter_event l (omega arith),
      )

  -- A new controller listens to its inputs as it does when it is resumed, embedded or not.
  pub count-new_controller :
      (n : EventName) (is_embedded : Bool) (o : InputOptions)
      → order n < 9
      → listener_count n (new_controller e is_embedded o).listeners ≡ resumed o n
  unfolding new_controller activate add_keyboard_event_listeners resumed
  count-new_controller n is_embedded o l =
      let keys = on keypress_event (on keydown_event no_listeners) in
      let located = add_location_event_listeners e is_embedded (on message_event keys) in
      let mouse = add_mouse_event_listeners e o located in
      let touch = add_touch_event_listeners e o mouse in
      omega (
        arith,
        on-twice n pause_event resume_event touch,
        no_input n pause_event l (omega arith),
        no_input n resume_event l (omega arith),
        count-add_touch n o mouse,
        count-add_mouse n o located,
        count-located n is_embedded keys l,
        on-twice n keydown_event keypress_event no_listeners,
        count-no_listeners n,
      )

  -- After any number of pauses the listeners of a paused event are those that `resume` adds.
  pub count-pause_and_resume :
      (n : EventName) (o : InputOptions) (k : ℕ) (c : Controller e)
      → is_paused n ≡ true
      → listener_count n c.listeners ≡ resumed o n
      → listener_count n (pause_and_resume e o k c).listeners ≡ resumed o n
  unfolding pause_and_resume
  count-pause_and_resume n o zero c h e = e
  count-pause_and_resume n o (suc k) c h e =
      count-pause_and_resume n o k (resume _ o (pause _ c)) h
        (rw (count-resume n o (pause _ c), count-pause n c, h) (omega arith))

  -- Those of any other become more with each.
  pub count-pause_and_resume_others :
      (n : EventName) (o : InputOptions) (k : ℕ) (c : Controller e)
      → is_paused n ≡ false
      → listener_count n (pause_and_resume e o k c).listeners
        ≡ listener_count n c.listeners + k * resumed o n
  unfolding pause_and_resume
  count-pause_and_resume_others n o zero c h = omega arith
  count-pause_and_resume_others n o (suc k) c h =
      let ih = count-pause_and_resume_others n o k (resume e o (pause e c)) h in
      let once : listener_count n (resume e o (pause e c)).listeners
          ≡ listener_count n c.listeners + resumed o n =
        rw (count-resume n o (pause e c), count-pause n c, h) refl in
      omega (arith, ih, once)
