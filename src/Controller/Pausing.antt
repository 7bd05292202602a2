-- ===== src/Controller/Pausing.antt =====
-- What `pause` and `resume` do to the inputs, whatever the registry of listeners is.
use analisis_de_protocolo_de.Prelude.{
  ℕ, zero, suc, ◌+◌, ◌≡◌, refl, sym, ap, ◌∙◌, Bool, true, false, List, [], ◌++◌, arith,
}
use analisis_de_protocolo_de.Prelude.Text.{Text}
use analisis_de_protocolo_de.Prelude.Int.{ℤ}
use analisis_de_protocolo_de.Controller.Listeners.{dom_mouse_scroll_event, same_name, Emitter}
use analisis_de_protocolo_de.Controller.{
  Input, dom_mouse_scroll, name_of, InputOptions, Controller, pause, new_controller, react,
  repeated, dispatch, handle, pause_and_resume,
}
use analisis_de_protocolo_de.Controller.Counts.{
  count-pause, count-new_controller, count-pause_and_resume, count-pause_and_resume_others,
}
use analisis_de_protocolo_de.Controller.Removals.{
  is_paused, name_of-is_paused, touch_name-is_paused, order-name_of, order-touch_name, resumed,
}
use analisis_de_protocolo_de.Controller.Touch.{TouchInput, touch_name}
use analisis_de_protocolo_de.Controller.Keyboard.{Emitted}
use analisis_de_protocolo_de.Controller.Mouse.{scroll_handler}

-- A list, some times in a row.
unfoldable pub copies : ℕ → List Emitted → List Emitted
copies zero es = []
copies (suc n) es = es ++ copies n es

repeated-scroll :
    (low : Text → Text) (w d : ℤ) (n : ℕ) (digits : Text)
    → repeated low (dom_mouse_scroll w d) n digits ≡ (digits, copies n (scroll_handler w d))
unfolding repeated react copies
repeated-scroll low w d zero digits = refl
repeated-scroll low w d (suc n) digits = rw (repeated-scroll low w d n digits) refl

resumed-scroll :
    (options : InputOptions) → options.scroll ≡ true → resumed options dom_mouse_scroll_event ≡ 1
unfolding resumed same_name
resumed-scroll options h = ground (arith, h)

module _ (e : Emitter) where
  -- A paused controller does nothing on an input of the keyboard or the mouse, whatever the listeners before,
  -- unless the input is DOMMouseScroll, and has no listener of touches.
  pub handle-pause :
      (low : Text → Text) (input : Input) (c : Controller e)
      → same_name (name_of input) dom_mouse_scroll_event ≡ false
      → (handle e low input (pause e c) ≡ (pause e c, []))
        × ((t : TouchInput) → e.listener_count (touch_name t) (pause e c).listeners ≡ 0)
  unfolding handle dispatch repeated
  handle-pause low input c h = (
    rw (count-pause e (name_of input) c, name_of-is_paused input h) refl,
    λ t. count-pause e (touch_name t) c ∙ rw (touch_name-is_paused t) refl,
  )

  -- A controller, embedded or not, that was paused and resumed.
  pub dispatch-resumed :
      (low : Text → Text) (is_embedded : Bool) (options : InputOptions) (k : ℕ) (input : Input)
      (digits : Text)
      → same_name (name_of input) dom_mouse_scroll_event ≡ false
      → dispatch e low input
          (pause_and_resume e options k (new_controller e is_embedded options)).listeners
          digits
        ≡ repeated low input (resumed options (name_of input)) digits
  unfolding dispatch
  dispatch-resumed low is_embedded options k input digits h =
      ap (λ n. repeated low input n digits)
        (count-pause_and_resume e (name_of input) options k (new_controller e is_embedded options)
          (name_of-is_paused input h)
          (count-new_controller e (name_of input) is_embedded options (order-name_of input)))

  -- The listeners of a touch of a controller that was paused and resumed.
  touches-resumed :
      (is_embedded : Bool) (options : InputOptions) (k : ℕ) (t : TouchInput)
      → e.listener_count
          (touch_name t)
          (pause_and_resume e options k (new_controller e is_embedded options)).listeners
        ≡ resumed options (touch_name t)
  touches-resumed is_embedded options k t =
      count-pause_and_resume e (touch_name t) options k (new_controller e is_embedded options)
        (touch_name-is_paused t)
        (count-new_controller e (touch_name t) is_embedded options (order-touch_name t))

  -- However often the controller was paused and resumed, it handles an input of the keyboard or the mouse as
  -- at the start, with the same digits, unless the input is DOMMouseScroll, and it has as many listeners
  -- of each touch as at the start.
  pub dispatch-pause_and_resume :
      (low : Text → Text) (is_embedded : Bool) (options : InputOptions) (k : ℕ) (input : Input)
      (digits : Text)
      → same_name (name_of input) dom_mouse_scroll_event ≡ false
      → (dispatch e low input
            (pause_and_resume e options k (new_controller e is_embedded options)).listeners
            digits
          ≡ dispatch e low input (new_controller e is_embedded options).listeners digits)
        × ((t : TouchInput)
            → e.listener_count
                (touch_name t)
                (pause_and_resume e options k (new_controller e is_embedded options)).listeners
              ≡ e.listener_count (touch_name t) (new_controller e is_embedded options).listeners)
  unfolding pause_and_resume
  dispatch-pause_and_resume low is_embedded options k input digits h = (
    dispatch-resumed low is_embedded options k input digits h
        ∙ sym (dispatch-resumed low is_embedded options 0 input digits h),
    λ t. touches-resumed is_embedded options k t ∙ sym (touches-resumed is_embedded options 0 t),
  )

  -- Where scrolling is not turned off, a DOMMouseScroll event acts once more for each time that the
  -- controller was paused and resumed.
  pub dispatch-scroll :
      (low : Text → Text) (is_embedded : Bool) (options : InputOptions) (k : ℕ) (w d : ℤ)
      (digits : Text)
      → options.scroll ≡ true
      → dispatch e low
          (dom_mouse_scroll w d)
          (pause_and_resume e options k (new_controller e is_embedded options)).listeners
          digits
        ≡ (digits, copies (k + 1) (scroll_handler w d))
  unfolding dispatch is_paused
  dispatch-scroll low is_embedded options k w d digits h =
      let c = new_controller e is_embedded options in
      let start =
        count-new_controller e dom_mouse_scroll_event is_embedded options
          (order-name_of (dom_mouse_scroll w d)) in
      let number : e.listener_count dom_mouse_scroll_event
            (pause_and_resume e options k c).listeners
          ≡ k + 1 =
        count-pause_and_resume_others e dom_mouse_scroll_event options k c refl
        ∙ rw (start, resumed-scroll options h) (omega arith) in
      ap (λ n. repeated low (dom_mouse_scroll w d) n digits) number
      ∙ repeated-scroll low w d (k + 1) digits
