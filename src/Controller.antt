-- ===== src/Controller.antt =====
-- The default controller (module 7 of the bundle, `controllers/defaultController.js`): the listeners
-- of the inputs, of which `pause` takes those of the keyboard, the mouse and touches away and `resume` adds
-- again. The registry of listeners is the interface of Controller/Listeners.
pub mod Listeners
pub mod Keyboard
pub mod Mouse
pub mod Bus
pub mod Touch
pub mod Calls
pub mod Gestures
pub mod Removals
pub mod Counts
pub mod Pausing
pub mod Typing
pub mod Decimal
pub mod Location
pub mod Numbers
pub mod Sync
pub mod Clone
pub mod Agree
pub mod Listed
pub mod Tests
use analisis_de_protocolo_de.Prelude.{
  ℕ, zero, suc, Bool, true, false, List, [], ◌∷◌, ◌++◌, ◌==◌, if◌then◌else◌,
}
use analisis_de_protocolo_de.Prelude.Text.{Text}
use analisis_de_protocolo_de.Prelude.Int.{ℤ}
use Listeners.{
  EventName, keydown_event, keypress_event, click_event, contextmenu_event, mousewheel_event,
  dom_mouse_scroll_event, touchstart_event, touchend_event, touchmove_event, message_event,
  hashchange_event, slide_changed_event, toggled_presenter_event, pause_event, resume_event,
  Emitter,
}
use Keyboard.{Emitted, Modifiers, on_keydown, on_keypress}
use Mouse.{on_click, on_contextmenu, scroll_handler}

pub data Input : Type 0 where
  keydown : Modifiers → ℕ → Input
  keypress : Modifiers → ℕ → Input
  click : Bool → ℕ → Input
  contextmenu : Bool → Input
  mousewheel : ℤ → ℤ → Input
  dom_mouse_scroll : ℤ → ℤ → Input

abbrev pub name_of : Input → EventName
name_of (keydown m c) = keydown_event
name_of (keypress m c) = keypress_event
name_of (click l b) = click_event
name_of (contextmenu l) = contextmenu_event
name_of (mousewheel w d) = mousewheel_event
name_of (dom_mouse_scroll w d) = dom_mouse_scroll_event

-- `options.click` is truthy, and `options.scroll` and `options.touch` are not false
pub record InputOptions : Type 0 where
  pub click : Bool
  pub scroll : Bool
  pub touch : Bool

-- What one listener of the input's event does.
unfoldable pub react : (Text → Text) → Input → Text → Text × List Emitted
unfolding on_keydown on_keypress on_click on_contextmenu scroll_handler
react low (keydown m key_code) digits = on_keydown m key_code digits
react low (keypress m which) digits = on_keypress low m which digits
react low (click is_link button) digits = (digits, on_click is_link button)
react low (contextmenu is_link) digits = (digits, on_contextmenu is_link)
react low (mousewheel w d) digits = (digits, scroll_handler w d)
react low (dom_mouse_scroll w d) digits = (digits, scroll_handler w d)

-- What as many listeners of the event do, one after the other.
unfoldable pub repeated : (Text → Text) → Input → ℕ → Text → Text × List Emitted
unfolding react
repeated low input zero digits = (digits, [])
repeated low input (suc n) digits =
    let (digits', emitted) = react low input digits in
    let (digits'', further) = repeated low input n digits' in (digits'', emitted ++ further)

module _ (e : Emitter) where
  open e use {Registry, no_listeners, on, remove_all_listeners, listener_count}

  -- The keyboard's digits, and the listeners.
  pub record Controller : Type 0 where
    pub digits : Text
    pub listeners : Registry

  -- Keyboard.prototype.addKeyboardEventListeners
  unfoldable pub add_keyboard_event_listeners : Registry → Registry
  add_keyboard_event_listeners r = on keypress_event (on keydown_event r)

  -- Keyboard.prototype.removeKeyboardEventListeners
  unfoldable pub remove_keyboard_event_listeners : Registry → Registry
  remove_keyboard_event_listeners r =
      remove_all_listeners keypress_event (remove_all_listeners keydown_event r)

  -- addMouseEventListeners
  unfoldable pub add_mouse_event_listeners : InputOptions → Registry → Registry
  add_mouse_event_listeners options r =
      let clicks = if options.click then on contextmenu_event (on click_event r) else r in
      if options.scroll then on dom_mouse_scroll_event (on mousewheel_event clicks) else clicks

  -- removeMouseEventListeners
  unfoldable pub remove_mouse_event_listeners : Registry → Registry
  remove_mouse_event_listeners r =
      remove_all_listeners mousewheel_event
        (remove_all_listeners contextmenu_event (remove_all_listeners click_event r))

  -- addTouchEventListeners
  unfoldable pub add_touch_event_listeners : InputOptions → Registry → Registry
  add_touch_event_listeners options r =
      if options.touch then on touchmove_event (on touchend_event (on touchstart_event r)) else r

  -- removeTouchEventListeners
  unfoldable pub remove_touch_event_listeners : Registry → Registry
  remove_touch_event_listeners r =
      remove_all_listeners touchmove_event
        (remove_all_listeners touchend_event (remove_all_listeners touchstart_event r))

  -- addLocationEventListeners
  unfoldable pub add_location_event_listeners : Bool → Registry → Registry
  add_location_event_listeners is_embedded r =
      if is_embedded
      then r
      else on toggled_presenter_event (on slide_changed_event (on hashchange_event r))

  -- Keyboard.prototype.activate
  unfoldable pub activate : Controller → Controller
  unfolding add_keyboard_event_listeners
  activate c = record { digits = []; listeners = add_keyboard_event_listeners c.listeners }

  -- Keyboard.prototype.deactivate
  unfoldable pub deactivate : Controller → Controller
  unfolding remove_keyboard_event_listeners
  deactivate c = record c { listeners = remove_keyboard_event_listeners c.listeners }

  -- The listeners of `pause` and `resume`.
  unfoldable pub pause : Controller → Controller
  unfolding deactivate remove_mouse_event_listeners remove_touch_event_listeners
  pause c =
      let c' = deactivate c in
      record c' {
        listeners = remove_touch_event_listeners (remove_mouse_event_listeners c'.listeners);
      }

  unfoldable pub resume : InputOptions → Controller → Controller
  unfolding activate add_mouse_event_listeners add_touch_event_listeners
  resume options c =
      let c' = activate c in
      record c' {
        listeners =
            add_touch_event_listeners options (add_mouse_event_listeners options c'.listeners);
      }

  -- new Controller(events, dom, slideshowView, options), with the listeners that it adds
  unfoldable pub new_controller : Bool → InputOptions → Controller
  unfolding activate add_location_event_listeners add_mouse_event_listeners
      add_touch_event_listeners
  new_controller is_embedded options =
      let c = activate (record { digits = []; listeners = no_listeners }) in
      let located = add_location_event_listeners is_embedded (on message_event c.listeners) in
      let inputs = add_touch_event_listeners options (add_mouse_event_listeners options located) in
      record c { listeners = on resume_event (on pause_event inputs) }

  -- An input event.
  unfoldable pub dispatch : (Text → Text) → Input → Registry → Text → Text × List Emitted
  unfolding repeated
  dispatch low input r digits = repeated low input (listener_count (name_of input) r) digits

  unfoldable pub handle : (Text → Text) → Input → Controller → Controller × List Emitted
  unfolding dispatch
  handle low input c =
      let (digits, emitted) = dispatch low input c.listeners c.digits in
      (record c { digits = digits }, emitted)

  -- `pause` and then `resume`, some times.
  unfoldable pub pause_and_resume : InputOptions → ℕ → Controller → Controller
  unfolding pause resume
  pause_and_resume options zero c = c
  pause_and_resume options (suc n) c = pause_and_resume options n (resume options (pause c))
