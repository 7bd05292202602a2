-- ===== src/Controller/Listeners.antt =====
-- What the controller uses of the bundled EventEmitter, as an interface: the listeners that are registered
-- are counted for each event, as `listenerCount` documents it. All listeners that the controller
-- registers for one event are the same function.
use analisis_de_protocolo_de.Prelude.{ℕ, ◌+◌, ◌≡◌, Bool, ◌==◌, if◌then◌else◌}

-- The events that the controller registers listeners for.
pub data EventName : Type 0 where
  keydown_event keypress_event click_event contextmenu_event mousewheel_event : EventName
  dom_mouse_scroll_event touchstart_event touchend_event touchmove_event message_event : EventName
  hashchange_event slide_changed_event toggled_presenter_event pause_event resume_event : EventName

abbrev pub order : EventName → ℕ
order keydown_event = 0
order keypress_event = 1
order click_event = 2
order contextmenu_event = 3
order mousewheel_event = 4
order dom_mouse_scroll_event = 5
order touchstart_event = 6
order touchend_event = 7
order touchmove_event = 8
order message_event = 9
order hashchange_event = 10
order slide_changed_event = 11
order toggled_presenter_event = 12
order pause_event = 13
order resume_event = 14

unfoldable pub same_name : EventName → EventName → Bool
same_name a b = order a == order b

pub record Emitter : Type 1 where
  pub Registry : Type 0
  -- new EventEmitter()
  pub no_listeners : Registry
  -- events.on(name, listener) and events.removeAllListeners(name)
  pub on : EventName → Registry → Registry
  pub remove_all_listeners : EventName → Registry → Registry
  pub listener_count : EventName → Registry → ℕ
  pub count-no_listeners : (n : EventName) → listener_count n no_listeners ≡ 0
  pub count-on :
      (n m : EventName) (r : Registry)
      → listener_count n (on m r)
        ≡ (if same_name m n then listener_count n r + 1 else listener_count n r)
  pub count-remove_all_listeners :
      (n m : EventName) (r : Registry)
      → listener_count n (remove_all_listeners m r)
        ≡ (if same_name m n then 0 else listener_count n r)
