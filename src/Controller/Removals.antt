-- ===== src/Controller/Removals.antt =====
-- The events whose listeners `pause` takes away, and how many listeners `resume` adds for each.
use analisis_de_protocolo_de.Prelude.{
  ℕ, ◌+◌, ◌≤◌, ◌<◌, ==_iff, ◌≡◌, refl, sym, Bool, true, false, if◌then◌else◌, arith,
}
use analisis_de_protocolo_de.Controller.Listeners.{
  EventName, keydown_event, keypress_event, click_event, contextmenu_event, mousewheel_event,
  dom_mouse_scroll_event, touchstart_event, touchend_event, touchmove_event, message_event,
  hashchange_event, slide_changed_event, toggled_presenter_event, pause_event, resume_event, order,
  same_name,
}
use analisis_de_protocolo_de.Controller.{
  Input, keydown, keypress, click, contextmenu, mousewheel, dom_mouse_scroll, name_of, InputOptions,
}
use analisis_de_protocolo_de.Controller.Touch.{
  TouchInput, touch_start, touch_end, touch_move, touch_name,
}

-- The events whose listeners `pause` takes away.
unfoldable pub is_paused : EventName → Bool
is_paused keydown_event = true
is_paused keypress_event = true
is_paused click_event = true
is_paused contextmenu_event = true
is_paused mousewheel_event = true
is_paused dom_mouse_scroll_event = false
is_paused touchstart_event = true
is_paused touchend_event = true
is_paused touchmove_event = true
is_paused message_event = false
is_paused hashchange_event = false
is_paused slide_changed_event = false
is_paused toggled_presenter_event = false
is_paused pause_event = false
is_paused resume_event = false

-- An input is paused, unless it is DOMMouseScroll.
pub name_of-is_paused :
    (input : Input)
    → same_name (name_of input) dom_mouse_scroll_event ≡ false
    → is_paused (name_of input) ≡ true
unfolding is_paused same_name
name_of-is_paused (keydown m c) h = refl
name_of-is_paused (keypress m c) h = refl
name_of-is_paused (click l b) h = refl
name_of-is_paused (contextmenu l) h = refl
name_of-is_paused (mousewheel w d) h = refl
name_of-is_paused (dom_mouse_scroll w d) h = sym h

-- What the order of the removals comes to.
pub removals :
    (n : EventName) (k : ℕ)
    → (if same_name touchmove_event n
        then 0
        else if same_name touchend_event n
        then 0
        else if same_name touchstart_event n
        then 0
        else if same_name mousewheel_event n
        then 0
        else if same_name contextmenu_event n
        then 0
        else if same_name click_event n
        then 0
        else if same_name keypress_event n
        then 0
        else if same_name keydown_event n
        then 0
        else k)
      ≡ (if is_paused n then 0 else k)
unfolding same_name is_paused
removals keydown_event k = refl
removals keypress_event k = refl
removals click_event k = refl
removals contextmenu_event k = refl
removals mousewheel_event k = refl
removals dom_mouse_scroll_event k = refl
removals touchstart_event k = refl
removals touchend_event k = refl
removals touchmove_event k = refl
removals message_event k = refl
removals hashchange_event k = refl
removals slide_changed_event k = refl
removals toggled_presenter_event k = refl
removals pause_event k = refl
removals resume_event k = refl

-- What one registration adds to the count of an event.
unfoldable pub adds : EventName → EventName → ℕ
adds m n = if same_name m n then 1 else 0

-- What `resume` adds to it.
unfoldable pub resumed : InputOptions → EventName → ℕ
unfolding adds
resumed o n =
    (adds keydown_event n + adds keypress_event n)
    + (if o.click then adds click_event n + adds contextmenu_event n else 0)
    + (if o.scroll then adds mousewheel_event n + adds dom_mouse_scroll_event n else 0)
    + (if o.touch
        then adds touchstart_event n + adds touchend_event n + adds touchmove_event n
        else 0)

-- The events of the keyboard, the mouse and touches are the first nine.
pub no_input : (n m : EventName) → order n < 9 → 9 ≤ order m → adds m n ≡ 0
unfolding adds same_name
no_input n m l h = ground (arith, l, h, ==_iff (order m) (order n))

pub order-name_of : (i : Input) → order (name_of i) < 9
order-name_of (keydown a c) = omega arith
order-name_of (keypress a c) = omega arith
order-name_of (click l b) = omega arith
order-name_of (contextmenu l) = omega arith
order-name_of (mousewheel w d) = omega arith
order-name_of (dom_mouse_scroll w d) = omega arith

pub order-touch_name : (t : TouchInput) → order (touch_name t) < 9
order-touch_name (touch_start x) = omega arith
order-touch_name (touch_end is_link x) = omega arith
order-touch_name touch_move = omega arith

pub touch_name-is_paused : (t : TouchInput) → is_paused (touch_name t) ≡ true
unfolding is_paused
touch_name-is_paused (touch_start x) = refl
touch_name-is_paused (touch_end is_link x) = refl
touch_name-is_paused touch_move = refl
