-- ===== src/Controller/Touch.antt =====
-- Touches (module 12 of the bundle, `controllers/inputs/touch.js`), and the listener of `tap` of
-- `views/slideshowView.js`. A coordinate is counted in parts of a pixel, `unit` of them in each, and
-- is absent before the first touch.
use analisis_de_protocolo_de.Prelude.{
  ℕ, ◌+◌, ◌-◌, ◌*◌, ltb, Bool, true, false, Option, none, some, List, [], ◌∷◌, ◌++◌, if◌then◌else◌,
}
use analisis_de_protocolo_de.Prelude.Int.{ℤ, pos, negsuc}
use analisis_de_protocolo_de.Controller.Listeners.{
  EventName, touchstart_event, touchend_event, touchmove_event,
}
use analisis_de_protocolo_de.Controller.Keyboard.{
  Emitted, goto_previous_slide, goto_next_slide, prevent_default,
}

-- x < y
unfoldable pub less : ℤ → ℤ → Bool
less (pos a) (pos b) = ltb a b
less (pos a) (negsuc b) = false
less (negsuc a) (pos b) = true
less (negsuc a) (negsuc b) = ltb b a

-- Math.abs(x - y)
unfoldable pub distance : ℤ → ℤ → ℕ
distance (pos a) (pos b) = (a - b) + (b - a)
distance (pos a) (negsuc b) = a + b + 1
distance (negsuc a) (pos b) = a + b + 1
distance (negsuc a) (negsuc b) = (a - b) + (b - a)

pub data TouchInput : Type 0 where
  touch_start : ℤ → TouchInput
  -- whether the target is a link, and the coordinate of the changed touch
  touch_end : Bool → ℤ → TouchInput
  touch_move : TouchInput

pub record Touch : Type 0 where
  pub start_x : Option ℤ
  pub end_x : Option ℤ

-- The event of a touch.
abbrev pub touch_name : TouchInput → EventName
touch_name (touch_start x) = touchstart_event
touch_name (touch_end is_link x) = touchend_event
touch_name touch_move = touchmove_event

abbrev pub no_touch : Touch
no_touch = record { start_x = none; end_x = none }

-- isTap
unfoldable pub is_tap : ℕ → Option ℤ → ℤ → Bool
unfolding distance
is_tap unit none end_x = false
is_tap unit (some x) end_x = ltb (distance x end_x) (10 * unit)

-- The listener of `tap` in the slide show view: endX < clientWidth / 2
unfoldable pub on_tap : ℕ → ℕ → ℤ → List Emitted
unfolding less
on_tap unit client_width (pos x) =
    (if ltb (2 * x) (client_width * unit) then goto_previous_slide else goto_next_slide) ∷ []
on_tap unit client_width (negsuc x) = goto_previous_slide ∷ []

-- handleSwipe
unfoldable pub handle_swipe : Option ℤ → ℤ → List Emitted
unfolding less
handle_swipe none end_x = goto_previous_slide ∷ []
handle_swipe (some x) end_x = (if less end_x x then goto_next_slide else goto_previous_slide) ∷ []

-- The listeners that addTouchEventListeners adds, where `options.touch` is not false.
unfoldable pub on_touch : ℕ → ℕ → TouchInput → Touch → Touch × List Emitted
unfolding is_tap on_tap handle_swipe
on_touch unit client_width (touch_start x) t = (record t { start_x = some x }, [])
on_touch unit client_width (touch_end true x) t = (t, [])
on_touch unit client_width (touch_end false x) t = (
  record t { end_x = some x },
  (if is_tap unit t.start_x x then on_tap unit client_width x else handle_swipe t.start_x x),
)
on_touch unit client_width touch_move t = (t, prevent_default ∷ [])

unfoldable pub on_touches : ℕ → ℕ → List TouchInput → Touch → Touch × List Emitted
unfolding on_touch
on_touches unit client_width [] t = (t, [])
on_touches unit client_width (i ∷ is) t =
    let (t', emitted) = on_touch unit client_width i t in
    let (t'', further) = on_touches unit client_width is t' in (t'', emitted ++ further)

-- A finger that is put down at x and lifted at y.
abbrev pub gesture : ℤ → ℤ → List TouchInput
gesture x y = touch_start x ∷ (touch_end false y ∷ [])
