-- ===== src/Timer.antt =====
-- The timer (`components/timer/timer.js`): its stopwatch, its three states, and the events that it
-- listens to. The time of day is an argument, in milliseconds; intervals call `tick`.
pub mod Format
pub mod Elapsed
pub mod Counted
pub mod Tests
use analisis_de_protocolo_de.Prelude.{ℕ, ◌+◌, ◌-◌, Bool, true, false, List, [], ◌∷◌, if◌then◌else◌}
use analisis_de_protocolo_de.Prelude.Text.{Text}
use Format.{default_formatter}

pub record Chronos : Type 0 where
  pub current_tick : ℕ
  pub last_tick : ℕ
  pub elapsed_time : ℕ

-- The identifiers of the three states.
pub data State : Type 0 where
  initial running paused : State

-- `options` with its defaults
pub record TimerOptions : Type 0 where
  pub enabled : Bool
  pub resetable : Bool
  pub start_on_change : Bool
  pub formatter : ℕ → Text

abbrev pub default_options : TimerOptions
default_options = record {
  enabled = true;
  resetable = true;
  start_on_change = true;
  formatter = default_formatter;
}

-- The view model, with the `innerHTML` of its element.
pub record Timer : Type 0 where
  pub options : TimerOptions
  pub chronos : Chronos
  pub state : State
  pub shown : Text

-- new Chronos(), at the time `now`
abbrev pub new_chronos : ℕ → Chronos
new_chronos now = record { current_tick = now; last_tick = now; elapsed_time = 0 }

-- Chronos.prototype.tick
unfoldable pub tick_chronos : ℕ → Chronos → Chronos
tick_chronos now c = record c { last_tick = c.current_tick; current_tick = now }

-- Chronos.prototype.addDelta; a clock that is not set back
unfoldable pub add_delta : Chronos → Chronos
add_delta c = record c { elapsed_time = c.elapsed_time + (c.current_tick - c.last_tick) }

-- The updater of a state.
unfoldable pub update_state : State → Chronos → Chronos
unfolding add_delta
update_state initial c = c
update_state running c = add_delta c
update_state paused c = c

-- TimerView.prototype.update: what the element shows
unfoldable pub update_view : TimerOptions → ℕ → Text
update_view options elapsed_time = if options.enabled then options.formatter elapsed_time else []

-- TimerViewModel.prototype.tick
unfoldable pub tick : ℕ → Timer → Timer
unfolding tick_chronos update_state update_view
tick now t =
    let chronos = update_state t.state (tick_chronos now t.chronos) in
    record t { chronos = chronos; shown = update_view t.options chronos.elapsed_time }

unfoldable pub start : Timer → Timer
start t = record t { state = running }

unfoldable pub pause : Timer → Timer
pause t = record t { state = paused }

unfoldable pub toggled : State → State
toggled initial = running
toggled running = paused
toggled paused = running

unfoldable pub toggle : Timer → Timer
unfolding toggled
toggle t = record t { state = toggled t.state }

-- The new view leaves the element's content as it is.
unfoldable pub reset : ℕ → Timer → Timer
reset now t = record t { chronos = new_chronos now; state = initial }

unfoldable pub new_timer : ℕ → TimerOptions → Timer
unfolding reset
new_timer now options =
    reset now (record { options = options; chronos = new_chronos now; state = initial; shown = [] })

-- The events that the timer listens to; `start_event` is that of a first move.
pub data TimerEvent : Type 0 where
  start_event start_timer pause_timer toggle_timer : TimerEvent
  reset_timer : TimerEvent
  interval : TimerEvent

-- One event, at a time of day.
unfoldable pub on_event : ℕ → TimerEvent → Timer → Timer
unfolding start pause toggle reset tick
on_event now start_event t = if t.options.start_on_change then start t else t
on_event now start_timer t = start t
on_event now pause_timer t = pause t
on_event now toggle_timer t = toggle t
on_event now reset_timer t = if t.options.resetable then reset now t else t
on_event now interval t = tick now t

-- Events with their times, the first first.
unfoldable pub on_events : List (ℕ × TimerEvent) → Timer → Timer
on_events [] t = t
on_events ((now, e) ∷ es) t = on_events es (on_event now e t)
