-- ===== src/Timer/Tests.antt =====
-- A timer at work, and the theorems at it.
use analisis_de_protocolo_de.Prelude.{
  ℕ, ◌+◌, ◌*◌, ◌/◌, ◌<◌, ◌≡◌, refl, List, [], ◌∷◌, ◌++◌, if◌then◌else◌, arith,
}
use analisis_de_protocolo_de.Prelude.Text.{codes}
use analisis_de_protocolo_de.Prelude.Number.{decimal}
use analisis_de_protocolo_de.Timer.{
  Timer, TimerEvent, start_event, pause_timer, reset_timer, toggle_timer, interval, default_options,
  new_timer, start, on_event, on_events,
}
use analisis_de_protocolo_de.Timer.Format.{default_formatter, two_digits, default_formatter-parts}
use analisis_de_protocolo_de.Timer.Elapsed.{IsWithin, times, last_time, on_events-IsWithin}
use analisis_de_protocolo_de.Timer.Counted.{is_running, is_reset, time_run, elapsed-on_events}

-- Started with the first move, paused for a second, and started again.
abbrev events : List (ℕ × TimerEvent)
events =
    (1000, start_event)
    ∷ (1100, interval)
    ∷ (1150, pause_timer)
    ∷ (2100, interval)
    ∷ (2150, toggle_timer)
    ∷ (2200, interval)
    ∷ []

test_elapsed : (on_events events (new_timer 1000 default_options)).chronos.elapsed_time ≡ 200
unfolding on_events on_event new_timer
test_elapsed = refl

test_shown : (on_events events (new_timer 1000 default_options)).shown ≡ codes "0:00:00"
unfolding on_events on_event new_timer default_formatter
test_shown = refl

test_format : default_formatter 7_384_999 ≡ codes "2:03:04"
unfolding default_formatter
test_format = refl

default_formatter-parts_example :
    (hours minutes seconds : ℕ) × (default_formatter 7_384_999
      ≡ decimal hours ++ (codes ":" ++ (two_digits minutes ++ (codes ":" ++ two_digits seconds))))
    × (hours * 3600 + minutes * 60 + seconds ≡ 7_384_999 / 1000)
    × (minutes < 60)
    × (seconds < 60)
default_formatter-parts_example = default_formatter-parts 7_384_999

on_events-IsWithin_example :
    IsWithin 1000
      (last_time 1000 (times events))
      (on_events events (new_timer 1000 default_options)).chronos
on_events-IsWithin_example = on_events-IsWithin 1000 default_options events (omega arith)

-- From the start on, with a toggle, a reset and a second start.
abbrev further : List (ℕ × TimerEvent)
further =
    (1100, interval)
    ∷ (1150, toggle_timer)
    ∷ (1200, reset_timer)
    ∷ (1300, toggle_timer)
    ∷ (1400, interval)
    ∷ (1450, interval)
    ∷ []

abbrev started : Timer
started = start (new_timer 1000 default_options)

test_reset : (on_events further started).chronos.elapsed_time ≡ 250
unfolding on_events start new_timer on_event
test_reset = refl

elapsed-on_events_example :
    (on_events further started).chronos.elapsed_time
    ≡ (if is_reset started.options.resetable further then 0 else started.chronos.elapsed_time)
      + time_run started.options (is_running started.state) started.chronos.current_tick further
unfolding start new_timer
elapsed-on_events_example = elapsed-on_events further started (omega arith)
