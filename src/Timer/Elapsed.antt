-- ===== src/Timer/Elapsed.antt =====
-- The time that the timer has counted is within the time of the clock.
use analisis_de_protocolo_de.Prelude.{ℕ, ◌+◌, ◌≤◌, List, [], ◌∷◌, arith, Bool-cases, inl, inr}
use analisis_de_protocolo_de.Timer.{
  Chronos, State, initial, running, paused, TimerOptions, Timer, new_chronos, tick_chronos,
  add_delta, update_state, tick, start, pause, toggle, reset, new_timer, TimerEvent, start_event,
  start_timer, pause_timer, toggle_timer, reset_timer, interval, on_event, on_events,
}

-- Times that do not go back, from one on.
abbrev pub AreFrom : ℕ → List ℕ → Type 0
AreFrom now [] = Unit
AreFrom now (t ∷ ts) = (now ≤ t) × AreFrom t ts

abbrev pub times : List (ℕ × TimerEvent) → List ℕ
times [] = []
times ((now, e) ∷ es) = now ∷ times es

abbrev pub last_time : ℕ → List ℕ → ℕ
last_time now [] = now
last_time now (t ∷ ts) = last_time t ts

-- The stopwatch was reset at `from` or later, and has counted no more than the time since then.
pub record IsWithin (from now : ℕ) (c : Chronos) : Type 0 where
  pub counted : c.elapsed_time + from ≤ c.current_tick
  pub ordered : c.last_tick ≤ c.current_tick
  pub past : c.current_tick ≤ now

tick-IsWithin :
    (from now now' : ℕ) (t : Timer)
    → from ≤ now
    → now ≤ now'
    → IsWithin from now t.chronos
    → IsWithin from now' (tick now' t).chronos
unfolding tick tick_chronos
tick-IsWithin from now now' t f h w = by_state t.state
  where
    by_state : (s : State) → IsWithin from now' (update_state s (tick_chronos now' t.chronos))
    by_state initial =
        unfold update_state in
        record {
          counted = omega (arith, w.counted, w.past);
          ordered = omega (arith, w.past);
          past = omega arith;
        }
    by_state running =
        unfold update_state add_delta in
        record {
          counted = omega (arith, w.counted, w.past);
          ordered = omega (arith, w.past);
          past = omega arith;
        }
    by_state paused =
        unfold update_state in
        record {
          counted = omega (arith, w.counted, w.past);
          ordered = omega (arith, w.past);
          past = omega arith;
        }

later-IsWithin :
    (from now now' : ℕ) (c : Chronos) → now ≤ now' → IsWithin from now c → IsWithin from now' c
later-IsWithin from now now' c h w = record {
  counted = w.counted;
  ordered = w.ordered;
  past = omega (arith, w.past);
}

reset-IsWithin : (from now : ℕ) → from ≤ now → IsWithin from now (new_chronos now)
reset-IsWithin from now h = record {
  counted = omega arith;
  ordered = omega arith;
  past = omega arith;
}

on_event-IsWithin :
    (from now now' : ℕ) (e : TimerEvent) (t : Timer)
    → from ≤ now
    → now ≤ now'
    → IsWithin from now t.chronos
    → IsWithin from now' (on_event now' e t).chronos
unfolding on_event start pause toggle reset
on_event-IsWithin from now now' start_event t f h w =
    elim (Bool-cases (t.options.start_on_change)) [
      | inl u ↦ rw u (later-IsWithin from now now' t.chronos h w)
      | inr u ↦ rw u (later-IsWithin from now now' t.chronos h w)
    ]
on_event-IsWithin from now now' start_timer t f h w = later-IsWithin from now now' t.chronos h w
on_event-IsWithin from now now' pause_timer t f h w = later-IsWithin from now now' t.chronos h w
on_event-IsWithin from now now' toggle_timer t f h w = later-IsWithin from now now' t.chronos h w
on_event-IsWithin from now now' reset_timer t f h w = elim (Bool-cases (t.options.resetable)) [
  | inl u ↦ rw u (reset-IsWithin from now' (omega arith))
  | inr u ↦ rw u (later-IsWithin from now now' t.chronos h w)
]
on_event-IsWithin from now now' interval t f h w = tick-IsWithin from now now' t f h w

on_events-IsWithin_from :
    (from now : ℕ) (es : List (ℕ × TimerEvent)) (t : Timer)
    → from ≤ now
    → AreFrom now (times es)
    → IsWithin from now t.chronos
    → IsWithin from (last_time now (times es)) (on_events es t).chronos
unfolding on_events
on_events-IsWithin_from from now [] t f h w = w
on_events-IsWithin_from from now ((now', e) ∷ es) t f h w =
    on_events-IsWithin_from from now' es (on_event now' e t) (omega (arith, h.0)) h.1
      (on_event-IsWithin from now now' e t f h.0 w)

-- Whatever events reach a timer, at times that do not go back, it has counted no more than the time
-- from its creation to its last tick, which is not after the last event.
pub on_events-IsWithin :
    (now : ℕ) (options : TimerOptions) (es : List (ℕ × TimerEvent))
    → AreFrom now (times es)
    → IsWithin now (last_time now (times es)) (on_events es (new_timer now options)).chronos
unfolding new_timer
on_events-IsWithin now options es h =
    on_events-IsWithin_from now now es (new_timer now options) (omega arith) h
      (unfold reset in reset-IsWithin now now (omega arith))
