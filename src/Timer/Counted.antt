-- ===== src/Timer/Counted.antt =====
-- How much time the timer (`components/timer/timer.js`) counts, over all events that it gets.
use analisis_de_protocolo_de.Prelude.{
  ℕ, ◌+◌, ◌-◌, ◌≡◌, refl, ◌∙◌, Bool, true, false, not, ◌&&◌, ◌||◌, List, [], ◌∷◌, if◌then◌else◌,
  arith, Bool-cases, inl, inr,
}
use analisis_de_protocolo_de.Timer.{
  toggled, State, initial, running, paused, TimerOptions, Timer, tick_chronos, add_delta,
  update_state, tick, start, pause, toggle, reset, TimerEvent, start_event, start_timer,
  pause_timer, toggle_timer, reset_timer, interval, on_event, on_events,
}
use analisis_de_protocolo_de.Timer.Elapsed.{AreFrom, times}

abbrev pub is_running : State → Bool
is_running initial = false
is_running running = true
is_running paused = false

-- Whether the timer is reset by one of the events.
unfoldable pub is_reset : Bool → List (ℕ × TimerEvent) → Bool
is_reset resetable [] = false
is_reset resetable ((now, reset_timer) ∷ es) = resetable || is_reset resetable es
is_reset resetable ((now, e) ∷ es) = is_reset resetable es

-- Whether a timer runs after an event, where one that was made or reset, like one that is paused, does not.
unfoldable pub runs_after : TimerOptions → TimerEvent → Bool → Bool
runs_after options start_event r = options.start_on_change || r
runs_after options start_timer r = true
runs_after options pause_timer r = false
runs_after options toggle_timer r = not r
runs_after options reset_timer r = not options.resetable && r
runs_after options interval r = r

-- The tick before which the next one counts, behind an event.
abbrev pub mark_after : TimerOptions → ℕ → TimerEvent → ℕ → ℕ
mark_after options now interval mark = now
mark_after options now reset_timer mark = if options.resetable then now else mark
mark_after options now start_event mark = mark
mark_after options now start_timer mark = mark
mark_after options now pause_timer mark = mark
mark_after options now toggle_timer mark = mark

-- The time that a tick ends: from the one before to it, where the timer runs and is not reset later.
abbrev pub ended_by : TimerOptions → TimerEvent → Bool → ℕ → List (ℕ × TimerEvent) → ℕ
ended_by options interval r since es = if r && not (is_reset options.resetable es) then since else 0
ended_by options start_event r since es = 0
ended_by options start_timer r since es = 0
ended_by options pause_timer r since es = 0
ended_by options toggle_timer r since es = 0
ended_by options reset_timer r since es = 0

-- The time between ticks while the timer runs, since its last reset: of its options, whether it runs, and
-- its last tick.
unfoldable pub time_run : TimerOptions → Bool → ℕ → List (ℕ × TimerEvent) → ℕ
unfolding is_reset runs_after
time_run options r mark [] = 0
time_run options r mark ((now, e) ∷ es) =
    ended_by options e r (now - mark) es
    + time_run options (runs_after options e r) (mark_after options now e mark) es

elapsed-tick :
    (now : ℕ) (t : Timer)
    → (tick now t).chronos.elapsed_time
      ≡ t.chronos.elapsed_time + (if is_running t.state then now - t.chronos.current_tick else 0)
unfolding tick tick_chronos
elapsed-tick now t = by_state t.state
  where
    by_state :
        (s : State)
        → (update_state s (tick_chronos now t.chronos)).elapsed_time
          ≡ t.chronos.elapsed_time + (if is_running s then now - t.chronos.current_tick else 0)
    by_state initial = unfold update_state in omega arith
    by_state running = unfold update_state add_delta in refl
    by_state paused = unfold update_state in omega arith

current-tick : (now : ℕ) (t : Timer) → (tick now t).chronos.current_tick ≡ now
unfolding tick tick_chronos
current-tick now t = by_state t.state
  where
    by_state : (s : State) → (update_state s (tick_chronos now t.chronos)).current_tick ≡ now
    by_state initial = unfold update_state in refl
    by_state running = unfold update_state add_delta in refl
    by_state paused = unfold update_state in refl

is_running-toggled : (s : State) → is_running (toggled s) ≡ not (is_running s)
unfolding toggled
is_running-toggled initial = refl
is_running-toggled running = refl
is_running-toggled paused = refl

same_options : (now : ℕ) (e : TimerEvent) (t : Timer) → (on_event now e t).options ≡ t.options
unfolding on_event start pause toggle reset tick
same_options now start_event t = ground arith
same_options now start_timer t = refl
same_options now pause_timer t = refl
same_options now toggle_timer t = refl
same_options now reset_timer t = ground arith
same_options now interval t = refl

is_running-on_event :
    (now : ℕ) (e : TimerEvent) (t : Timer)
    → is_running (on_event now e t).state ≡ runs_after t.options e (is_running t.state)
unfolding on_event start pause toggle reset tick runs_after
is_running-on_event now start_event t = elim (Bool-cases (t.options.start_on_change)) [
  | inl u ↦ rw u refl
  | inr u ↦ rw u refl
]
is_running-on_event now start_timer t = refl
is_running-on_event now pause_timer t = refl
is_running-on_event now toggle_timer t = is_running-toggled t.state
is_running-on_event now reset_timer t = elim (Bool-cases (t.options.resetable)) [
  | inl u ↦ rw u refl
  | inr u ↦ rw u refl
]
is_running-on_event now interval t = refl

mark-on_event :
    (now : ℕ) (e : TimerEvent) (t : Timer)
    → (on_event now e t).chronos.current_tick ≡ mark_after t.options now e t.chronos.current_tick
unfolding on_event start pause toggle reset
mark-on_event now start_event t = elim (Bool-cases (t.options.start_on_change)) [
  | inl u ↦ rw u refl
  | inr u ↦ rw u refl
]
mark-on_event now start_timer t = refl
mark-on_event now pause_timer t = refl
mark-on_event now toggle_timer t = refl
mark-on_event now reset_timer t = elim (Bool-cases (t.options.resetable)) [
  | inl u ↦ rw u refl
  | inr u ↦ rw u refl
]
mark-on_event now interval t = current-tick now t

elapsed-reset :
    (now : ℕ) (t : Timer)
    → (if t.options.resetable then reset now t else t).chronos.elapsed_time
      ≡ (if t.options.resetable then 0 else t.chronos.elapsed_time)
unfolding reset
elapsed-reset now t = ground arith

reset_sum :
    (b r : Bool) (x : ℕ) → (if r then 0 else if b then 0 else x) ≡ (if b || r then 0 else x) + 0
reset_sum b r x = ground arith

-- What an event does to the time counted, seen from the end of the further events.
elapsed-on_event :
    (now : ℕ) (e : TimerEvent) (t : Timer) (es : List (ℕ × TimerEvent))
    → (if is_reset t.options.resetable es then 0 else (on_event now e t).chronos.elapsed_time)
      ≡ (if is_reset t.options.resetable ((now, e) ∷ es) then 0 else t.chronos.elapsed_time)
        + ended_by t.options e (is_running t.state) (now - t.chronos.current_tick) es
unfolding on_event start pause toggle reset is_reset
elapsed-on_event now start_event t es = elim (Bool-cases (t.options.start_on_change)) [
  | inl u ↦ rw u (omega arith)
  | inr u ↦ rw u (omega arith)
]
elapsed-on_event now start_timer t es = omega arith
elapsed-on_event now pause_timer t es = omega arith
elapsed-on_event now toggle_timer t es = omega arith
elapsed-on_event now reset_timer t es =
    rw (elapsed-reset now t)
      (reset_sum t.options.resetable (is_reset t.options.resetable es) t.chronos.elapsed_time)
elapsed-on_event now interval t es =
    rw (elapsed-tick now t) (elim (Bool-cases (is_reset t.options.resetable es)) [
      | inl v ↦ elim (Bool-cases (is_running t.state)) [
        | inl u ↦ rw (v, u) refl
        | inr u ↦ rw (v, u) refl
      ]
      | inr v ↦ elim (Bool-cases (is_running t.state)) [
        | inl u ↦ rw (v, u) refl
        | inr u ↦ rw (v, u) refl
      ]
    ])

elapsed_of :
    (es : List (ℕ × TimerEvent)) (t : Timer)
    → (on_events es t).chronos.elapsed_time
      ≡ (if is_reset t.options.resetable es then 0 else t.chronos.elapsed_time)
        + time_run t.options (is_running t.state) t.chronos.current_tick es
unfolding on_events time_run
elapsed_of [] t = unfold is_reset in omega arith
elapsed_of ((now, e) ∷ es) t =
    elapsed_of es (on_event now e t)
    ∙ rw
        (
          same_options now e t,
          is_running-on_event now e t,
          mark-on_event now e t,
          elapsed-on_event now e t es,
        )
        (omega arith)

-- Whatever events reach a timer, at times that do not go back, it has counted exactly the times between
-- consecutive ticks at which it runs, since it was last reset: it runs from a start, or from a toggle while it
-- does not run, to a pause, a toggle or a reset. Where it is not reset, what it had counted before is added.
pub elapsed-on_events :
    (es : List (ℕ × TimerEvent)) (t : Timer)
    → AreFrom t.chronos.current_tick (times es)
    → (on_events es t).chronos.elapsed_time
      ≡ (if is_reset t.options.resetable es then 0 else t.chronos.elapsed_time)
        + time_run t.options (is_running t.state) t.chronos.current_tick es
elapsed-on_events es t h = elapsed_of es t
