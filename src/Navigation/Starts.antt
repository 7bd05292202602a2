-- ===== src/Navigation/Starts.antt =====
-- How often navigation emits the event `start`.
use analisis_de_protocolo_de.Prelude.{
  ℕ, suc, ◌+◌, ◌≤◌, ◌≡◌, refl, ap, Bool, true, false, some, List, [], ◌∷◌, ◌++◌, arith, Bool-cases,
  Option-cases, inl, inr, ◌⊎◌, All,
}
use analisis_de_protocolo_de.Prelude.Text.{Text}
use analisis_de_protocolo_de.Prelude.Int.{pos}
use analisis_de_protocolo_de.Prelude.Number.{Number, int, plus_one, is_same, parse_int}
use analisis_de_protocolo_de.Slide.{Slide}
use analisis_de_protocolo_de.Slideshow.{Building}
use analisis_de_protocolo_de.Navigation.{
  Navigation, Event, start, show_slide, slide_changed, slide_out_of_range, hide_events,
  start_events, next_started, messages, goto_slide_by_index, get_slides_by_number, get_slide_count,
  get_slide_index, goto_slide, goto_slide_number, Command, goto, goto_number, previous, next, first,
  last, create_clone, reset_timer, perform, run, is_open, Started, not_shown, shown, moved, Target,
  slide_no, slide_name,
}

-- The number of events `start`.
pub starts : List Event → ℕ
starts [] = 0
starts (start ∷ es) = suc (starts es)
starts (e ∷ es) = starts es

starts-append : (es fs : List Event) → starts (es ++ fs) ≡ starts es + starts fs
unfolding starts
starts-append [] fs = omega arith
starts-append (start ∷ es) fs = omega (arith, starts-append es fs)
starts-append (_ ∷ es) fs = starts-append es fs

-- How often `start` can still be emitted.
abbrev remaining : Started → ℕ
remaining not_shown = 1
remaining shown = 1
remaining moved = 0

starts-messages : (b : Bool) (nav : Navigation) (i : Number) → starts (messages b nav i) ≡ 0
unfolding starts messages
starts-messages true nav i = refl
starts-messages false nav i = ground arith

starts_shown :
    (i : Number) (es : List Event)
    → starts (show_slide i ∷ slide_changed (plus_one i) ∷ es) ≡ starts es
unfolding starts
starts_shown i es = refl

starts-get_slide_index : (slides : Building) (t : Target) → starts (get_slide_index slides t).1 ≡ 0
unfolding starts get_slide_index
starts-get_slide_index slides (slide_no n) = refl
starts-get_slide_index slides (slide_name t) = ground arith

-- Going to a number changes nothing, or goes to an index.
goto_slide_number-cases :
    (slides : Building) (n : Text) (no_message : Bool) (nav : Navigation)
    → (goto_slide_number slides n no_message nav ≡ (nav, []))
      ⊎ ((i : Number) × (goto_slide_number slides n no_message nav
            ≡ goto_slide_by_index (get_slide_count slides) i no_message nav))
unfolding goto_slide_number
goto_slide_number-cases slides n no_message nav =
    elim (Option-cases (get_slides_by_number slides (parse_int n))) [
      | inl e ↦ inl (rw (e, goto_slide_number))
      | inr (ss, e) ↦ by_first ss e
    ]
  where
    by_first :
        (ss : List Slide)
        → get_slides_by_number slides (parse_int n) ≡ some ss
        → (goto_slide_number slides n no_message nav ≡ (nav, []))
          ⊎ ((i : Number) × (goto_slide_number slides n no_message nav
                ≡ goto_slide_by_index (get_slide_count slides) i no_message nav))
    by_first [] e = inl (rw (e, goto_slide_number))
    by_first (s ∷ r) e = inr (int (pos s.index), rw (e, goto_slide_number))

starts-hide_events : (i : Number) → starts (hide_events i) ≡ 0
unfolding starts hide_events
starts-hide_events i = ground arith

starts-start_events :
    (s : Started) → starts (start_events s) + remaining (next_started s) ≤ remaining s
unfolding starts start_events next_started
starts-start_events not_shown = omega arith
starts-start_events shown = omega arith
starts-start_events moved = omega arith

starts-goto_slide_by_index :
    (count : ℕ) (i : Number) (no_message : Bool) (nav : Navigation)
    → starts (goto_slide_by_index count i no_message nav).1
        + remaining (goto_slide_by_index count i no_message nav).0.started
      ≤ remaining nav.started
unfolding goto_slide_by_index
starts-goto_slide_by_index count i no_message nav =
    elim (Bool-cases (is_same i nav.current_slide_index)) [
      | inl e ↦ rw e (unfold starts in omega arith)
      | inr e ↦ elim (Bool-cases (slide_out_of_range count i)) [
        | inl u ↦ rw (e, u) (unfold starts in omega arith)
        | inr u ↦ rw (e, u) (omega (arith, emitted, starts-start_events nav.started))
      ]
    ]
  where
    emitted :
        starts (
          hide_events nav.current_slide_index
          ++ (start_events nav.started
              ++ (show_slide i ∷ slide_changed (plus_one i) ∷ messages no_message nav i)))
        ≡ starts (start_events nav.started)
    emitted = omega (
      arith,
      starts-append (hide_events nav.current_slide_index) (
          start_events nav.started
          ++ (show_slide i ∷ slide_changed (plus_one i) ∷ messages no_message nav i)),
      starts-append (start_events nav.started)
          (show_slide i ∷ slide_changed (plus_one i) ∷ messages no_message nav i),
      starts-hide_events nav.current_slide_index,
      starts_shown i (messages no_message nav i),
      starts-messages no_message nav i,
    )

abbrev pub is_reset : Command → Bool
is_reset reset_timer = true
is_reset c = false

starts-perform :
    (slides : Building) (c : Command) (nav : Navigation)
    → is_reset c ≡ false
    → starts (perform slides c nav).1 + remaining (perform slides c nav).0.started
      ≤ remaining nav.started
unfolding perform goto_slide starts
starts-perform slides (goto t no_message) nav h =
    let r =
      goto_slide_by_index (get_slide_count slides) (get_slide_index slides t).0 no_message nav in
    omega (
      arith,
      starts-append (get_slide_index slides t).1 r.1,
      starts-get_slide_index slides t,
      starts-goto_slide_by_index (get_slide_count slides) (get_slide_index slides t).0 no_message
          nav,
    )
starts-perform slides (goto_number n no_message) nav h =
    elim (goto_slide_number-cases slides n no_message nav) [
      | inl e ↦ rw e (omega arith)
      | inr (i, e) ↦ rw e (starts-goto_slide_by_index (get_slide_count slides) i no_message nav)
    ]
starts-perform slides previous nav h = starts-goto_slide_by_index _ _ _ nav
starts-perform slides next nav h = starts-goto_slide_by_index _ _ _ nav
starts-perform slides first nav h = starts-goto_slide_by_index _ _ _ nav
starts-perform slides last nav h = starts-goto_slide_by_index _ _ _ nav
starts-perform slides create_clone nav h = elim (Bool-cases (is_open nav.clone)) [
  | inl e ↦ rw e (omega arith)
  | inr e ↦ rw e (omega arith)
]
starts-perform slides reset_timer nav h = absurd (cc)

starts-run-le :
    (slides : Building) (cs : List Command) (nav : Navigation)
    → All (λ c. is_reset c ≡ false) cs
    → starts (run slides cs nav).1 ≤ remaining nav.started
unfolding run
starts-run-le slides [] nav h = unfold starts in omega arith
starts-run-le slides (c ∷ cs) nav h = omega (
  arith,
  starts-append (perform slides c nav).1 (run slides cs (perform slides c nav).0).1,
  starts-perform slides c nav h.0,
  starts-run-le slides cs (perform slides c nav).0 h.1,
)

-- Until the timer is reset the event `start` is emitted at most once, whatever the commands, and not
-- at all once the show has moved.
pub starts-run :
    (slides : Building) (cs : List Command) (nav : Navigation)
    → All (λ c. is_reset c ≡ false) cs
    → (starts (run slides cs nav).1 ≤ 1) × (nav.started ≡ moved → starts (run slides cs nav).1 ≡ 0)
starts-run slides cs nav h =
    let le = starts-run-le slides cs nav h in
    (omega (arith, le, remaining-le nav.started), λ e. omega (arith, le, ap remaining e))
  where
    remaining-le : (s : Started) → remaining s ≤ 1
    remaining-le not_shown = omega arith
    remaining-le shown = omega arith
    remaining-le moved = omega arith
