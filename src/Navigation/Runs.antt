-- ===== src/Navigation/Runs.antt =====
-- Whole runs of commands: which slides are shown, and where the show is left.
use analisis_de_protocolo_de.Prelude.{
  ℕ, zero, suc, ◌≤◌, ◌<◌, ◌≡◌, ◌≢◌, refl, sym, Bool, false, Option, none, some, List, [], ◌∷◌, ◌++◌,
  All, All-append, arith, Bool-cases, inl, inr, ltb, append_assoc,
}
use analisis_de_protocolo_de.Prelude.Text.{Text, codes, text_eq}
use analisis_de_protocolo_de.Prelude.Int.{pos, negsuc}
use analisis_de_protocolo_de.Prelude.Number.{Number, nan, int, parse_int, to_string}
use analisis_de_protocolo_de.Slide.{Slide}
use analisis_de_protocolo_de.Slideshow.{Building}
use analisis_de_protocolo_de.Navigation.{
  Navigation, Event, show_slide, slide_changed, slide_out_of_range, hide_events, start_events,
  messages, goto_slide_by_index, slide_name, get_slide_index, get_slides_by_number, get_slide_count,
  goto_slide, goto_slide_number, Command, goto, goto_number, previous, next, first, last,
  create_clone, reset_timer, perform, run, slides_changed, is_open, last_index,
}
use analisis_de_protocolo_de.Navigation.Range.{
  Tracks-append, IsOnSlide, Keeps, goto_slide_by_index-Keeps,
}
use analisis_de_protocolo_de.Navigation.Numeric.{
  int-ne-nan, minus_one-ne-nan, plus_one-ne-nan, get_slide_index-numeric, IsNumericCommand,
  on_slide-ne-nan,
}

goto_slide_number-Keeps :
    (slides : Building) (n : Text) (no_message : Bool) (nav : Navigation)
    → IsOnSlide (get_slide_count slides) nav.current_slide_index
    → Keeps
        (get_slide_count slides)
        nav.current_slide_index
        (goto_slide_number slides n no_message nav)
unfolding goto_slide_number
goto_slide_number-Keeps slides n no_message nav h =
    by_slides (get_slides_by_number slides (parse_int n))
  where
    by_first :
        (ss : List Slide)
        → Keeps
            (get_slide_count slides)
            nav.current_slide_index
            (elim ss as (λ _. Navigation × List Event) [
              | [] ↦ (nav, [])
              | s ∷ r ↦
                  goto_slide_by_index (get_slide_count slides) (int (pos s.index)) no_message nav
            ])
    by_first [] = record { on_slide = h; in_range = tt; tracked = refl }
    by_first (s ∷ r) =
        goto_slide_by_index-Keeps (get_slide_count slides) (int (pos s.index)) no_message nav
          (int-ne-nan (pos s.index)) h

    by_slides :
        (o : Option (List Slide))
        → Keeps
            (get_slide_count slides)
            nav.current_slide_index
            (elim o as (λ _. Navigation × List Event) [
              | none ↦ (nav, [])
              | some ss ↦ elim ss as (λ _. Navigation × List Event) [
                | [] ↦ (nav, [])
                | s ∷ r ↦
                    goto_slide_by_index (get_slide_count slides) (int (pos s.index)) no_message nav
              ]
            ])
    by_slides none = record { on_slide = h; in_range = tt; tracked = refl }
    by_slides (some ss) = by_first ss

pub last_index-numeric : (n : ℕ) → last_index n ≢ nan
last_index-numeric zero e = cc
last_index-numeric (suc n) e = cc

pub perform-Keeps :
    (slides : Building) (c : Command) (nav : Navigation)
    → IsNumericCommand c
    → IsOnSlide (get_slide_count slides) nav.current_slide_index
    → Keeps (get_slide_count slides) nav.current_slide_index (perform slides c nav)
unfolding perform goto_slide
perform-Keeps slides (goto t no_message) nav p h =
    let i = get_slide_index-numeric slides t p in
    let moved_nav =
      goto_slide_by_index (get_slide_count slides) (get_slide_index slides t).0 no_message nav in
    let k =
      goto_slide_by_index-Keeps (get_slide_count slides) (get_slide_index slides t).0 no_message nav
        i.0 h in
    record {
      on_slide = k.on_slide;
      in_range = All-append _ (get_slide_index slides t).1 _ i.1 k.in_range;
      tracked =
          Tracks-append nav.current_slide_index nav.current_slide_index
            moved_nav.0.current_slide_index (get_slide_index slides t).1 moved_nav.1
            (i.2 nav.current_slide_index) k.tracked;
    }
perform-Keeps slides (goto_number n no_message) nav p h =
    goto_slide_number-Keeps slides n no_message nav h
perform-Keeps slides previous nav p h =
    goto_slide_by_index-Keeps _ _ false nav
      (minus_one-ne-nan nav.current_slide_index (on_slide-ne-nan _ _ h)) h
perform-Keeps slides next nav p h =
    goto_slide_by_index-Keeps _ _ false nav
      (plus_one-ne-nan nav.current_slide_index (on_slide-ne-nan _ _ h)) h
perform-Keeps slides first nav p h = goto_slide_by_index-Keeps _ _ false nav (int-ne-nan (pos 0)) h
perform-Keeps slides last nav p h =
    goto_slide_by_index-Keeps _ _ false nav (last_index-numeric (get_slide_count slides)) h
perform-Keeps slides create_clone nav p h = elim (Bool-cases (is_open nav.clone)) [
  | inl e ↦ rw e (record { on_slide = h; in_range = (tt, tt); tracked = refl })
  | inr e ↦ rw e (record { on_slide = h; in_range = (tt, tt); tracked = refl })
]
perform-Keeps slides reset_timer nav p h = record { on_slide = h; in_range = tt; tracked = refl }

-- From a slide, or before the first is shown, any commands whose targets are not NaN lead to a slide
-- or leave the show before its first slide. Every slide that is shown or hidden on the way is a slide
-- of the show; only the slide that is shown is hidden, a slide is shown only when none is, and the
-- last that is shown is the current one.
pub run-Keeps :
    (slides : Building) (cs : List Command) (nav : Navigation)
    → All IsNumericCommand cs
    → IsOnSlide (get_slide_count slides) nav.current_slide_index
    → Keeps (get_slide_count slides) nav.current_slide_index (run slides cs nav)
unfolding run
run-Keeps slides [] nav p h = record { on_slide = h; in_range = tt; tracked = refl }
run-Keeps slides (c ∷ cs) nav p h =
    let k = perform-Keeps slides c nav p.0 h in
    let r = run-Keeps slides cs (perform slides c nav).0 p.1 k.on_slide in
    record {
      on_slide = r.on_slide;
      in_range = All-append _ (perform slides c nav).1 _ k.in_range r.in_range;
      tracked =
          Tracks-append nav.current_slide_index (perform slides c nav).0.current_slide_index
            (run slides cs (perform slides c nav).0).0.current_slide_index (perform slides c nav).1
            (run slides cs (perform slides c nav).0).1 k.tracked r.tracked;
    }

-- The text `NaN` of a location hash is taken for the number NaN: the views are shown the slide of index
-- NaN, whatever the slides and the state, and NaN is the current index from then on.
pub goto_slide_nan :
    (slides : Building) (no_message : Bool) (nav : Navigation)
    → ((goto_slide slides (slide_name (codes "NaN")) no_message nav).0.current_slide_index ≡ nan)
      × (before : List Event) × (after : List Event) × ((goto_slide slides
            (slide_name (codes "NaN"))
            no_message
            nav).1
          ≡ before ++ (show_slide nan ∷ after))
unfolding goto_slide goto_slide_by_index get_slide_index text_eq to_string parse_int
    slide_out_of_range
goto_slide_nan slides no_message nav = (
  refl,
  hide_events nav.current_slide_index ++ start_events nav.started,
  slide_changed nan ∷ messages no_message nav nan,
  sym (
      append_assoc (hide_events nav.current_slide_index) (start_events nav.started)
        (show_slide nan ∷ (slide_changed nan ∷ messages no_message nav nan))),
)

-- The listener of `slidesChanged` leaves the show on no slide whenever the current index is not an
-- index of the new slides: it only takes an index above the number of slides down to that number.
pub slides_changed_off :
    (count n : ℕ) (nav : Navigation)
    → nav.current_slide_index ≡ int (pos n)
    → count ≤ n
    → ¬ IsOnSlide count (slides_changed count nav).current_slide_index
unfolding slides_changed
slides_changed_off count n nav e h at = elim (Bool-cases (ltb count n)) [
  | inl u ↦
      let moved_to : (slides_changed count nav).current_slide_index ≡ int (pos count) = rw (e, u) in
      let w : count < count = rw moved_to at at in omega arith
  | inr u ↦
      let stays : (slides_changed count nav).current_slide_index ≡ int (pos n) = rw (e, u) in
      let w : n < count = rw stays at at in omega arith
]

-- The index of a slide, or -1, stays as it is.
pub slides_changed-same :
    (count : ℕ) (nav : Navigation)
    → IsOnSlide count nav.current_slide_index
    → (slides_changed count nav).current_slide_index ≡ nav.current_slide_index
unfolding slides_changed
slides_changed-same count nav h = by_index nav.current_slide_index refl h
  where
    by_index :
        (i : Number)
        → nav.current_slide_index ≡ i
        → IsOnSlide count i
        → (slides_changed count nav).current_slide_index ≡ nav.current_slide_index
    by_index nan e h = absurd h
    by_index (int (negsuc n)) e h = rw e refl
    by_index (int (pos n)) e h = elim (Bool-cases (ltb count n)) [
      | inl u ↦ absurd (ground (arith, u))
      | inr u ↦ rw (e, u) refl
    ]

pub slides_changed-past :
    (count n : ℕ) (nav : Navigation)
    → nav.current_slide_index ≡ int (pos n)
    → count ≤ n
    → (m : ℕ) × ((slides_changed count nav).current_slide_index ≡ int (pos m)) × (count ≤ m)
unfolding slides_changed
slides_changed-past count n nav e h = elim (Bool-cases (ltb count n)) [
  | inl u ↦ (count, rw (e, u) refl, omega arith)
  | inr u ↦ (n, rw (e, u) refl, h)
]
