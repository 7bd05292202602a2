-- ===== src/Controller/Gestures.antt =====
-- What swipes and taps do to a show.
use analisis_de_protocolo_de.Prelude.{
  ℕ, ◌+◌, ◌*◌, ◌<◌, ◌≤◌, ltb, lt→ltb, ◌≡◌, refl, ap, sym, ◌∙◌, true, false, some, List, [], ◌∷◌,
  ◌++◌, append_assoc, append-nil, arith,
}
use analisis_de_protocolo_de.Prelude.Int.{ℤ, pos, negsuc}
use analisis_de_protocolo_de.Prelude.Number.{int}
use analisis_de_protocolo_de.Slideshow.{Building}
use analisis_de_protocolo_de.Navigation.{Navigation, get_slide_count, run}
use analisis_de_protocolo_de.Navigation.Moves.{previous-next}
use analisis_de_protocolo_de.Controller.Bus.{commands_for}
use analisis_de_protocolo_de.Controller.Keyboard.{goto_previous_slide, goto_next_slide}
use analisis_de_protocolo_de.Controller.Touch.{
  less, distance, Touch, TouchInput, is_tap, on_tap, handle_swipe, on_touch, on_touches, gesture,
}

distance_sym : (x y : ℤ) → distance x y ≡ distance y x
unfolding distance
distance_sym (pos a) (pos b) = omega arith
distance_sym (pos a) (negsuc b) = omega arith
distance_sym (negsuc a) (pos b) = omega arith
distance_sym (negsuc a) (negsuc b) = omega arith

less_asym : (x y : ℤ) → less y x ≡ true → less x y ≡ false
unfolding less
less_asym (pos a) (pos b) h = ground arith
less_asym (pos a) (negsuc b) h = refl
less_asym (negsuc a) (pos b) h = absurd (cc)
less_asym (negsuc a) (negsuc b) h = ground arith

far_is_no_tap : (unit d : ℕ) → 10 * unit ≤ d → ltb d (10 * unit) ≡ false
far_is_no_tap unit d h = ground arith

-- What a gesture does, whatever was touched before.
gesture-swipe :
    (unit width : ℕ) (x y : ℤ) (t : Touch)
    → 10 * unit ≤ distance x y
    → (on_touches unit width (gesture x y) t).1 ≡ handle_swipe (some x) y
unfolding on_touches on_touch is_tap
gesture-swipe unit width x y t h = rw (far_is_no_tap unit (distance x y) h) refl

gesture-tap :
    (unit width : ℕ) (x y : ℤ) (t : Touch)
    → distance x y < 10 * unit
    → (on_touches unit width (gesture x y) t).1 ≡ on_tap unit width y
unfolding on_touches on_touch is_tap
gesture-tap unit width x y t h =
    rw (lt→ltb (distance x y) (10 * unit) h) (append-nil (on_tap unit width y))

on_touches-append :
    (unit width : ℕ) (is js : List TouchInput) (t : Touch)
    → (on_touches unit width (is ++ js) t).1
      ≡ (on_touches unit width is t).1
        ++ (on_touches unit width js (on_touches unit width is t).0).1
unfolding on_touches
on_touches-append unit width [] js t = refl
on_touches-append unit width (i ∷ is) js t =
    let (t', emitted) = on_touch unit width i t in
    ap (λ es. emitted ++ es) (on_touches-append unit width is js t')
    ∙ sym (
        append_assoc emitted (on_touches unit width is t').1
          (on_touches unit width js (on_touches unit width is t').0).1)

-- A gesture that goes on and one that goes back.
next_previous :
    (unit width : ℕ) (is js : List TouchInput) (t : Touch) (slides : Building) (n : ℕ)
    (nav : Navigation)
    → (on_touches unit width is t).1 ≡ goto_next_slide ∷ []
    → (on_touches unit width js (on_touches unit width is t).0).1 ≡ goto_previous_slide ∷ []
    → nav.current_slide_index ≡ int (pos n)
    → n + 1 < get_slide_count slides
    → (run slides (commands_for (on_touches unit width (is ++ js) t).1) nav).0.current_slide_index
      ≡ int (pos n)
unfolding commands_for run
next_previous unit width is js t slides n nav e f h k =
    rw (on_touches-append unit width is js t, e, f) (previous-next slides n nav h k)

-- From a slide that is not the last, a swipe to the left by ten pixels or more and the same swipe to
-- the right lead back to the slide, whatever was touched before.
pub swipes-back :
    (unit width : ℕ) (x y : ℤ) (t : Touch) (slides : Building) (n : ℕ) (nav : Navigation)
    → less y x ≡ true
    → 10 * unit ≤ distance x y
    → nav.current_slide_index ≡ int (pos n)
    → n + 1 < get_slide_count slides
    → (run slides
        (commands_for (on_touches unit width (gesture x y ++ gesture y x) t).1)
        nav).0.current_slide_index
      ≡ int (pos n)
unfolding handle_swipe
swipes-back unit width x y t slides n nav l d =
    next_previous unit width (gesture x y) (gesture y x) t slides n nav
      (gesture-swipe unit width x y t d ∙ rw l refl)
      (gesture-swipe unit width y x (on_touches unit width (gesture x y) t).0
          (rw (distance_sym y x) d)
        ∙ rw (less_asym x y l) refl)

-- From a slide that is not the last, a tap in the right half of the container and one in its left half
-- lead back to the slide, whatever was touched before; a finger may move less than ten pixels.
pub taps-back :
    (unit width a b : ℕ) (x y : ℤ) (t : Touch) (slides : Building) (n : ℕ) (nav : Navigation)
    → width * unit ≤ 2 * a
    → 2 * b < width * unit
    → distance x (pos a) < 10 * unit
    → distance y (pos b) < 10 * unit
    → nav.current_slide_index ≡ int (pos n)
    → n + 1 < get_slide_count slides
    → (run slides
        (commands_for (on_touches unit width (gesture x (pos a) ++ gesture y (pos b)) t).1)
        nav).0.current_slide_index
      ≡ int (pos n)
unfolding on_tap
taps-back unit width a b x y t slides n nav p q d e =
    let off : ltb (2 * a) (width * unit) ≡ false = ground (arith, p) in
    next_previous unit width (gesture x (pos a)) (gesture y (pos b)) t slides n nav
      (gesture-tap unit width x (pos a) t d ∙ rw off refl)
      (gesture-tap unit width y (pos b) (on_touches unit width (gesture x (pos a)) t).0 e
        ∙ rw (lt→ltb (2 * b) (width * unit) q) refl)
