-- ===== src/Navigation/Moves.antt =====
-- Where moves lead: back and forth, to numbers, and how often `start` is emitted.
use analisis_de_protocolo_de.Prelude.{
  ℕ, suc, ◌+◌, ◌≤◌, ◌<◌, ◌≡◌, refl, ap, ◌∙◌, Bool, false, some, List, [], ◌∷◌, length, arith,
  Bool-cases, inl, inr, is_empty, get_elem?, ◌==◌, ==_iff,
}
use analisis_de_protocolo_de.Prelude.Text.{Text}
use analisis_de_protocolo_de.Prelude.Int.{pos, pred-succ}
use analisis_de_protocolo_de.Prelude.Number.{int, plus_one, minus_one, parse_int}
use analisis_de_protocolo_de.Slide.{Slide}
use analisis_de_protocolo_de.Slideshow.{Building, get_number}
use analisis_de_protocolo_de.Slideshow.Numbers.{numbered, IsNumbered}
use analisis_de_protocolo_de.Navigation.{
  Navigation, slide_out_of_range, goto_slide_by_index, get_slides_by_number, get_slide_count,
  goto_slide_number, goto_number, previous, next, perform, run,
}
use analisis_de_protocolo_de.Navigation.Starts.{}

-- A move to another index of a slide is made.
pub current-goto_slide_by_index :
    (count n : ℕ) (no_message : Bool) (nav : Navigation)
    → n < count
    → (goto_slide_by_index count (int (pos n)) no_message nav).0.current_slide_index ≡ int (pos n)
unfolding goto_slide_by_index slide_out_of_range
current-goto_slide_by_index count n no_message nav h = ground arith

-- From a slide that is not the last, the next slide and then the previous one are the slide itself.
pub previous-next :
    (slides : Building) (n : ℕ) (nav : Navigation)
    → nav.current_slide_index ≡ int (pos n)
    → n + 1 < get_slide_count slides
    → (perform slides previous (perform slides next nav).0).0.current_slide_index ≡ int (pos n)
unfolding perform
previous-next slides n nav e h =
    let count = get_slide_count slides in
    let at : (goto_slide_by_index count (plus_one nav.current_slide_index) false
          nav).0.current_slide_index
        ≡ int (pos (n + 1)) =
      ap (λ i. (goto_slide_by_index count (plus_one i) false nav).0.current_slide_index) e
      ∙ current-goto_slide_by_index count (n + 1) false nav h in
    ap
      (λ i.
        (goto_slide_by_index count (minus_one i) false
          (goto_slide_by_index count (plus_one nav.current_slide_index) false
            nav).0).0.current_slide_index)
      at
    ∙ (ap (λ i. (goto_slide_by_index count (int i) false next_nav).0.current_slide_index)
          (pred-succ (pos n))
        ∙ current-goto_slide_by_index count n false next_nav (omega arith))
  where
    next_nav : Navigation
    next_nav =
        (goto_slide_by_index (get_slide_count slides) (plus_one nav.current_slide_index) false
          nav).0

-- The first slide of a number, where there is one.
first_numbered :
    (n j : ℕ) (ss : List Slide)
    → ((k : ℕ) (s : Slide) → get_elem? ss k ≡ some s → s.index ≡ j + k)
    → is_empty (numbered n ss) ≡ false
    → (s : Slide) × (r : List Slide) × (numbered n ss ≡ s ∷ r)
      × (s.number ≡ n)
      × (s.index < j + length ss)
unfolding numbered
first_numbered n j [] h e = absurd (cc)
first_numbered n j (s ∷ ss) h e = elim (Bool-cases (s.number == n)) [
  | inl u ↦ (s, numbered n ss, rw u refl, (==_iff s.number n).0 u, omega (arith, h 0 s refl))
  | inr u ↦
      let (t, r, p, q, l) =
        first_numbered n (suc j) ss (λ k t w. h (suc k) t w ∙ omega arith) (rw u at e) in
      (t, r, rw u p, q, omega (arith, l))
]

-- In a show whose slides are numbered as `createSlides` does it, going to a number that was given
-- leads to the first slide of that number, which is a slide of the show.
pub goto_slide_number-first :
    (slides : Building) (n : ℕ) (digits : Text) (no_message : Bool) (nav : Navigation)
    → IsNumbered slides.slides slides.by_number slides.slide_number
    → parse_int digits ≡ int (pos n)
    → 1 ≤ n
    → n ≤ slides.slide_number
    → (s : Slide) × (r : List Slide) × (numbered n slides.slides ≡ s ∷ r)
      × (s.number ≡ n)
      × (s.index < get_slide_count slides)
      × ((goto_slide_number slides digits no_message nav).0.current_slide_index ≡ int (pos s.index))
unfolding goto_slide_number get_slides_by_number
goto_slide_number-first slides n digits no_message nav h e p q =
    let (s, r, is, num, l) =
      first_numbered n 0 slides.slides (λ k s u. h.indexed k s u ∙ omega arith) (h.filled n p q) in
    let found : get_number n slides.by_number ≡ some (s ∷ r) =
      h.by_number_is n ∙ ground (arith, is) in
    (
      s,
      r,
      is,
      num,
      omega (arith, l),
      rw (e, found, goto_slide_number)
          (current-goto_slide_by_index (get_slide_count slides) s.index no_message nav
            (omega (arith, l))),
    )

pub run-goto_number :
    (slides : Building) (t : Text) (no_message : Bool) (nav : Navigation)
    → (run slides (goto_number t no_message ∷ []) nav).0
      ≡ (goto_slide_number slides t no_message nav).0
unfolding run perform
run-goto_number slides t no_message nav = refl
