-- ===== src/Slideshow/Rounds.antt =====
-- What a round of the loop of `createSlides` does to the slides and their numbers.
use analisis_de_protocolo_de.Prelude.{
  ℕ, ◌+◌, ◌≡◌, refl, ap, sym, ◌∙◌, Bool, true, false, ◌&&◌, not, Option, none, some, List, [], ◌∷◌,
  ◌++◌, ◌==◌, ==_refl, if◌then◌else◌, length, arith, Bool-cases, inl, inr, subst,
}
use analisis_de_protocolo_de.Prelude.Text.{Text, codes}
use analisis_de_protocolo_de.Prelude.Dict.{get}
use analisis_de_protocolo_de.Parser.{ParsedSlide}
use analisis_de_protocolo_de.Slide.{Slide, new_slide, index-new_slide, number-new_slide}
use analisis_de_protocolo_de.Slideshow.{
  Building, SlideOptions, get_number, put_number, set_count, slide_is_included, is_counted,
  is_layout, count_slide, drop_notes, name_template, push_slide, place_slide, add_slide,
  choose_template,
}

pub get_number-put_number :
    (n k : ℕ) (ss : List Slide) (d : List (ℕ × List Slide))
    → get_number n (put_number k ss d) ≡ (if k == n then some ss else get_number n d)
unfolding get_number put_number
get_number-put_number n k ss [] = refl
get_number-put_number n k ss ((j, ts) ∷ d) = ground (arith, get_number-put_number n k ss d)

-- What a round does to the slides and their numbers.
pub data Grown (b b' : Building) : Type 0 where
  same :
      b'.slides ≡ b.slides
      → b'.by_number ≡ b.by_number
      → b'.slide_number ≡ b.slide_number
      → Grown b b'
  pushed :
      (v : Slide)
      → v.index ≡ length b.slides
      → v.number ≡ b.slide_number
      → b'.slides ≡ b.slides ++ v ∷ []
      → b'.by_number ≡ (push_slide v b).by_number
      → b'.slide_number ≡ b.slide_number
      → Grown b b'
  counted :
      (v : Slide)
      → v.index ≡ length b.slides
      → v.number ≡ b.slide_number + 1
      → b'.slides ≡ b.slides ++ v ∷ []
      → b'.by_number
        ≡ put_number
            (b.slide_number + 1)
            ([] ++ v ∷ [])
            (put_number (b.slide_number + 1) [] b.by_number)
      → b'.slide_number ≡ b.slide_number + 1
      → Grown b b'

abbrev Core : Type 0
Core = List Slide × List (ℕ × List Slide) × ℕ

abbrev core : Building → Core
core b = (b.slides, b.by_number, b.slide_number)

-- The names of slides do not matter for their numbers.
core-place_slide :
    (layout included : Bool) (name : Option Text) (v : Slide) (b : Building)
    → core (place_slide layout included name v (name_template name v b))
      ≡ core (if not layout && included then push_slide v b else b)
unfolding place_slide name_template push_slide
core-place_slide true included none v b = refl
core-place_slide true included (some []) v b = refl
core-place_slide true included (some (c ∷ t)) v b = refl
core-place_slide false true none v b = refl
core-place_slide false true (some []) v b = refl
core-place_slide false true (some (c ∷ t)) v b = refl
core-place_slide false false none v b = refl
core-place_slide false false (some []) v b = refl
core-place_slide false false (some (c ∷ t)) v b = refl

Grown-core : (b b' b'' : Building) → core b' ≡ core b'' → Grown b b'' → Grown b b'
Grown-core b b' b'' e (same p q r) =
    same (ap (λ c. c.0) e ∙ p) (ap (λ c. c.1) e ∙ q) (ap (λ c. c.2) e ∙ r)
Grown-core b b' b'' e (pushed v i n p q r) =
    pushed v i n (ap (λ c. c.0) e ∙ p) (ap (λ c. c.1) e ∙ q) (ap (λ c. c.2) e ∙ r)
Grown-core b b' b'' e (counted v i n p q r) =
    counted v i n (ap (λ c. c.0) e ∙ p) (ap (λ c. c.1) e ∙ q) (ap (λ c. c.2) e ∙ r)

-- A slide that is counted is included, and is no layout slide.
counted-needs :
    (layout included : Bool) (s : ParsedSlide)
    → is_layout s ≡ layout
    → is_counted included s ≡ true
    → (not layout && included) ≡ true
unfolding is_counted
counted-needs layout included s l h = ground arith

module _ (included : Bool) (parsed : ParsedSlide) (b : Building) (view : Building → Slide)
    (index : (c : Building) → (view c).index ≡ length c.slides)
    (number : (c : Building) → (view c).number ≡ c.slide_number) where
  abbrev after_push : Building → Building
  after_push c = if not (is_layout parsed) && included then push_slide (view c) c else c

  counted_b : Building
  counted_b = record b {
    slide_number = b.slide_number + 1;
    by_number = put_number (b.slide_number + 1) [] b.by_number;
  }

  after_push-counted : (not (is_layout parsed) && included) ≡ true → Grown b (after_push counted_b)
  unfolding counted_b push_slide
  after_push-counted h = rw h (
      counted (view counted_b) (index counted_b) (number counted_b) refl (rw (e, push_slide) refl)
        refl)
    where
      e : get_number (b.slide_number + 1) (put_number (b.slide_number + 1) [] b.by_number) ≡ some []
      e =
          get_number-put_number (b.slide_number + 1) (b.slide_number + 1) [] b.by_number
          ∙ (rw ==_refl refl)

  after_push-b : Grown b (after_push b)
  unfolding push_slide
  after_push-b = elim (Bool-cases (not (is_layout parsed) && included)) [
    | inl p ↦ rw p (pushed (view b) (index b) (number b) refl refl refl)
    | inr p ↦ rw p (same refl refl refl)
  ]

  push-Grown : Grown b (after_push (count_slide included parsed b))
  push-Grown = elim (Bool-cases (is_counted included parsed)) [
    | inl c ↦
        let e : count_slide included parsed b ≡ counted_b =
          unfold count_slide counted_b in rw c refl in
        subst (λ x. Grown b (after_push x)) (sym e)
          (after_push-counted (counted-needs (is_layout parsed) included parsed refl c))
    | inr c ↦
        let e : count_slide included parsed b ≡ b = unfold count_slide in rw c refl in
        subst (λ x. Grown b (after_push x)) (sym e) after_push-b
  ]

Grown-layout :
    (b b' : Building) (l : Option Slide) → Grown (record b { layout = l }) b' → Grown b b'
unfolding push_slide
Grown-layout b b' l (same p q r) = same p q r
Grown-layout b b' l (pushed v i n p q r) = pushed v i n p q r
Grown-layout b b' l (counted v i n p q r) = counted v i n p q r

pub add_slide-Grown :
    (options : SlideOptions) (s : ParsedSlide) (b : Building) → Grown b (add_slide options s b)
unfolding add_slide
add_slide-Grown options s b =
    Grown-core b (add_slide options s b)
      (if not (is_layout parsed) && included then push_slide (view at) at else at)
      (core-place_slide (is_layout parsed) included (get (codes "name") (view at).properties)
        (view at) at)
      (Grown-layout b (if not (is_layout parsed) && included then push_slide (view at) at else at)
        layout
        (push-Grown included parsed (record b { layout = layout }) view
          (λ c.
            index-new_slide (length c.slides) c.slide_number (drop_notes options parsed) template)
          (λ c.
            number-new_slide (length c.slides) c.slide_number (drop_notes options parsed)
              template)))
  where
    parsed : ParsedSlide
    parsed = set_count options s

    included : Bool
    included = slide_is_included options parsed

    template : Option Slide
    template = (choose_template s b).0

    layout : Option Slide
    layout = (choose_template s b).1

    view : Building → Slide
    view c = new_slide (length c.slides) c.slide_number (drop_notes options parsed) template

    at : Building
    at = count_slide included parsed (record b { layout = layout })
