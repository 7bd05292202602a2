-- ===== src/Slideshow/SlideNumber.antt =====
-- The number that a slide shows (`components/slide-number/slide-number.js`).
use analisis_de_protocolo_de.Prelude.{
  ℕ, zero, suc, ◌+◌, ◌/◌, ◌%◌, ltb, ◌≤◌, ◌≡◌, refl, ap, sym, ◌∙◌, false, none, some, List, [], ◌∷◌,
  ◌++◌, ◌==◌, if◌then◌else◌, length, drop, get_last?, All, arith, Bool-cases, inl, inr, eq_of_some,
  is_empty, append-nil, get_elem?,
}
use analisis_de_protocolo_de.Prelude.Text.{Text, codes, contains, starts_with}
use analisis_de_protocolo_de.Prelude.Number.{decimal, decimal_digits}
use analisis_de_protocolo_de.Prelude.Result.{Result, ok, err, type_error}
use analisis_de_protocolo_de.Slide.{Slide}
use analisis_de_protocolo_de.Slideshow.{
  SlideOptions, Building, create_slides, add_slides, add_slide, no_slides,
}
use analisis_de_protocolo_de.Parser.{ParsedSlide}
use analisis_de_protocolo_de.Slideshow.Rounds.{Grown, same, pushed, counted, add_slide-Grown}
use analisis_de_protocolo_de.Slideshow.Numbers.{create_slides-IsNumbered}

-- The option `slideNumberFormat`
pub data Format : Type 0 where
  template : Text → Format
  function : (ℕ → ℕ → Text) → Format

abbrev pub default_format : Format
default_format = template (codes "%current% / %total%")

-- s.replace(p, r) for texts; `r` is a number in decimal, so has no `$`
unfoldable pub replace_first : Text → Text → Text → Text
unfolding starts_with
replace_first p r [] = if is_empty p then r else []
replace_first p r (c ∷ s) =
    if starts_with p (c ∷ s) then r ++ drop (length p) (c ∷ s) else c ∷ replace_first p r s

-- getSlideNo
abbrev pub get_slide_no : Slide → ℕ
get_slide_no s = s.number

-- formatSlideNumber, of the slides of the show
unfoldable pub format_slide_number : Format → Slide → List Slide → Result Text
unfolding replace_first decimal
format_slide_number format slide slides = elim (get_last? slides) [
  | none ↦ err type_error
  | some l ↦ elim format [
    | function f ↦ ok (f (get_slide_no slide) (get_slide_no l))
    | template t ↦ ok (
        replace_first (codes "%total%") (decimal (get_slide_no l))
          (replace_first (codes "%current%") (decimal (get_slide_no slide)) t))
  ]
]

-- The last slide has the last number that was given.
LastNumbered : Building → Type 0
LastNumbered b = (s : Slide) → get_last? b.slides ≡ some s → s.number ≡ b.slide_number

get_last?-append : (ss : List Slide) (v : Slide) → get_last? (ss ++ v ∷ []) ≡ some v
get_last?-append [] v = refl
get_last?-append (s ∷ []) v = refl
get_last?-append (s ∷ (t ∷ ss)) v = get_last?-append (t ∷ ss) v

Grown-LastNumbered : (b b' : Building) → Grown b b' → LastNumbered b → LastNumbered b'
unfolding LastNumbered
Grown-LastNumbered b b' (same p q r) h s e = h s (ap get_last? (sym p) ∙ e) ∙ sym r
Grown-LastNumbered b b' (pushed v i n p q r) h s e =
    ap (λ (w : Slide). w.number)
      (sym (eq_of_some (sym (get_last?-append b.slides v) ∙ ap get_last? (sym p) ∙ e)))
    ∙ n
    ∙ sym r
Grown-LastNumbered b b' (counted v i n p q r) h s e =
    ap (λ (w : Slide). w.number)
      (sym (eq_of_some (sym (get_last?-append b.slides v) ∙ ap get_last? (sym p) ∙ e)))
    ∙ n
    ∙ sym r

add_slides-LastNumbered :
    (options : SlideOptions) (parsed : List ParsedSlide) (b : Building)
    → LastNumbered b
    → LastNumbered (add_slides options parsed b)
unfolding add_slides
add_slides-LastNumbered options [] b h = h
add_slides-LastNumbered options (p ∷ parsed) b h =
    add_slides-LastNumbered options parsed (add_slide options p b)
      (Grown-LastNumbered b (add_slide options p b) (add_slide-Grown options p b) h)

create_slides-LastNumbered :
    (options : SlideOptions) (parsed : List ParsedSlide) (s : Slide)
    → get_last? (create_slides options parsed).slides ≡ some s
    → s.number ≡ (create_slides options parsed).slide_number
unfolding create_slides LastNumbered
create_slides-LastNumbered options parsed s e =
    add_slides-LastNumbered options parsed no_slides (λ t u. absurd (cc u)) s e

-- Text without `%` is passed over.
replace_first-pass :
    (p r s t : Text)
    → contains b'%' s ≡ false
    → replace_first (b'%' ∷ p) r (s ++ t) ≡ s ++ replace_first (b'%' ∷ p) r t
unfolding replace_first starts_with contains
replace_first-pass p r [] t h = refl
replace_first-pass p r (c ∷ s) t h = elim (Bool-cases (c == b'%')) [
  | inl u ↦ absurd (cc (rw u at h))
  | inr u ↦
      let differ : (b'%' == c) ≡ false = ground (arith, u) in
      rw differ (ap (c ∷◌) (replace_first-pass p r s t (rw u at h)))
]

decimal_digits-no_percent : (fuel n : ℕ) → contains b'%' (decimal_digits fuel n) ≡ false
unfolding decimal_digits contains
decimal_digits-no_percent zero n = refl
decimal_digits-no_percent (suc fuel) n = elim (Bool-cases (ltb n 10)) [
  | inl u ↦ rw u (ground arith)
  | inr u ↦
      rw u
        (at_end (decimal_digits fuel (n / 10)) (n % 10) (decimal_digits-no_percent fuel (n / 10)))
]
  where
    at_end :
        (s : Text) (m : ℕ) → contains b'%' s ≡ false → contains b'%' (s ++ (b'0' + m) ∷ []) ≡ false
    at_end [] m h = ground arith
    at_end (c ∷ s) m h = ground (arith, at_end s m)

decimal-no_percent : (n : ℕ) → contains b'%' (decimal n) ≡ false
unfolding decimal
decimal-no_percent n = decimal_digits-no_percent (suc n) n

default_format_lem :
    (s l : Slide) (slides : List Slide)
    → get_last? slides ≡ some l
    → format_slide_number default_format s slides
      ≡ ok (decimal s.number ++ (codes " / " ++ decimal l.number))
unfolding format_slide_number
default_format_lem s l slides e =
    rw (e, format_slide_number)
      (ap ok (
        replace_first-pass (codes "total%") (decimal l.number) (decimal s.number)
          (codes " / %total%") (decimal-no_percent s.number)
        ∙ ap (λ t. decimal s.number ++ t)
            (replace_first-pass (codes "total%") (decimal l.number) (codes " / ") (codes "%total%")
                (unfold contains in refl)
              ∙ ap (λ t. codes " / " ++ t) (append-nil (decimal l.number)))))

last_of_some :
    (ss : List Slide) (k : ℕ) (s : Slide)
    → get_elem? ss k ≡ some s
    → (l : Slide) × (get_last? ss ≡ some l)
last_of_some [] k s e = absurd (cc)
last_of_some (t ∷ []) k s e = (t, refl)
last_of_some (t ∷ (u ∷ ss)) k s e = last_of_some (u ∷ ss) 0 u refl

All-get_elem? :
    (n : ℕ) (ss : List Slide) (k : ℕ) (s : Slide)
    → All (λ s. s.number ≤ n) ss
    → get_elem? ss k ≡ some s
    → s.number ≤ n
All-get_elem? n [] k s h e = absurd (cc)
All-get_elem? n (t ∷ ss) zero s h e = let p : t ≡ s = eq_of_some e in rw (← p) h.0
All-get_elem? n (t ∷ ss) (suc k) s h e = All-get_elem? n ss k s h.1 e

-- In the default format a slide that `createSlides` made shows its number and the last number that was
-- given, and the first is not above the second.
pub format_slide_number-create_slides :
    (options : SlideOptions) (parsed : List ParsedSlide) (k : ℕ) (s : Slide)
    → get_elem? (create_slides options parsed).slides k ≡ some s
    → (format_slide_number default_format s (create_slides options parsed).slides
        ≡ ok (
            decimal s.number
            ++ (codes " / " ++ decimal (create_slides options parsed).slide_number)))
      × (s.number ≤ (create_slides options parsed).slide_number)
format_slide_number-create_slides options parsed k s e =
    let ss = (create_slides options parsed).slides in
    let (l, p) = last_of_some ss k s e in
    (
      default_format_lem s l ss p
          ∙ ap (λ n. ok (decimal s.number ++ (codes " / " ++ decimal n)))
              (create_slides-LastNumbered options parsed l p),
      All-get_elem? (create_slides options parsed).slide_number ss k s
          (create_slides-IsNumbered options parsed).at_most e,
    )
