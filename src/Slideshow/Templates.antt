-- ===== src/Slideshow/Templates.antt =====
-- Where `createSlides` throws: `byName` is an object, so a slide whose property `template` is the name of
-- something that every object inherits, and of no slide before, takes that as its template, and `new Slide`
-- reads the length of its content, which is undefined (`inherit` of models/slide.js).
use analisis_de_protocolo_de.Prelude.{
  ◌≡◌, refl, Bool, true, false, ◌&&◌, ◌||◌, not, none, some, List, [], ◌∷◌, ltb, if◌then◌else◌, ◌⊎◌,
  inl, inr, Bool-cases, arith,
}
use analisis_de_protocolo_de.Prelude.Text.{Text, codes}
use analisis_de_protocolo_de.Prelude.Dict.{get}
use analisis_de_protocolo_de.Prelude.Result.{Result, ok, err, type_error}
use analisis_de_protocolo_de.Parser.{ParsedSlide}
use analisis_de_protocolo_de.Slideshow.{
  SlideOptions, Building, has_value, add_slide, add_slides, no_slides, create_slides,
}

-- byName[slide.properties.template], where it is reached and is inherited
unfoldable pub takes_inherited : (Text → Bool) → ParsedSlide → Building → Bool
unfolding has_value get
takes_inherited is_inherited s b =
    not (has_value (codes "continued") (codes "true") s && ltb 0 b.i)
    && elim (get (codes "template") s.properties) [
      | none ↦ false
      | some t ↦ elim (get t b.templates) [ none ↦ is_inherited t | some x ↦ false ]
    ]

unfoldable pub try_add_slides :
    (Text → Bool) → SlideOptions → List ParsedSlide → Building → Result Building
unfolding takes_inherited add_slide
try_add_slides is_inherited options [] b = ok b
try_add_slides is_inherited options (s ∷ ss) b =
    let rest = try_add_slides is_inherited options ss (add_slide options s b) in
    if takes_inherited is_inherited s b then err type_error else rest

-- createSlides, of the parsed slides, with the error of an inherited template
unfoldable pub try_create_slides : (Text → Bool) → SlideOptions → List ParsedSlide → Result Building
unfolding try_add_slides
try_create_slides is_inherited options parsed = try_add_slides is_inherited options parsed no_slides

-- Whether a slide has as its property `template` a name that is inherited.
unfoldable pub has_inherited_template : (Text → Bool) → ParsedSlide → Bool
unfolding get
has_inherited_template is_inherited s = elim (get (codes "template") s.properties) [
  | none ↦ false
  | some t ↦ is_inherited t
]

unfoldable pub any_template : (Text → Bool) → List ParsedSlide → Bool
unfolding has_inherited_template
any_template is_inherited [] = false
any_template is_inherited (s ∷ ss) =
    has_inherited_template is_inherited s || any_template is_inherited ss

takes_inherited-template :
    (is_inherited : Text → Bool) (s : ParsedSlide) (b : Building)
    → takes_inherited is_inherited s b ≡ true
    → has_inherited_template is_inherited s ≡ true
unfolding takes_inherited has_inherited_template
takes_inherited-template is_inherited s b h = ground (arith, h)

try_add_slides-cases :
    (is_inherited : Text → Bool) (options : SlideOptions) (ss : List ParsedSlide) (b : Building)
    → (try_add_slides is_inherited options ss b ≡ ok (add_slides options ss b))
      ⊎ ((any_template is_inherited ss ≡ true)
          × (try_add_slides is_inherited options ss b ≡ err type_error))
unfolding try_add_slides any_template add_slides
try_add_slides-cases is_inherited options [] b = inl refl
try_add_slides-cases is_inherited options (s ∷ ss) b =
    elim (Bool-cases (takes_inherited is_inherited s b)) [
      | inl u ↦ let t = takes_inherited-template is_inherited s b u in inr (rw t refl, rw u refl)
      | inr u ↦ elim (try_add_slides-cases is_inherited options ss (add_slide options s b)) [
        | inl e ↦ inl (rw u e)
        | inr (a, e) ↦ inr (ground (arith, a), rw u e)
      ]
    ]

-- The slides are those of `createSlides`, or a template is inherited.
pub try_create_slides-cases :
    (is_inherited : Text → Bool) (options : SlideOptions) (ss : List ParsedSlide)
    → (try_create_slides is_inherited options ss ≡ ok (create_slides options ss))
      ⊎ ((any_template is_inherited ss ≡ true)
          × (try_create_slides is_inherited options ss ≡ err type_error))
unfolding try_create_slides create_slides
try_create_slides-cases is_inherited options ss =
    try_add_slides-cases is_inherited options ss no_slides
