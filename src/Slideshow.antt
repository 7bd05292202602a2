-- ===== src/Slideshow.antt =====
-- The list of slides (module 19 of the bundle, `models/slideshow.js`): `createSlides`.
mod Rounds
pub mod Numbers
pub mod Templates
pub mod Loading
pub mod Loaded
pub mod External
pub mod Links
pub mod SlideNumber
pub mod Tests
use analisis_de_protocolo_de.Prelude.{
  ℕ, zero, suc, ◌+◌, ◌≡◌, Bool, true, false, ◌&&◌, ◌||◌, not, Option, none, some, List, [], ◌∷◌,
  ◌++◌, ◌==◌, ltb, if◌then◌else◌, length, get_last?,
}
use analisis_de_protocolo_de.Prelude.Text.{
  Text, codes, text_eq, truthy, or_default, split, includes,
}
use analisis_de_protocolo_de.Prelude.Dict.{Dict, get, put}
use analisis_de_protocolo_de.Parser.{Items, ParsedSlide}
use analisis_de_protocolo_de.Slide.{Slide, Notes, new_slide, class_name, inherit_from}

-- The options that `createSlides` reads: whether `countIncrementalSlides` is false,
-- `excludedClasses`, and whether `includePresenterNotes` is given and falsy.
pub record SlideOptions : Type 0 where
  pub skip_incremental_count : Bool
  pub excluded_classes : List Text
  pub drop_presenter_notes : Bool

-- `slides` with its fields `byNumber` and `byName`, and the other variables of the loop.
pub record Building : Type 0 where
  pub slides : List Slide
  pub by_number : List (ℕ × List Slide)
  pub by_name : Dict Slide
  pub templates : Dict Slide
  pub layout : Option Slide
  pub slide_number : ℕ
  pub i : ℕ

-- slides.byNumber[n]
pub get_number : ℕ → List (ℕ × List Slide) → Option (List Slide)
get_number n [] = none
get_number n ((k, ss) ∷ d) = if k == n then some ss else get_number n d

-- slides.byNumber[n] = ss
pub put_number : ℕ → List Slide → List (ℕ × List Slide) → List (ℕ × List Slide)
put_number n ss [] = (n, ss) ∷ []
put_number n ss ((k, ts) ∷ d) = if k == n then (k, ss) ∷ d else (k, ts) ∷ put_number n ss d

abbrev property : Text → ParsedSlide → Option Text
property p s = get p s.properties

-- whether a property is the text
pub has_value : Text → Text → ParsedSlide → Bool
has_value p v s = elim (property p s) [ none ↦ false | some w ↦ text_eq w v ]

abbrev or_undefined : Option Text → Text
or_undefined none = codes "undefined"
or_undefined (some t) = t

abbrev is_some {ℓ} : {A : Type ℓ} → Option A → Bool
is_some none = false
is_some (some a) = true

-- The template of a slide, and the layout slide from it on. The error where `byName` has the name only
-- because every object inherits it is `takes_inherited` in Slideshow/Templates, which comes before it there.
pub choose_template : ParsedSlide → Building → Option Slide × Option Slide
choose_template s b =
    if has_value (codes "continued") (codes "true") s && ltb 0 b.i
    then (get_last? b.slides, b.layout)
    else elim (get (or_undefined (property (codes "template") s)) b.templates) [
      | some t ↦ (some t, b.layout)
      | none ↦
          if has_value (codes "layout") (codes "false") s
          then (none, none)
          else if is_some b.layout && not (has_value (codes "layout") (codes "true") s)
          then (b.layout, b.layout)
          else (none, b.layout)
    ]

-- A continued slide is not counted where incremental slides are not.
pub set_count : SlideOptions → ParsedSlide → ParsedSlide
set_count options s =
    if has_value (codes "continued") (codes "true") s
      && (options.skip_incremental_count && not (is_some (property (codes "count") s)))
    then record s { properties = put (codes "count") (codes "false") s.properties }
    else s

-- whether no class of the slide is excluded
pub none_excluded : List Text → List Text → Bool
none_excluded excluded [] = true
none_excluded excluded (c ∷ cs) = not (includes c excluded) && none_excluded excluded cs

pub slide_is_included : SlideOptions → ParsedSlide → Bool
slide_is_included options s =
    none_excluded options.excluded_classes
      (split (λ c. c == b',' || c == b' ') (or_default (property class_name s) []))

abbrev is_layout : ParsedSlide → Bool
is_layout s = has_value (codes "layout") (codes "true") s

-- whether the slide gets a number of its own
pub is_counted : Bool → ParsedSlide → Bool
is_counted included s =
    included && (not (is_layout s) && not (has_value (codes "count") (codes "false") s))

pub count_slide : Bool → ParsedSlide → Building → Building
count_slide included s b =
    if is_counted included s
    then record b {
      slide_number = b.slide_number + 1;
      by_number = put_number (b.slide_number + 1) [] b.by_number;
    }
    else b

pub drop_notes : SlideOptions → ParsedSlide → ParsedSlide
drop_notes options s = if options.drop_presenter_notes then record s { notes = none } else s

pub name_template : Option Text → Slide → Building → Building
name_template name v b =
    if truthy name then record b { templates = put (or_default name []) v b.templates } else b

-- slides.push, and the push to byNumber[slideNumber] where that is defined
pub push_slide : Slide → Building → Building
push_slide v b = record b {
  slides = b.slides ++ v ∷ [];
  by_number = elim (get_number b.slide_number b.by_number) [
    | none ↦ b.by_number
    | some ss ↦ put_number b.slide_number (ss ++ v ∷ []) b.by_number
  ];
}

pub place_slide : Bool → Bool → Option Text → Slide → Building → Building
place_slide layout included name v b =
    if layout
    then record b { layout = some v }
    else let b' = if included then push_slide v b else b in
      if truthy name then record b' { by_name = put (or_default name []) v b'.by_name } else b'

-- The body of `parsedSlides.forEach`.
pub add_slide : SlideOptions → ParsedSlide → Building → Building
add_slide options parsed b =
    let (template, layout) = choose_template parsed b in
    let parsed' = set_count options parsed in
    let included = slide_is_included options parsed' in
    let b' = count_slide included parsed' (record b { layout = layout }) in
    let view = new_slide (length b'.slides) b'.slide_number (drop_notes options parsed') template in
    let b'' =
      place_slide (is_layout parsed') included (get (codes "name") view.properties) view
        (name_template (get (codes "name") view.properties) view b') in
    record b'' { i = b.i + 1 }

pub add_slides : SlideOptions → List ParsedSlide → Building → Building
add_slides options [] b = b
add_slides options (s ∷ ss) b = add_slides options ss (add_slide options s b)

abbrev pub no_slides : Building
no_slides = record {
  slides = [];
  by_number = [];
  by_name = [];
  templates = [];
  layout = none;
  slide_number = 0;
  i = 0;
}

-- createSlides, of the parsed slides
unfoldable pub create_slides : SlideOptions → List ParsedSlide → Building
unfolding get_number put_number has_value choose_template set_count none_excluded slide_is_included
    is_counted count_slide drop_notes name_template push_slide place_slide add_slide add_slides
    new_slide text_eq get put split includes
create_slides options parsed = add_slides options parsed no_slides
