-- ===== src/Slideshow/Tests.antt =====
-- A small show, and the theorems at it.
use analisis_de_protocolo_de.Prelude.{
  ◌≡◌, ◌≤◌, refl, true, false, none, some, List, [], ◌∷◌, ◌++◌, map,
}
use analisis_de_protocolo_de.Prelude.Number.{decimal}
use analisis_de_protocolo_de.Prelude.Result.{ok, err, type_error}
use analisis_de_protocolo_de.Macros.{macros}
use analisis_de_protocolo_de.Parser.Tests.{inherited}
use analisis_de_protocolo_de.Slideshow.Loading.{collect_links, load_from_string}
use analisis_de_protocolo_de.Slideshow.Links.{get-collect_links}
use analisis_de_protocolo_de.Slideshow.SlideNumber.{
  default_format, format_slide_number, format_slide_number-create_slides,
}
use analisis_de_protocolo_de.Prelude.Text.{codes, text_eq}
use analisis_de_protocolo_de.Parser.{parse, Link, ParserOptions, ParsedSlide, nil, cons, string}
use analisis_de_protocolo_de.Slide.{Slide, new_slide}
use analisis_de_protocolo_de.Prelude.Dict.{get}
use analisis_de_protocolo_de.Slideshow.{SlideOptions, create_slides}
use analisis_de_protocolo_de.Slideshow.Numbers.{IsNumbered, create_slides-IsNumbered}

abbrev options : SlideOptions
options = record {
  skip_incremental_count = true;
  excluded_classes = codes "hidden" ∷ [];
  drop_presenter_notes = false;
}

abbrev parser_options : ParserOptions
parser_options = record { disable_incremental_slides = false }

-- A first slide, a continued one that is not counted, one that is excluded, and one with a template.
abbrev parsed : List ParsedSlide
parsed =
    record {
      content = cons (string (codes "a")) nil;
      properties = (codes "continued", codes "false") ∷ (codes "name", codes "x") ∷ [];
      links = [];
      notes = none;
    }
    ∷ record {
      content = cons (string (codes "b")) nil;
      properties = (codes "continued", codes "true") ∷ [];
      links = [];
      notes = none;
    }
    ∷ record {
      content = cons (string (codes "c")) nil;
      properties = (codes "continued", codes "false") ∷ (codes "class", codes "hidden") ∷ [];
      links = [];
      notes = none;
    }
    ∷ record {
      content = cons (string (codes "d")) nil;
      properties = (codes "continued", codes "false") ∷ (codes "template", codes "x") ∷ [];
      links = [];
      notes = none;
    }
    ∷ []

test_numbers : map (λ (s : Slide). s.number) (create_slides options parsed).slides ≡ 1 ∷ 1 ∷ 2 ∷ []
unfolding create_slides
test_numbers = refl

test_contents :
    map (λ (s : Slide). s.content) (create_slides options parsed).slides
    ≡ cons (string (codes "a")) nil
      ∷ cons (string (codes "a")) (cons (string (codes "b")) nil)
      ∷ cons (string (codes "a")) (cons (string (codes "d")) nil)
      ∷ []
unfolding create_slides
test_contents = refl

create_slides-IsNumbered_example :
    IsNumbered
      (create_slides options parsed).slides
      (create_slides options parsed).by_number
      (create_slides options parsed).slide_number
create_slides-IsNumbered_example = create_slides-IsNumbered options parsed

-- The first slide of the show.
abbrev first_slide : Slide
first_slide =
    new_slide 0 1
      (record {
        content = cons (string (codes "a")) nil;
        properties = (codes "continued", codes "false") ∷ (codes "background", codes "x") ∷ [];
        links = [];
        notes = none;
      })
      none

abbrev second : ParsedSlide
second = record {
  content = nil;
  properties = (codes "continued", codes "true") ∷ [];
  links = [];
  notes = none;
}

-- A slide with one link, between two slides without.
abbrev link : Link
link = record { href = some (codes "/x"); title = none }

abbrev linked : Slide
linked = record first_slide { links = (codes "id", link) ∷ [] }

get-collect_links_example :
    ((l : Link)
      → get (codes "id") linked.links ≡ some l
      → get (codes "id") (collect_links (first_slide ∷ linked ∷ first_slide ∷ []) []) ≡ some l)
    × (get (codes "id") (collect_links (first_slide ∷ []) []) ≡ none)
unfolding get new_slide
get-collect_links_example =
    get-collect_links (codes "id") (first_slide ∷ []) linked (first_slide ∷ []) (refl, tt)

test_inherited_template :
    load_from_string
      (λ s. s)
      (macros inherited)
      inherited.is_name
      2
      parser_options
      options
      (some (codes "template: constructor\n"))
    ≡ err type_error
unfolding load_from_string parse macros text_eq get
test_inherited_template = refl

abbrev first_made : Slide
first_made =
    new_slide 0 1
      (record {
        content = cons (string (codes "a")) nil;
        properties = (codes "continued", codes "false") ∷ (codes "name", codes "x") ∷ [];
        links = [];
        notes = none;
      })
      none

format_slide_number-create_slides_example :
    (format_slide_number default_format first_made (create_slides options parsed).slides
      ≡ ok (
          decimal first_made.number
          ++ (codes " / " ++ decimal (create_slides options parsed).slide_number)))
    × (first_made.number ≤ (create_slides options parsed).slide_number)
unfolding create_slides new_slide
format_slide_number-create_slides_example =
    format_slide_number-create_slides options parsed 0 first_made refl
