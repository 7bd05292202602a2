-- ===== src/Slide.antt =====
-- A slide with its template (module 18 of the bundle, `models/slide.js`).
mod Variables
pub mod Inheritance
unfoldable pub use Variables.{
  variable_re, expand, expand_variables, Results, items_text, expand_text, record_result, result_of,
  record_results,
}
use analisis_de_protocolo_de.Prelude.{
  ℕ, ◌≡◌, refl, Bool, true, false, ◌||◌, Option, none, some, List, [], ◌∷◌, ◌++◌, if◌then◌else◌,
}
use analisis_de_protocolo_de.Prelude.Text.{Text, codes, text_eq, truthy, join, or_default}
use analisis_de_protocolo_de.Prelude.Dict.{Dict, get, put, remove}
use analisis_de_protocolo_de.Parser.{Items, nil, cons, Link, ParsedSlide}

-- The notes of a slide: a content list, or a text.
pub data Notes : Type 0 where
  plain : Text → Notes
  items : Items → Notes

pub record Slide : Type 0 where
  pub index : ℕ
  pub number : ℕ
  pub properties : Dict Text
  pub links : Dict Link
  pub content : Items
  pub notes : Notes

-- ignoreProperty
unfoldable pub ignore_property : Text → Bool
ignore_property p =
    text_eq p (codes "name") || (text_eq p (codes "layout") || text_eq p (codes "count"))

abbrev pub class_name : Text
class_name = codes "class"

-- One round of the loop of `inheritProperties`.
pub inherit_property : Text → Text → Dict Text → Dict Text
inherit_property p value own =
    if ignore_property p
    then own
    else if text_eq p class_name
    then put p
        (join (codes ", ")
          (value ∷ (if truthy (get p own) then or_default (get p own) [] ∷ [] else [])))
        own
    else elim (get p own) [ none ↦ put p value own | some v ↦ own ]

pub inherit_properties : Dict Text → Dict Text → Dict Text
inherit_properties [] own = own
inherit_properties ((p, value) ∷ template) own =
    inherit_properties template (inherit_property p value own)

pub append_items : Items → Items → Items
append_items nil ys = ys
append_items (cons x xs) ys = cons x (append_items xs ys)

-- inheritContent: the template's content (its copy is the value itself), with its variable
-- `content` expanded, or else followed by the slide's own content. The property `content` is
-- gone afterwards.
pub inherit_content : Items → Slide → Slide
inherit_content template s =
    let properties = put (codes "content") (items_text s.content) s.properties in
    let (content, results) = expand_variables true properties template [] in
    record s {
      content = elim (get (codes "content") results) [
        | none ↦ append_items content s.content
        | some v ↦ content
      ];
      properties = remove (codes "content") properties;
    }

-- A list of notes as a text.
pub notes_text : Notes → Text
notes_text (plain t) = t
notes_text (items xs) = items_text xs

abbrev has_notes : Notes → Bool
has_notes (plain t) = truthy (some t)
has_notes (items xs) = true

-- inheritNotes
pub inherit_notes : Notes → Notes → Notes
inherit_notes template own =
    if has_notes template then plain (notes_text template ++ (10 ∷ (10 ∷ notes_text own))) else own

pub inherit : Slide → Slide → Slide
inherit s template =
    let s' = record s { properties = inherit_properties template.properties s.properties } in
    let s'' = inherit_content template.content s' in
    record s'' { notes = inherit_notes template.notes s''.notes }

abbrev initial_notes : Option Items → Notes
initial_notes none = plain []
initial_notes (some xs) = items xs

abbrev pub inherit_from : Option Slide → Slide → Slide
inherit_from none s = s
inherit_from (some template) s = inherit s template

-- new Slide(slideIndex, slideNumber, slide, template)
unfoldable pub new_slide : ℕ → ℕ → ParsedSlide → Option Slide → Slide
unfolding text_eq get put remove join ignore_property inherit_property inherit_properties
    append_items inherit_content notes_text inherit_notes inherit expand_variables items_text
new_slide index number slide template = inherit_from template (record {
  index = index;
  number = number;
  properties = slide.properties;
  links = slide.links;
  content = slide.content;
  notes = initial_notes slide.notes;
})

-- The index and the number are those that the constructor is given.
pub index-new_slide : (i n : ℕ) (s : ParsedSlide) (t : Option Slide) → (new_slide i n s t).index ≡ i
unfolding new_slide
index-new_slide i n s none = refl
index-new_slide i n s (some t) = refl

pub number-new_slide :
    (i n : ℕ) (s : ParsedSlide) (t : Option Slide) → (new_slide i n s t).number ≡ n
unfolding new_slide
number-new_slide i n s none = refl
number-new_slide i n s (some t) = refl
