-- ===== src/SlideView.antt =====
-- The view of one slide (module 27 of the bundle, `views/slideView.js`): the classes and the style of its
-- elements. Its show and hide belong to the slide show's view, and its code blocks to `Code`.
pub mod Code
pub mod Spans
pub mod Quotes
pub mod Classes
pub mod Feeds
pub mod Lines
pub mod Tests
use analisis_de_protocolo_de.Prelude.{
  ℕ, Bool, true, false, ◌||◌, Option, none, some, List, [], ◌∷◌, ◌++◌, ◌==◌, if◌then◌else◌,
}
use analisis_de_protocolo_de.Prelude.Text.{Text, codes, text_eq, split, or_default}
use analisis_de_protocolo_de.Prelude.Dict.{Dict, get}
use analisis_de_protocolo_de.ClassList.{filled, add_class}

-- createSlideElement, as the class of the element
unfoldable pub create_slide_element : Dict Text → Text
unfolding get text_eq add_class
create_slide_element properties =
    let element = codes "remark-slide" in
    elim (get (codes "continued") properties) [
      | none ↦ element
      | some v ↦
          if text_eq v (codes "true")
          then add_class element (codes "remark-slide-incremental")
          else element
    ]

-- /,| /
abbrev pub is_class_end : ℕ → Bool
is_class_end c = (c == b',') || (c == 32)

unfoldable pub add_classes : List Text → Text → Text
unfolding add_class
add_classes [] class_name = class_name
add_classes (c ∷ cs) class_name = add_classes cs (add_class class_name c)

-- The classes of the property `class`, `(properties['class'] || '').split(/,| /)` without empty ones
unfoldable pub property_classes : Dict Text → List Text
unfolding get split filled
property_classes properties =
    filled (split is_class_end (or_default (get (codes "class") properties) []))

-- setClassFromProperties, of `className`
unfoldable pub set_class_from_properties : Dict Text → Text → Text
unfolding property_classes add_classes
set_class_from_properties properties class_name =
    add_classes (property_classes properties) (add_class class_name (codes "remark-slide-content"))

-- setHighlightStyleFromProperties, with the style of the show
unfoldable pub set_highlight_style_from_properties : Dict Text → Text → Text → Text
unfolding get add_class
set_highlight_style_from_properties properties show_style class_name =
    elim (or_default (get (codes "highlight-style") properties) show_style) [
      | [] ↦ class_name
      | ◌∷◌ c s ↦ add_class class_name (codes "hljs-" ++ (c ∷ s))
    ]

-- The style of the content element that the slide's properties set.
pub record Background : Type 0 where
  pub image : Option Text
  pub color : Option Text
  pub size : Option Text
  pub position : Option Text

-- if (value) style = value
abbrev pub set_style : Option Text → Option Text → Option Text
set_style none old = old
set_style (some []) old = old
set_style (some (c ∷ s)) old = some (c ∷ s)

-- setBackgroundFromProperties
unfoldable pub set_background_from_properties : Dict Text → Background → Background
unfolding get
set_background_from_properties properties b = record {
  image = set_style (get (codes "background-image") properties) b.image;
  color = set_style (get (codes "background-color") properties) b.color;
  size = set_style (get (codes "background-size") properties) b.size;
  position = set_style (get (codes "background-position") properties) b.position;
}

-- styleContentElement: the class and the style of the content element, which has no style before
unfoldable pub style_content_element : Dict Text → Text → Text × Background
unfolding set_class_from_properties set_highlight_style_from_properties
    set_background_from_properties
style_content_element properties show_style = (
  set_highlight_style_from_properties properties show_style
      (set_class_from_properties properties []),
  set_background_from_properties properties
      (record { image = none; color = none; size = none; position = none }),
)
