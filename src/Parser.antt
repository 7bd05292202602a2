-- ===== src/Parser.antt =====
-- The parser (module 22 of the bundle, `parser.js`): tokens to slides. The macros are the user's;
-- `parse` takes fuel for macros whose values call macros.
mod Content
mod Clean
mod Properties
pub mod Structure
pub mod Total
pub mod Extraction
pub mod Tests
pub use Content.{Item, Items, string, content_class, nil, cons}
unfoldable pub use Content.{append_item}
unfoldable pub use Clean.{clean_input}
unfoldable pub use Properties.{extract_properties, property_finder, extract_loop, cut, set_property}
use analisis_de_protocolo_de.Prelude.{
  ℕ, zero, suc, Bool, true, false, ◌&&◌, not, Option, none, some, List, [], ◌∷◌, ◌++◌, map,
  if◌then◌else◌,
}
use analisis_de_protocolo_de.Prelude.Text.{Text, codes, text_eq, or_default, join}
use analisis_de_protocolo_de.Prelude.Dict.{Dict, get, put}
use analisis_de_protocolo_de.Prelude.Result.{
  Result, ok, err, out_of_fuel, thrown_by_macro, type_error, macro_not_found, ◌>>=◌,
}
use analisis_de_protocolo_de.Lexer.{
  Token, text, code, fences, def, macro, separator, notes_separator, content_start, content_end,
  lex,
}

pub record Link : Type 0 where
  pub href : Option Text
  pub title : Option Text

pub record ParsedSlide : Type 0 where
  pub content : Items
  pub properties : Dict Text
  pub links : Dict Link
  pub notes : Option Items

-- The options that the parser reads.
pub record ParserOptions : Type 0 where
  pub disable_incremental_slides : Bool

abbrev pub no_options : ParserOptions
no_options = record { disable_incremental_slides = false }

-- What a macro returns: a string, nothing, null, or a value with its `toString()`; or it throws.
pub data MacroValue : Type 0 where
  markdown : Text → MacroValue
  undefined : MacroValue
  null_value : MacroValue
  throws : MacroValue
  other : Text → MacroValue

-- A macro takes `this` (the token's `obj`) and its arguments.
abbrev pub Macros : Type 0
Macros = Text → Option (Option Text → List Text → MacroValue)

-- createSlide, with its property `continued`
abbrev pub create_slide : Text → ParsedSlide
create_slide continued = record {
  content = nil;
  properties = (codes "continued", continued) ∷ [];
  links = [];
  notes = none;
}

-- An open content class.
pub record ContentClass : Type 0 where
  pub class : Text
  pub block : Bool
  pub content : Items

-- createContentClass
abbrev pub create_content_class : List Text → Bool → ContentClass
create_content_class classes block = record {
  class = join (codes " ") classes;
  block = block;
  content = nil;
}

-- `slides`, and `stack`: its bottom is the slide, the open classes are above it, the last first.
pub record ParseState : Type 0 where
  pub slides : List ParsedSlide
  pub slide : ParsedSlide
  pub classes : List ContentClass

-- appendTo(slide, content): to the notes once there are some
pub append_to_slide : ParsedSlide → Item → ParsedSlide
append_to_slide s item = elim s.notes [
  | none ↦ record s { content = append_item s.content item }
  | some ns ↦ record s { notes = some (append_item ns item) }
]

-- appendTo(stack[stack.length - 1], content)
pub append_to : Item → ParsedSlide → List ContentClass → ParsedSlide × List ContentClass
append_to item s [] = (append_to_slide s item, [])
append_to item s (c ∷ cs) = (s, record c { content = append_item c.content item } ∷ cs)

pub append_top : Item → ParseState → ParseState
append_top item st =
    let (s, cs) = append_to item st.slide st.classes in record st { slide = s; classes = cs }

-- The innermost class goes into the one around it, or into the slide.
pub end_class : List ContentClass → ParseState → Result ParseState
end_class [] st = err type_error
end_class (c ∷ cs) st =
    ok (append_top (content_class c.block c.class c.content) (record st { classes = cs }))

-- value[0].content[0]
pub first_content : List ParsedSlide → Result Item
first_content [] = err type_error
first_content (s ∷ ss) = elim s.content [ nil ↦ err type_error | cons x xs ↦ ok x ]

abbrev pub bool_text : Bool → Text
bool_text true = codes "true"
bool_text false = codes "false"

-- The call of a macro; `parse_value` is `self.parse(value, macros)`.
pub call_macro : (Text → Result (List ParsedSlide)) → MacroValue → Result Item
call_macro parse_value (markdown v) = parse_value v >>= first_content
call_macro parse_value undefined = ok (string [])
call_macro parse_value null_value = err type_error
call_macro parse_value throws = err thrown_by_macro
call_macro parse_value (other t) = ok (string t)

pub separate : ParserOptions → Text → ParseState → ParseState
separate options t st =
    let is_fragment = text_eq t (codes "--") in
    if is_fragment && options.disable_incremental_slides
    then record st { slide = record (st.slide) { notes = none } }
    else record {
      slides = st.slides ++ st.slide ∷ [];
      slide = create_slide (bool_text is_fragment);
      classes = [];
    }

-- The body of `tokens.forEach`.
pub step :
    (Text → Result (List ParsedSlide))
    → Macros
    → ParserOptions
    → Token
    → ParseState
    → Result ParseState
step parse_value macros options (text t) st = ok (append_top (string t) st)
step parse_value macros options (code t) st = ok (append_top (string t) st)
step parse_value macros options (fences t) st = ok (append_top (string t) st)
step parse_value macros options (def id href title) st = ok (record st {
  slide = record (st.slide) {
    links = put id (record { href = href; title = title }) st.slide.links;
  };
})
step parse_value macros options (macro name args obj) st = elim (macros name) [
  | none ↦ err (macro_not_found name)
  | some f ↦ call_macro parse_value (f obj args) >>= λ item. ok (append_top item st)
]
step parse_value macros options (content_start classes block) st =
    ok (record st { classes = create_content_class classes block ∷ st.classes })
step parse_value macros options (content_end block) st = end_class st.classes st
step parse_value macros options (separator t) st = ok (separate options t st)
step parse_value macros options (notes_separator t) st =
    ok (record st { slide = record (st.slide) { notes = some nil } })

pub steps :
    (Text → Result (List ParsedSlide))
    → Macros
    → ParserOptions
    → List Token
    → ParseState
    → Result ParseState
steps parse_value macros options [] st = ok st
steps parse_value macros options (t ∷ ts) st =
    step parse_value macros options t st >>= steps parse_value macros options ts

abbrev pub start_state : ParseState
start_state = record { slides = []; slide = create_slide (codes "false"); classes = [] }

-- slide.content[0] = extractProperties(slide.content[0] || '', slide.properties). The finder does
-- not match the text '[object Object]' that a content class is for it.
pub take_properties : ParsedSlide → ParsedSlide
take_properties s = elim s.content [
  | nil ↦ record s { content = cons (string []) nil }
  | cons x xs ↦ elim x [
    | string t ↦
        let (t', properties) = extract_properties t s.properties in
        record s { content = cons (string t') xs; properties = properties }
    | content_class b c i ↦ s
  ]
]

-- slides.filter: those that do not have `exclude: true`
pub is_included : (Text → Text) → ParsedSlide → Bool
is_included low s =
    not (text_eq (low (or_default (get (codes "exclude") s.properties) [])) (codes "true"))

pub keep_included : (Text → Text) → List ParsedSlide → List ParsedSlide
keep_included low [] = []
keep_included low (s ∷ ss) =
    if is_included low s then s ∷ keep_included low ss else keep_included low ss

abbrev pub lexed : Option (List Token) → Result (List Token)
lexed none = err out_of_fuel
lexed (some ts) = ok ts

-- What `parse` does with the end of the loop.
pub finish : (Text → Text) → ParseState → List ParsedSlide
finish low st = keep_included low (map take_properties (st.slides ++ st.slide ∷ []))

-- Parser.prototype.parse
unfoldable pub parse : (Text → Text) → Macros → ℕ → Text → ParserOptions → Result (List ParsedSlide)
unfolding lex clean_input text_eq get put join append_item append_to_slide append_to append_top
    end_class first_content call_macro separate step steps extract_properties take_properties
    is_included keep_included finish
parse low macros zero src options = err out_of_fuel
parse low macros (suc fuel) src options = lexed (lex low (clean_input src)) >>= λ tokens.
    steps (λ v. parse low macros fuel v no_options) macros options tokens start_state >>= λ st.
    ok (finish low st)
