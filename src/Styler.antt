-- ===== src/Styler.antt =====
-- The style sheet of the program (`components/styler/styler.js`). A style sheet is its title and its rules; the one
-- that the browser makes of the texts in `resources.js` and of the highlighter's styles is given.
pub mod Page
pub mod Tests
use analisis_de_protocolo_de.Prelude.{
  Bool, true, false, Option, none, some, List, [], ◌∷◌, if◌then◌else◌,
}
use analisis_de_protocolo_de.Prelude.Text.{Text, codes, text_eq}
use analisis_de_protocolo_de.Prelude.Result.{Result, ok, err, type_error, ◌>>=◌}

pub data Rule : Type 0 where
  -- a CSSPageRule, with the `size` of its style
  page_rule : Text → Rule
  other_rule : Rule

pub record Sheet : Type 0 where
  pub title : Text
  pub rules : List Rule

unfoldable pub is_remark : Sheet → Bool
unfolding text_eq
is_remark sheet = text_eq sheet.title (codes "remark")

-- getRemarkStylesheet, of `document.styleSheets`
unfoldable pub get_remark_stylesheet : List Sheet → Option Sheet
unfolding is_remark
get_remark_stylesheet [] = none
get_remark_stylesheet (sheet ∷ sheets) =
    if is_remark sheet then some sheet else get_remark_stylesheet sheets

-- styleDocument: the new sheet comes first, unless there is one of its title
unfoldable pub style_document : Sheet → List Sheet → List Sheet
unfolding get_remark_stylesheet
style_document new_sheet sheets = elim (get_remark_stylesheet sheets) [
  | none ↦ new_sheet ∷ sheets
  | some sheet ↦ sheets
]

-- getPageRule(stylesheet).style.size = size; without such a rule it throws
unfoldable pub set_rule_size : Text → List Rule → Result (List Rule)
set_rule_size size [] = err type_error
set_rule_size size (page_rule old ∷ rules) = ok (page_rule size ∷ rules)
set_rule_size size (other_rule ∷ rules) =
    set_rule_size size rules >>= λ rules'. ok (other_rule ∷ rules')

-- setPageSize; without the style sheet it throws
unfoldable pub set_page_size : Text → List Sheet → Result (List Sheet)
unfolding is_remark set_rule_size
set_page_size size [] = err type_error
set_page_size size (sheet ∷ sheets) =
    let here =
      set_rule_size size sheet.rules >>= λ rules. ok (record sheet { rules = rules } ∷ sheets) in
    let further = set_page_size size sheets >>= λ sheets'. ok (sheet ∷ sheets') in
    if is_remark sheet then here else further
