-- ===== src/Styler/Page.antt =====
-- The page rule of a document that is styled.
use analisis_de_protocolo_de.Prelude.{◌≡◌, refl, true, Option, none, some, List, [], ◌∷◌}
use analisis_de_protocolo_de.Prelude.Text.{Text}
use analisis_de_protocolo_de.Prelude.Result.{ok}
use analisis_de_protocolo_de.Styler.{
  Rule, page_rule, other_rule, Sheet, is_remark, get_remark_stylesheet, style_document,
  set_rule_size, set_page_size,
}

-- The size of the first page rule.
unfoldable pub page_size : List Rule → Option Text
page_size [] = none
page_size (page_rule size ∷ rules) = some size
page_size (other_rule ∷ rules) = page_size rules

set_rule_size-page_size :
    (size old : Text) (rules : List Rule)
    → page_size rules ≡ some old
    → (rules' : List Rule) × (set_rule_size size rules ≡ ok rules') × (page_size rules' ≡ some size)
unfolding set_rule_size page_size
set_rule_size-page_size size old [] h = absurd (cc)
set_rule_size-page_size size old (page_rule s ∷ rules) h = (page_rule size ∷ rules, refl, refl)
set_rule_size-page_size size old (other_rule ∷ rules) h =
    let (rules', e, p) = set_rule_size-page_size size old rules h in
    (other_rule ∷ rules', rw e refl, p)

style_document-none :
    (sheet : Sheet) (sheets : List Sheet)
    → get_remark_stylesheet sheets ≡ none
    → style_document sheet sheets ≡ sheet ∷ sheets
unfolding style_document
style_document-none sheet sheets u = rw (style_document, u) refl

style_document-styled :
    (sheet : Sheet) (sheets : List Sheet)
    → is_remark sheet ≡ true
    → style_document sheet (sheet ∷ sheets) ≡ sheet ∷ sheets
unfolding style_document get_remark_stylesheet
style_document-styled sheet sheets r = rw (style_document, get_remark_stylesheet, r) refl

set_page_size-remark :
    (size : Text) (sheet : Sheet) (sheets : List Sheet) (rules : List Rule)
    → is_remark sheet ≡ true
    → set_rule_size size sheet.rules ≡ ok rules
    → set_page_size size (sheet ∷ sheets) ≡ ok (record sheet { rules = rules } ∷ sheets)
unfolding set_page_size
set_page_size-remark size sheet sheets rules r e = rw (set_page_size, r, e) refl

-- Where the document had no sheet of the program's title, and the program's sheet has a page rule, styling
-- the document a second time changes nothing, and the size of the page can be set: the first sheet of the
-- program's title then has it.
pub set_page_size-style_document :
    (size old : Text) (sheet : Sheet) (sheets : List Sheet)
    → is_remark sheet ≡ true
    → page_size sheet.rules ≡ some old
    → get_remark_stylesheet sheets ≡ none
    → (style_document sheet (style_document sheet sheets) ≡ style_document sheet sheets)
      × (rules : List Rule) × (set_page_size size (style_document sheet sheets)
          ≡ ok (record sheet { rules = rules } ∷ sheets))
      × (page_size rules ≡ some size)
set_page_size-style_document size old sheet sheets r h u =
    let (rules, e, p) = set_rule_size-page_size size old sheet.rules h in
    rw (style_document-none sheet sheets u) (
      style_document-styled sheet sheets r,
      rules,
      set_page_size-remark size sheet sheets rules r e,
      p,
    )
