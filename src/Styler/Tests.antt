-- ===== src/Styler/Tests.antt =====
-- A document with a style sheet of its own.
use analisis_de_protocolo_de.Prelude.{◌≡◌, refl, [], ◌∷◌, List}
use analisis_de_protocolo_de.Prelude.Text.{codes, text_eq}
use analisis_de_protocolo_de.Prelude.Result.{ok, err, type_error}
use analisis_de_protocolo_de.Styler.{Sheet, page_rule, other_rule, style_document, set_page_size}

abbrev own : List Sheet
own = record { title = []; rules = other_rule ∷ [] } ∷ []

abbrev remark_sheet : Sheet
remark_sheet = record { title = codes "remark"; rules = other_rule ∷ (page_rule [] ∷ []) }

test_set :
    set_page_size (codes "1px 2px") (style_document remark_sheet own)
    ≡ ok (
        record { title = codes "remark"; rules = other_rule ∷ (page_rule (codes "1px 2px") ∷ []) }
        ∷ own)
unfolding set_page_size style_document text_eq
test_set = refl

test_not_styled : set_page_size (codes "1px 2px") own ≡ err type_error
unfolding set_page_size text_eq
test_not_styled = refl
