-- ===== src/SlideView/Tests.antt =====
-- A slide's properties and a block of code, and the theorems at them.
use analisis_de_protocolo_de.Prelude.{
  ◌+◌, ◌≤◌, ◌≡◌, refl, true, false, ◌||◌, List, [], ◌∷◌, some, map, length, if◌then◌else◌,
}
use analisis_de_protocolo_de.Prelude.Text.{Text, codes, text_eq, or_default, starts_with}
use analisis_de_protocolo_de.Prelude.Dict.{Dict, get}
use analisis_de_protocolo_de.Prelude.Result.{ok, err, type_error}
use analisis_de_protocolo_de.ClassList.{has_class}
use analisis_de_protocolo_de.SlideView.{
  create_slide_element, set_class_from_properties, style_content_element,
}
use analisis_de_protocolo_de.SlideView.Classes.{has_piece, has_class-set_class_from_properties}
use analisis_de_protocolo_de.SlideView.Code.{
  mark_spans, Block, CodeOptions, Highlighted, highlight_code_block, extract_metadata, split_lines,
}
use analisis_de_protocolo_de.SlideView.Spans.{highlight_block_spans, backticks}
use analisis_de_protocolo_de.SlideView.Quotes.{mark_quoted, highlight_block_spans-mark_quoted}
use analisis_de_protocolo_de.SlideView.Lines.{mark_classes, highlight_code_block-marked}

abbrev properties : Dict Text
properties = (codes "class", codes "center,middle inverse") ∷ (codes "continued", codes "true") ∷ []

test_style :
    (style_content_element properties (codes "github")).0
    ≡ codes "remark-slide-content center middle inverse hljs-github"
unfolding style_content_element text_eq
test_style = refl

test_element : create_slide_element properties ≡ codes "remark-slide remark-slide-incremental"
unfolding create_slide_element
test_element = refl

has_class-set_class_from_properties_example :
    has_class (set_class_from_properties properties []) (codes "middle") ≡ (
      (has_class [] (codes "middle") || text_eq (codes "remark-slide-content") (codes "middle"))
      || has_piece (codes "middle") (or_default (get (codes "class") properties) []))
has_class-set_class_from_properties_example =
    has_class-set_class_from_properties properties [] (codes "middle")

abbrev engine : Text → Text → Text → Text × Text
engine tab class_name html = (class_name, html)

children_of : Text → List Text
unfolding starts_with
children_of [] = []
children_of (c ∷ s) =
    if starts_with (codes "<div") (c ∷ s)
    then codes "remark-code-line" ∷ children_of s
    else children_of s

abbrev lines_of : Text → List Text
lines_of html = map (λ c. codes "a `b`") (children_of html)

abbrev code_options : CodeOptions
code_options = record {
  lines = true;
  inline_code = false;
  language = codes "js";
  spans = some backticks;
}

abbrev block : Block
block = record { class_name = []; in_pre = true; inner_html = codes "* a\n*b\nc\n" }

test_metadata : extract_metadata (codes "* a\r\n*b\nc\n") ≡ (codes "  a\nb\nc\n", 0 ∷ 1 ∷ [])
unfolding extract_metadata
test_metadata = refl

-- A last line that is only a mark, without a line end, has no child.
test_last_line :
    highlight_code_block engine children_of lines_of code_options
      (record block { inner_html = codes "*" })
    ≡ err type_error
unfolding highlight_code_block children_of
test_last_line = refl

highlight_code_block-marked_example :
    (r : Highlighted) × (highlight_code_block engine children_of lines_of code_options block ≡ ok r)
    × (r.children ≡ mark_classes (split_lines block.inner_html) (children_of r.inner_html))
    × (length (split_lines block.inner_html) ≤ length (children_of r.inner_html) + 1)
    × (mark_spans code_options.spans (lines_of r.inner_html) ≡ ok r.lines)
unfolding highlight_code_block children_of
highlight_code_block-marked_example =
    highlight_code_block-marked engine children_of lines_of (λ tab c h. refl) code_options block
      refl refl tt refl refl

test_spans :
    highlight_block_spans backticks (codes "a `b` \\`c`" ∷ [])
    ≡ ok (codes "a <span class=\"remark-code-span-highlighted\">b</span> `c`" ∷ [])
unfolding highlight_block_spans
test_spans = refl

-- The expression wants a unit before the backtick, which a line that starts with one has not.
test_span_at_start : highlight_block_spans backticks (codes "`b` c" ∷ []) ≡ ok (codes "`b` c" ∷ [])
unfolding highlight_block_spans
test_span_at_start = refl

highlight_block_spans-mark_quoted_example :
    highlight_block_spans backticks (codes "a `b` \\`c`" ∷ [])
    ≡ ok (mark_quoted 0 (codes "a `b` \\`c`") ∷ [])
highlight_block_spans-mark_quoted_example =
    highlight_block_spans-mark_quoted (codes "a `b` \\`c`" ∷ [])
