-- ===== src/Converter/Tests.antt =====
-- A little content with a content class, and the theorem at it.
use analisis_de_protocolo_de.Prelude.{◌≡◌, refl, true, false, Option, none, [], ◌++◌}
use analisis_de_protocolo_de.Prelude.Text.{Text, codes, trim_start}
use analisis_de_protocolo_de.Prelude.Dict.{Dict}
use analisis_de_protocolo_de.Parser.{Items, string, content_class, nil, cons, append_item, Link}
use analisis_de_protocolo_de.Converter.{convert_markdown, drop_empty_paragraphs, drop_line_end}
use analisis_de_protocolo_de.Converter.Glue.{push, convert_markdown-append_item}

abbrev to_html : Text → Dict Link → Text
to_html markdown links = codes "<p>" ++ (markdown ++ codes "</p>")

abbrev only_paragraph : Text → Option Text
only_paragraph html = none

abbrev content : Items
content =
    cons (content_class false (codes "red") (cons (string (codes "x")) nil))
      (cons (string (codes " y")) nil)

test_class :
    convert_markdown to_html only_paragraph (λ t. t) content [] false
    ≡ codes "<p><span class=\"red\"><p>x</p></span> y</p>"
unfolding convert_markdown trim_start
test_class = refl

test_paragraphs : drop_empty_paragraphs 0 (codes "a<p> \n</p>b<p>c</p>") ≡ codes "ab<p>c</p>"
unfolding drop_empty_paragraphs
test_paragraphs = refl

test_line_end : drop_line_end (codes "a\n\r") ≡ codes "a"
unfolding drop_line_end
test_line_end = refl

convert_markdown-append_item_example :
    convert_markdown to_html only_paragraph
      (λ t. t)
      (append_item content (string (codes "z")))
      []
      true
    ≡ convert_markdown to_html only_paragraph (λ t. t) (push content (string (codes "z"))) [] true
convert_markdown-append_item_example =
    convert_markdown-append_item to_html only_paragraph (λ t. t) [] content (string (codes "z"))
      true
