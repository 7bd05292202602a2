-- ===== src/Converter.antt =====
-- From the content of a slide to HTML (module 13 of the bundle, `converter.js`). The bundled marked and
-- the browser's reading of HTML are parameters.
pub mod Glue
pub mod Tests
use analisis_de_protocolo_de.Prelude.{
  ℕ, zero, suc, ◌+◌, ◌-◌, Bool, true, false, ◌&&◌, not, Option, none, some, [], ◌∷◌, ◌++◌, ◌==◌,
  drop, if◌then◌else◌,
}
use analisis_de_protocolo_de.Prelude.Text.{Text, codes, is_space, starts_with, trim_start}
use analisis_de_protocolo_de.Prelude.Dict.{Dict}
use analisis_de_protocolo_de.Parser.{Item, Items, string, content_class, nil, cons, Link}

-- `\s*<\/p>` at the start of a text behind n units: the units with it
unfoldable pub closing_after : ℕ → Text → Option ℕ
unfolding starts_with
closing_after n [] = none
closing_after n (c ∷ s) =
    let further = closing_after (n + 1) s in
    if starts_with (codes "</p>") (c ∷ s)
    then some (n + 4)
    else if is_space c
    then further
    else none

unfoldable pub empty_paragraph : Text → Option ℕ
unfolding closing_after starts_with
empty_paragraph s = if starts_with (codes "<p>") s then closing_after 3 (drop 3 s) else none

-- html.replace(/<p>\s*<\/p>/g, ''), with the units of the last match still to be passed over
unfoldable pub drop_empty_paragraphs : ℕ → Text → Text
unfolding empty_paragraph
drop_empty_paragraphs n [] = []
drop_empty_paragraphs (suc n) (c ∷ s) = drop_empty_paragraphs n s
drop_empty_paragraphs zero (c ∷ s) =
    let kept = c ∷ drop_empty_paragraphs 0 s in
    let dropped = λ (n : ℕ). drop_empty_paragraphs (n - 1) s in
    elim (empty_paragraph (c ∷ s)) [ none ↦ kept | some n ↦ dropped n ]

-- html.replace(/\n\r?$/, '')
unfoldable pub drop_line_end : Text → Text
drop_line_end [] = []
drop_line_end (c ∷ []) = if c == 10 then [] else c ∷ []
drop_line_end (c ∷ (d ∷ [])) =
    if c == 10 && d == 13 then [] else c ∷ (if d == 10 then [] else d ∷ [])
drop_line_end (c ∷ (d ∷ (e ∷ s))) = c ∷ drop_line_end (d ∷ (e ∷ s))

abbrev pub tag_of : Bool → Text
tag_of true = codes "div"
tag_of false = codes "span"

module _
    -- marked.Parser.parse(marked.Lexer.lex(markdown)) with the links
    (to_html : Text → Dict Link → Text)
    -- `innerHTML` of the only child of an element with this `innerHTML`, if that is a paragraph
    (only_paragraph : Text → Option Text)
    -- `innerHTML` as the browser gives it back
    (read_back : Text → Text) where
  -- The end of the inner function `convertMarkdown`, of the text that it has put together.
  unfoldable pub render : Dict Link → Bool → Text → Text
  render links inside_content_class markdown =
      let html = to_html (trim_start markdown) links in
      if inside_content_class then elim (only_paragraph html) [ none ↦ html | some p ↦ p ] else html

  unfoldable mutual
    pub markdown_of : Dict Link → Items → Text
    markdown_of links nil = []
    markdown_of links (cons item items) = markdown_of_item links item ++ markdown_of links items

    pub markdown_of_item : Dict Link → Item → Text
    markdown_of_item links (string s) = s
    markdown_of_item links (content_class block class content) =
        codes "<"
        ++ (tag_of block
            ++ (codes " class=\""
                ++ (class
                    ++ (codes "\">"
                        ++ (render links (not block) (markdown_of links content)
                            ++ (codes "</" ++ (tag_of block ++ codes ">")))))))

  -- converter.convertMarkdown
  unfoldable pub convert_markdown : Items → Dict Link → Bool → Text
  unfolding render markdown_of drop_empty_paragraphs drop_line_end
  convert_markdown content links inline = drop_line_end (
      read_back
        (drop_empty_paragraphs 0 (read_back (render links inline (markdown_of links content)))))
