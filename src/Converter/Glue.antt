-- ===== src/Converter/Glue.antt =====
-- Where the content of a slide is cut into strings makes no difference.
use analisis_de_protocolo_de.Prelude.{◌≡◌, refl, ap, Bool, Option, [], ◌++◌, append_assoc}
use analisis_de_protocolo_de.Prelude.Text.{Text}
use analisis_de_protocolo_de.Prelude.Dict.{Dict}
use analisis_de_protocolo_de.Parser.{
  Item, Items, string, content_class, nil, cons, append_item, Link,
}
use analisis_de_protocolo_de.Converter.{
  markdown_of, markdown_of_item, convert_markdown, render, drop_empty_paragraphs, drop_line_end,
}

-- The item as one more at the end.
unfoldable pub push : Items → Item → Items
push nil item = cons item nil
push (cons x items) item = cons x (push items item)

module _ (to_html : Text → Dict Link → Text) (only_paragraph : Text → Option Text)
    (read_back : Text → Text) (links : Dict Link) where
  markdown_of-append_item :
      (items : Items) (item : Item)
      → markdown_of to_html only_paragraph read_back links (append_item items item)
        ≡ markdown_of to_html only_paragraph read_back links (push items item)
  unfolding markdown_of append_item push
  markdown_of-append_item nil item = refl
  markdown_of-append_item (cons (string a) nil) (string b) = append_assoc a b []
  markdown_of-append_item (cons (string a) nil) (content_class k c i) = refl
  markdown_of-append_item (cons (content_class k c i) nil) item = refl
  markdown_of-append_item (cons x (cons y ys)) item =
      ap (λ t. markdown_of_item to_html only_paragraph read_back links x ++ t)
        (markdown_of-append_item (cons y ys) item)

  -- A string that the parser adds to the string before it gives the same HTML as one that stands alone.
  pub convert_markdown-append_item :
      (items : Items) (item : Item) (inline : Bool)
      → convert_markdown to_html only_paragraph read_back (append_item items item) links inline
        ≡ convert_markdown to_html only_paragraph read_back (push items item) links inline
  unfolding convert_markdown
  convert_markdown-append_item items item inline =
      ap
        (λ t. drop_line_end (
          read_back (
            drop_empty_paragraphs 0
              (read_back (render to_html only_paragraph read_back links inline t)))))
        (markdown_of-append_item items item)
