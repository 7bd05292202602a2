-- ===== src/Parser/Content.antt =====
-- The content of slides: strings, and content classes with their own content.
use analisis_de_protocolo_de.Prelude.{Bool, ◌++◌}
use analisis_de_protocolo_de.Prelude.Text.{Text}

mutual
  pub data Item : Type 0 where
    string : Text → Item
    -- block, class, content
    content_class : Bool → Text → Items → Item

  pub data Items : Type 0 where
    nil : Items
    cons : Item → Items → Items

-- The end of `appendTo`: a string that follows a string is added to it, anything else is pushed.
unfoldable pub append_item : Items → Item → Items
append_item nil item = cons item nil
append_item (cons (string a) nil) (string b) = cons (string (a ++ b)) nil
append_item (cons x nil) item = cons x (cons item nil)
append_item (cons x (cons y ys)) item = cons x (append_item (cons y ys) item)
