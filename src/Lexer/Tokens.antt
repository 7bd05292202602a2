-- ===== src/Lexer/Tokens.antt =====
-- The tokens of the lexer, a constructor for each `type`.
use analisis_de_protocolo_de.Prelude.{Bool, Option, List}
use analisis_de_protocolo_de.Prelude.Text.{Text}

pub data Token : Type 0 where
  text : Text → Token
  code : Text → Token
  fences : Text → Token
  -- id, href, title
  def : Text → Option Text → Option Text → Token
  -- name, args, obj
  macro : Text → List Text → Option Text → Token
  separator : Text → Token
  notes_separator : Text → Token
  -- classes, block
  content_start : List Text → Bool → Token
  content_end : Bool → Token
