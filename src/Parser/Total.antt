-- ===== src/Parser/Total.antt =====
-- `parse` on every branch: it returns slides, or the error of a macro.
use analisis_de_protocolo_de.Prelude.{ℕ, suc, ◌≡◌, Option, none, some, List, ◌∷◌}
use analisis_de_protocolo_de.Prelude.Text.{Text, codes}
use analisis_de_protocolo_de.Prelude.Result.{Result, Error, ok, err, macro_not_found}
use analisis_de_protocolo_de.Lexer.{Token, lex}
use analisis_de_protocolo_de.Macros.{Inherited, macros}
use analisis_de_protocolo_de.Parser.{
  ParserOptions, Macros, MacroValue, ParseState, call_macro, parse, clean_input, finish, no_options,
}
use analisis_de_protocolo_de.Parser.Structure.{continued_list, breaks}

-- How a call of `parse` ends.
pub data ParseOutcome (low : Text → Text) (macros : Macros) (fuel : ℕ) (src : Text)
    (options : ParserOptions) : Type 0 where
  parsed :
      (tokens : List Token) (st : ParseState)
      → lex low (clean_input src) ≡ some tokens
      → continued_list st ≡ some (codes "false") ∷ breaks options tokens
      → parse low macros (suc fuel) src options ≡ ok (finish low st)
      → ParseOutcome low macros fuel src options
  no_macro :
      (name : Text)
      → macros name ≡ none
      → parse low macros (suc fuel) src options ≡ err (macro_not_found name)
      → ParseOutcome low macros fuel src options
  macro_fails :
      (name : Text) (f : Option Text → List Text → MacroValue) (obj : Option Text)
      (args : List Text) (e : Error)
      → macros name ≡ some f
      → call_macro (λ t. parse low macros fuel t no_options) (f obj args) ≡ err e
      → parse low macros (suc fuel) src options ≡ err e
      → ParseOutcome low macros fuel src options

module _ (low : Text → Text) (inherited : Inherited) where
  -- A call of a function that is inherited fails, as a macro, with the error.
  abbrev pub FailsInherited : Error → Type 0
  FailsInherited e =
      (name : Text) × (f : Option Text → List Text → MacroValue) × (obj : Option Text)
      × (args : List Text) × (inherited.functions name ≡ some f)
      × (call_macro (λ t. parse low (macros inherited) 1 t no_options) (f obj args) ≡ err e)
