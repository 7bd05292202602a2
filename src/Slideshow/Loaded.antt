-- ===== src/Slideshow/Loaded.antt =====
-- A show that is loaded from its source.
use analisis_de_protocolo_de.Prelude.{◌≡◌, true, Option, none, List, []}
use analisis_de_protocolo_de.Prelude.Text.{Text, or_default}
use analisis_de_protocolo_de.Prelude.Result.{Result, Error, type_error, ok, err, macro_not_found}
use analisis_de_protocolo_de.Parser.{ParserOptions, ParsedSlide, parse}
use analisis_de_protocolo_de.Parser.Total.{FailsInherited}
use analisis_de_protocolo_de.Macros.{Inherited, macros}
use analisis_de_protocolo_de.Slide.{Slide}
use analisis_de_protocolo_de.Slideshow.Numbers.{IsNumbered}
use analisis_de_protocolo_de.Slideshow.Templates.{any_template}
use analisis_de_protocolo_de.Slideshow.Loading.{Show}

-- Why loading a source throws an error, with the macros that come with the program.
pub data LoadError (low : Text → Text) (inherited : Inherited) (parser_options : ParserOptions)
    (source : Option Text) (e : Error) : Type 0 where
  no_macro :
      (name : Text)
      → macros inherited name ≡ none
      → e ≡ macro_not_found name
      → LoadError low inherited parser_options source e
  inherited_macro : FailsInherited low inherited e → LoadError low inherited parser_options source e
  inherited_template :
      (parsed : List ParsedSlide)
      → parse low (macros inherited) 2 (or_default source []) parser_options ≡ ok parsed
      → any_template inherited.is_name parsed ≡ true
      → e ≡ type_error
      → LoadError low inherited parser_options source e

-- How loading it ends.
pub data LoadOutcome (low : Text → Text) (inherited : Inherited) (parser_options : ParserOptions)
    (source : Option Text) (r : Result Show) : Type 0 where
  gives :
      (show : Show)
      → r ≡ ok show
      → IsNumbered show.slides.slides show.slides.by_number show.slides.slide_number
      → LoadOutcome low inherited parser_options source r
  throws :
      (e : Error)
      → r ≡ err e
      → LoadError low inherited parser_options source e
      → LoadOutcome low inherited parser_options source r
