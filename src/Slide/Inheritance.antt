-- ===== src/Slide/Inheritance.antt =====
-- The properties that a slide has from its template.
use analisis_de_protocolo_de.Prelude.{Option, none, some}
use analisis_de_protocolo_de.Prelude.Text.{Text}
use analisis_de_protocolo_de.Prelude.Dict.{Dict}
use analisis_de_protocolo_de.Slide.{Slide}

-- The first of two values, or else the second.
abbrev pub or_else : Option Text → Option Text → Option Text
or_else none b = b
or_else (some v) b = some v
