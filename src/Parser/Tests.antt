-- ===== src/Parser/Tests.antt =====
-- Sources and their slides, and the theorems at them.
use analisis_de_protocolo_de.Prelude.{
  ◌≡◌, ◌≤◌, length, refl, none, some, ◌||◌, if◌then◌else◌, [], ◌∷◌, ◌++◌, false,
}
use analisis_de_protocolo_de.Prelude.Text.{Text, codes, text_eq}
use analisis_de_protocolo_de.Prelude.Result.{thrown_by_macro, ok, err, macro_not_found}
use analisis_de_protocolo_de.Regex.{exec}
use analisis_de_protocolo_de.Macros.{Inherited, macros}
use analisis_de_protocolo_de.Parser.Extraction.{extract_properties-done}
use analisis_de_protocolo_de.Parser.{
  other, throws, extract_properties, property_finder, parse, no_options, nil, cons, string,
  content_class, clean_input,
}

test_clean : clean_input (codes "  a" ++ (10 ∷ codes "   b")) ≡ codes "a" ++ (10 ∷ codes " b")
unfolding clean_input
test_clean = refl

test_properties :
    parse (λ s. s) (λ _. none) 1 (codes "name: x" ++ (10 ∷ codes "hi .a[b]")) no_options
    ≡ ok (
        record {
          content =
              cons
                (string (10 ∷ codes "hi "))
                (cons (content_class false (codes "a") (cons (string (codes "b")) nil)) nil);
          properties = (codes "continued", codes "false") ∷ (codes "name", codes "x") ∷ [];
          links = [];
          notes = none;
        }
        ∷ [])
unfolding parse
test_properties = refl

test_missing_macro :
    parse (λ s. s) (λ _. none) 1 (codes "![:m]") no_options ≡ err (macro_not_found (codes "m"))
unfolding parse
test_missing_macro = refl

-- A show of two slides, the second with a fragment, a class, a macro and notes.
abbrev show : Text
show =
    codes "name: x"
    ++ (10
        ∷ (codes "---"
            ++ (10
                ∷ (codes ".a[b] ![:hello]"
                    ++ (10 ∷ (codes "--" ++ (10 ∷ (codes "c" ++ (10 ∷ codes "???")))))))))

-- Of what every object inherits, `constructor`, which returns an object, and `valueOf`, which throws on undefined.
abbrev pub inherited : Inherited
inherited = record {
  functions = λ name.
      if text_eq name (codes "constructor")
      then some (λ _ _. other (codes "[object Object]"))
      else if text_eq name (codes "valueOf")
      then some (λ _ _. throws)
      else none;
  is_name = λ name. text_eq name (codes "constructor") || text_eq name (codes "valueOf");
}

test_inherited :
    parse (λ s. s) (macros inherited) 2 (codes "![:valueOf]") no_options ≡ err thrown_by_macro
unfolding parse macros text_eq
test_inherited = refl

extract_properties-done_example :
    (exec property_finder (extract_properties (codes "name: x <!-- class: y --> z") []).0 ≡ none)
    × (length (extract_properties (codes "name: x <!-- class: y --> z") []).0
        ≤ length (codes "name: x <!-- class: y --> z"))
extract_properties-done_example = extract_properties-done (codes "name: x <!-- class: y --> z") []
