-- ===== src/Api/Tests.antt =====
-- A short source with markup.
use analisis_de_protocolo_de.Prelude.{◌≡◌, refl, ◌∷◌, ◌++◌, true, none, some}
use analisis_de_protocolo_de.Prelude.Text.{Text, codes}
use analisis_de_protocolo_de.Api.{unescape, apply_defaults}
use analisis_de_protocolo_de.Api.Source.{escaped, contains_text, unescape-escaped, unescape-quot}

abbrev page_source : Text
page_source = codes "a<b & &lt; c>"

test_bar : unescape (codes "a&|t;&gt;&amp;lt;") ≡ codes "a>>&lt;"
unfolding unescape
test_bar = refl

test_source : apply_defaults none (some (codes "&lt;b")) ≡ (some (codes "<b"), true)
unfolding apply_defaults
test_source = refl

unescape-escaped_example : unescape (escaped page_source) ≡ page_source
unfolding contains_text
unescape-escaped_example = unescape-escaped page_source refl (
  refl,
  (
    refl,
    (refl, (refl, (refl, (refl, (refl, (refl, (refl, (refl, (refl, (refl, (refl, tt))))))))))),
  ),
)

unescape-quot_example :
    unescape (escaped (codes "&quot;" ++ codes "x")) ≡ 34 ∷ unescape (escaped (codes "x"))
unescape-quot_example = unescape-quot (codes "x")
