-- ===== src/Api.antt =====
-- The program's interface (module 6 of the bundle, `api.js`): where the source of a show comes from, and
-- how it is read back from the page. The page is a parameter: what `getElementById('source')` gives.
pub mod Source
pub mod Tests
use analisis_de_protocolo_de.Prelude.{
  ℕ, zero, suc, Bool, true, false, ◌&&◌, ◌||◌, Option, none, some, [], ◌∷◌, ◌==◌, if◌then◌else◌,
}
use analisis_de_protocolo_de.Prelude.Text.{Text, codes, starts_with, or_default}
use analisis_de_protocolo_de.Prelude.Dict.{Dict}
use analisis_de_protocolo_de.Prelude.Result.{Result, ok, err, type_error, ◌>>=◌}
use analisis_de_protocolo_de.Parser.{Items, Link, Macros, parse, no_options}

-- The entity that `/&[l|g]t;/` matches at the start of a text, with the text behind it: `l`, `g` and
-- the bar are the units of its class.
unfoldable pub angle_entity : Text → Option (ℕ × Text)
angle_entity (a ∷ (b ∷ (c ∷ (d ∷ rest)))) =
    if (a == b'&')
      && (((b == b'l') || ((b == b'|') || (b == b'g'))) && ((c == b't') && (d == b';')))
    then some (b, rest)
    else none
angle_entity s = none

-- source.replace(/&[l|g]t;/g, match => match === '&lt;' ? '<' : '>'); `skip` units of the last match
-- are still to be passed over.
unfoldable pub replace_angles : ℕ → Text → Text
unfolding angle_entity
replace_angles n [] = []
replace_angles (suc n) (c ∷ s) = replace_angles n s
replace_angles zero (c ∷ s) =
    let kept = c ∷ replace_angles 0 s in
    let replaced = λ (b : ℕ). (if b == b'l' then b'<' else b'>') ∷ replace_angles 3 s in
    elim (angle_entity (c ∷ s)) [ none ↦ kept | some (b, rest) ↦ replaced b ]

-- source.replace(/&name;/g, unit): all of them, where `extra` is the length of the entity less one
unfoldable pub replace_entity : Text → ℕ → ℕ → ℕ → Text → Text
unfolding starts_with
replace_entity entity extra unit n [] = []
replace_entity entity extra unit (suc n) (c ∷ s) = replace_entity entity extra unit n s
replace_entity entity extra unit zero (c ∷ s) =
    let kept = c ∷ replace_entity entity extra unit 0 s in
    let replaced = unit ∷ replace_entity entity extra unit extra s in
    elim (starts_with entity (c ∷ s)) [ true ↦ replaced | false ↦ kept ]

unfoldable pub replace_amps : Text → Text
unfolding replace_entity
replace_amps s = replace_entity (codes "&amp;") 4 b'&' 0 s

unfoldable pub replace_quots : Text → Text
unfolding replace_entity
replace_quots s = replace_entity (codes "&quot;") 5 34 0 s

unfoldable pub unescape : Text → Text
unfolding replace_angles replace_amps replace_quots
unescape source = replace_quots (replace_amps (replace_angles 0 source))

-- `options.source`, the source element's `innerHTML`, and what `applyDefaults` makes of them: the
-- source, and whether the element is hidden.
unfoldable pub apply_defaults : Option (Option Text) → Option Text → Option Text × Bool
unfolding unescape
apply_defaults (some source) element = (source, false)
apply_defaults none none = (none, false)
apply_defaults none (some inner_html) = (some (unescape inner_html), true)

-- Api.prototype.convert, of the macros and the converter; `fuel` bounds how deep macros call macros.
unfoldable pub convert :
    (Text → Text) → Macros → ℕ → (Items → Dict Link → Bool → Text) → Option Text → Result Text
convert low macros fuel convert_content markdown =
    parse low macros fuel (or_default markdown []) no_options >>= λ slides. elim slides [
      | [] ↦ err type_error
      | ◌∷◌ slide rest ↦ ok (convert_content slide.content [] true)
    ]
