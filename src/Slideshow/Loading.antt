-- ===== src/Slideshow/Loading.antt =====
-- Loading a source (`loadFromString` and `loadFromUrl` of `models/slideshow.js`), with the links of all
-- slides, and the options with their defaults.
use analisis_de_protocolo_de.Prelude.{
  ℕ, Bool, false, ◌&&◌, Option, none, some, List, [], ◌∷◌, ◌==◌, map, if◌then◌else◌,
}
use analisis_de_protocolo_de.Prelude.Text.{Text, codes, or_default}
use analisis_de_protocolo_de.Prelude.Dict.{Dict, get, put}
use analisis_de_protocolo_de.Prelude.Result.{Result, ok, err, load_error, ◌>>=◌}
use analisis_de_protocolo_de.Parser.{Macros, Link, ParserOptions, parse}
use analisis_de_protocolo_de.Slide.{Slide, expand_variables}
use analisis_de_protocolo_de.Slideshow.Templates.{try_create_slides}
use analisis_de_protocolo_de.Slideshow.{SlideOptions, Building}

-- getOrDefault
unfoldable pub get_or_default {ℓ} : {Value : Type ℓ} → Option Value → Value → Value
get_or_default none default_value = default_value
get_or_default (some v) default_value = v

-- The options of the slide show, but those of the parser and of `createSlides`.
pub record ShowOptions : Type 0 where
  pub ratio : Option Text
  pub highlight_style : Option Text
  pub highlight_lines : Option Bool
  pub highlight_inline_code : Option Bool
  pub highlight_language : Option Text
  pub clone_target : Option Text

unfoldable pub get_ratio : ShowOptions → Text
unfolding get_or_default
get_ratio o = get_or_default o.ratio (codes "4:3")

unfoldable pub get_highlight_style : ShowOptions → Text
unfolding get_or_default
get_highlight_style o = get_or_default o.highlight_style (codes "default")

unfoldable pub get_highlight_lines : ShowOptions → Bool
unfolding get_or_default
get_highlight_lines o = get_or_default o.highlight_lines false

unfoldable pub get_highlight_inline_code : ShowOptions → Bool
unfolding get_or_default
get_highlight_inline_code o = get_or_default o.highlight_inline_code false

unfoldable pub get_highlight_language : ShowOptions → Text
unfolding get_or_default
get_highlight_language o = get_or_default o.highlight_language []

unfoldable pub get_clone_target : ShowOptions → Text
unfolding get_or_default
get_clone_target o = get_or_default o.clone_target (codes "_blank")

pub record Show : Type 0 where
  pub slides : Building
  pub links : Dict Link

-- slide.expandVariables()
unfoldable pub expand_slide : Slide → Slide
unfolding expand_variables
expand_slide s = record s { content = (expand_variables false s.properties s.content []).0 }

unfoldable pub expand_numbers : List (ℕ × List Slide) → List (ℕ × List Slide)
unfolding expand_slide
expand_numbers [] = []
expand_numbers ((n, ss) ∷ d) = (n, map expand_slide ss) ∷ expand_numbers d

-- The inner function `expandVariables`. The lists of `byNumber` hold the same slides; of those of
-- `byName` only the index is read.
unfoldable pub expand_slides : Building → Building
unfolding expand_slide expand_numbers
expand_slides b = record b {
  slides = map expand_slide b.slides;
  by_number = expand_numbers b.by_number;
}

abbrev pub keys {ℓ} : {V : Type ℓ} → Dict V → List Text
keys [] = []
keys ((k, v) ∷ d) = k ∷ keys d

-- for (id in from) links[id] = from[id]
unfoldable pub add_links : List Text → Dict Link → Dict Link → Dict Link
add_links [] from links = links
add_links (id ∷ ids) from links = elim (get id from) [
  | none ↦ add_links ids from links
  | some l ↦ add_links ids from (put id l links)
]

unfoldable pub collect_links : List Slide → Dict Link → Dict Link
unfolding add_links
collect_links [] links = links
collect_links (s ∷ ss) links = collect_links ss (add_links (keys s.links) s.links links)

-- loadFromString, of the option `source`, up to the event `slidesChanged`, whose listeners belong to
-- navigation and the view; `low` is `toLowerCase`, `fuel` bounds how deep macros call macros, and
-- `is_inherited` has the names that every object inherits.
unfoldable pub load_from_string :
    (Text → Text)
    → Macros
    → (Text → Bool)
    → ℕ
    → ParserOptions
    → SlideOptions
    → Option Text
    → Result Show
unfolding try_create_slides expand_slides collect_links
load_from_string low macros is_inherited fuel parser_options slide_options source =
    parse low macros fuel (or_default source []) parser_options >>= λ parsed.
    try_create_slides is_inherited slide_options parsed >>= λ created.
    let slides = expand_slides created in
    ok (record { slides = slides; links = collect_links slides.slides [] })

-- text.replace(/\r\n/g, '\n')
unfoldable pub normalize_lines : Text → Text
normalize_lines [] = []
normalize_lines (c ∷ []) = c ∷ []
normalize_lines (c ∷ (d ∷ s)) =
    let pair = 10 ∷ normalize_lines s in
    let single = c ∷ normalize_lines (d ∷ s) in if (c == 13) && (d == 10) then pair else single

-- The listener `onload` of `loadFromUrl`: nothing happens before the request is done.
unfoldable pub on_load :
    (Text → Text)
    → Macros
    → (Text → Bool)
    → ℕ
    → ParserOptions
    → SlideOptions
    → ℕ
    → ℕ
    → Text
    → Text
    → Option (Result Show)
unfolding load_from_string normalize_lines
on_load low macros is_inherited fuel parser_options slide_options ready_state status status_text
      response =
    if ready_state == 4
    then some (
        if status == 200
        then load_from_string low macros is_inherited fuel parser_options slide_options
            (some (normalize_lines response))
        else err (load_error status_text))
    else none
