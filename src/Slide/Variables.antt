-- ===== src/Slide/Variables.antt =====
-- `Slide.prototype.expandVariables`.
use analisis_de_protocolo_de.Prelude.{
  Bool, ◌&&◌, ◌||◌, not, Option, none, some, List, [], ◌∷◌, ◌++◌, ◌==◌, if◌then◌else◌, take,
}
use analisis_de_protocolo_de.Prelude.Text.{Text, codes, text_eq, trim, truthy}
use analisis_de_protocolo_de.Prelude.Dict.{Dict, get, put}
use analisis_de_protocolo_de.Regex.{Re, Match, one, seq, group, plus, opt, chr, lit, or_empty}
use analisis_de_protocolo_de.Regex.Global.{match_all, replace_all}
use analisis_de_protocolo_de.Parser.{Item, Items, string, content_class, nil, cons}

-- /(\\)?(\{\{([^\}\n]+)\}\})/g
unfoldable pub variable_re : Re
variable_re = seq (opt (group 1 (chr 92))) (
    group 2 (
      seq (lit (codes "{{"))
        (seq (group 3 (plus (one (λ c. not (c == b'}' || c == 10))))) (lit (codes "}}")))))

abbrev pub property_name : Match → Text
property_name m = trim (or_empty (m.groups 3))

-- The inner function `expand`.
unfoldable pub expand : Bool → Dict Text → Match → Text
unfolding trim text_eq get
expand content_only properties m =
    let unescaped_match = or_empty (m.groups 2) in
    if truthy (m.groups 1)
    then (if content_only then take 1 m.whole else unescaped_match)
    else if content_only && not (text_eq (property_name m) (codes "content"))
    then m.whole
    else elim (get (property_name m) properties) [
      | some v ↦ v
      | none ↦ if text_eq (property_name m) (codes "content") then [] else unescaped_match
    ]

-- What `expand` writes to `expandResult`.
abbrev pub Results : Type 0
Results = Dict Text

unfoldable pub result_of : Bool → Dict Text → Match → Option Text
unfolding trim text_eq get
result_of content_only properties m =
    if truthy (m.groups 1)
    then none
    else if content_only && not (text_eq (property_name m) (codes "content"))
    then none
    else get (property_name m) properties

unfoldable pub record_result : Bool → Dict Text → Match → Results → Results
unfolding result_of trim put
record_result content_only properties m results = elim (result_of content_only properties m) [
  | none ↦ results
  | some v ↦ put (property_name m) v results
]

unfoldable pub record_results : Bool → Dict Text → List Match → Results → Results
record_results content_only properties [] results = results
record_results content_only properties (m ∷ ms) results =
    record_results content_only properties ms (record_result content_only properties m results)

-- One string.
unfoldable pub expand_text : Bool → Dict Text → Text → Results → Text × Results
unfolding variable_re expand record_result record_results match_all replace_all
expand_text content_only properties t results = (
  replace_all variable_re (expand content_only properties) t,
  record_results content_only properties (match_all variable_re t) results,
)

unfoldable mutual
  pub expand_item : Bool → Dict Text → Item → Results → Item × Results
  expand_item content_only properties (string t) results =
      let (t', results') = expand_text content_only properties t results in (string t', results')
  expand_item content_only properties (content_class b c inner) results =
      let (inner', results') = expand_items content_only properties inner results in
      (content_class b c inner', results')

  pub expand_items : Bool → Dict Text → Items → Results → Items × Results
  expand_items content_only properties nil results = (nil, results)
  expand_items content_only properties (cons x xs) results =
      let (x', results') = expand_item content_only properties x results in
      let (xs', results'') = expand_items content_only properties xs results' in
      (cons x' xs', results'')

unfoldable pub expand_variables : Bool → Dict Text → Items → Results → Items × Results
unfolding expand_item expand_items expand_text
expand_variables = expand_items

-- Content where a text is expected: a list has a comma between two items.
unfoldable pub item_text : Item → Text
item_text (string t) = t
item_text (content_class b c i) = codes "[object Object]"

unfoldable pub items_text : Items → Text
unfolding item_text
items_text nil = []
items_text (cons x nil) = item_text x
items_text (cons x (cons y ys)) = item_text x ++ (codes "," ++ items_text (cons y ys))
