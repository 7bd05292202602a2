-- ===== src/Parser/Structure.antt =====
-- The loop of the parser over tokens that nest: it leaves no class open, and starts one slide at each
-- separator.
use analisis_de_protocolo_de.Prelude.{
  ℕ, zero, suc, ◌≡◌, refl, ap, sym, ◌∙◌, Bool, ◌&&◌, Option, none, some, List, [], ◌∷◌, ◌++◌, map,
  length, arith, append_assoc, append-nil, Option-cases, inl, inr, if◌then◌else◌, Bool-cases,
  eq_of_some, subst,
}
use analisis_de_protocolo_de.Prelude.Text.{Text, codes, text_eq}
use analisis_de_protocolo_de.Prelude.Dict.{get}
use analisis_de_protocolo_de.Prelude.Result.{Result, Error, ok, err, macro_not_found, ◌>>=◌}
use analisis_de_protocolo_de.Lexer.{
  Token, text, code, fences, def, macro, separator, notes_separator, content_start, content_end,
}
use analisis_de_protocolo_de.Lexer.Nesting.{nest}
use mathlib.Core.List.{map-append}
use analisis_de_protocolo_de.Parser.{
  nil, Item, string, content_class, ParsedSlide, ParserOptions, Macros, MacroValue, ParseState,
  ContentClass, append_to_slide, append_to, append_top, end_class, call_macro, separate, step,
  steps, bool_text,
}

-- The property `continued` of every slide so far.
abbrev pub continued_of : ParsedSlide → Option Text
continued_of s = get (codes "continued") s.properties

abbrev pub continued_list : ParseState → List (Option Text)
continued_list st = map continued_of st.slides ++ continued_of st.slide ∷ []

-- What the separators of the tokens make `continued` of the slides that they start; with incremental
-- slides disabled a `--` starts none.
pub breaks : ParserOptions → List Token → List (Option Text)
breaks options [] = []
breaks options (separator t ∷ ts) =
    let is_fragment = text_eq t (codes "--") in
    if is_fragment && options.disable_incremental_slides
    then breaks options ts
    else some (bool_text is_fragment) ∷ breaks options ts
breaks options (t ∷ ts) = breaks options ts

pub data Outcome (parse_value : Text → Result (List ParsedSlide)) (macros : Macros)
    (continued : List (Option Text)) (r : Result ParseState) : Type 0 where
  finished :
      (st : ParseState)
      → r ≡ ok st
      → st.classes ≡ []
      → continued_list st ≡ continued
      → Outcome parse_value macros continued r
  missing :
      (name : Text)
      → macros name ≡ none
      → r ≡ err (macro_not_found name)
      → Outcome parse_value macros continued r
  fails :
      (name : Text) (f : Option Text → List Text → MacroValue) (obj : Option Text)
      (args : List Text) (e : Error)
      → macros name ≡ some f
      → call_macro parse_value (f obj args) ≡ err e
      → r ≡ err e
      → Outcome parse_value macros continued r

append_to_slide-properties :
    (s : ParsedSlide) (item : Item) → (append_to_slide s item).properties ≡ s.properties
unfolding append_to_slide
append_to_slide-properties s item = ground arith

append_to-properties :
    (item : Item) (s : ParsedSlide) (cs : List ContentClass)
    → (append_to item s cs).0.properties ≡ s.properties
unfolding append_to
append_to-properties item s [] = append_to_slide-properties s item
append_to-properties item s (c ∷ cs) = refl

append_to-depth :
    (item : Item) (s : ParsedSlide) (cs : List ContentClass)
    → length (append_to item s cs).1 ≡ length cs
unfolding append_to
append_to-depth item s [] = refl
append_to-depth item s (c ∷ cs) = refl

append_top-continued_list :
    (item : Item) (st : ParseState) → continued_list (append_top item st) ≡ continued_list st
unfolding append_top
append_top-continued_list item st =
    ap (λ p. map continued_of st.slides ++ get (codes "continued") p ∷ [])
      (append_to-properties item st.slide st.classes)

append_top-depth :
    (item : Item) (st : ParseState) → length (append_top item st).classes ≡ length st.classes
unfolding append_top
append_top-depth item st = append_to-depth item st.slide st.classes

separate-continued_list :
    (options : ParserOptions) (t : Text) (st : ParseState) (ts : List Token)
    → continued_list (separate options t st) ++ breaks options ts
      ≡ continued_list st ++ breaks options (separator t ∷ ts)
unfolding separate breaks get text_eq
separate-continued_list options t st ts =
    elim (Bool-cases (text_eq t (codes "--") && options.disable_incremental_slides)) [
      | inl e ↦ rw (e, separate, breaks) refl
      | inr e ↦ rw (e, separate, breaks) (simp (map-append, append_assoc))
    ]

separate-depth :
    (options : ParserOptions) (t : Text) (st : ParseState)
    → length st.classes ≡ 0
    → length (separate options t st).classes ≡ 0
unfolding separate
separate-depth options t st h = ground arith

empty_of_length {ℓ} : {A : Type ℓ} (xs : List A) → length xs ≡ 0 → xs ≡ []
empty_of_length [] h = refl
empty_of_length (x ∷ xs) h = absurd (omega arith)

-- A separator stands outside all classes.
nest_separator :
    (depth : ℕ) (t : Text) (ts : List Token)
    → nest depth (separator t ∷ ts) ≡ some 0
    → (depth ≡ 0) × (nest 0 ts ≡ some 0)
unfolding nest
nest_separator zero t ts h = (refl, h)
nest_separator (suc d) t ts h = absurd (cc)

nest_notes :
    (depth : ℕ) (t : Text) (ts : List Token)
    → nest depth (notes_separator t ∷ ts) ≡ some 0
    → (depth ≡ 0) × (nest 0 ts ≡ some 0)
unfolding nest
nest_notes zero t ts h = (refl, h)
nest_notes (suc d) t ts h = absurd (cc)

module _ (parse_value : Text → Result (List ParsedSlide)) (macros : Macros)
    (options : ParserOptions) where
  abbrev Ends : List (Option Text) → Result ParseState → Type 0
  Ends = Outcome parse_value macros

  abbrev go : List Token → ParseState → Result ParseState
  go = steps parse_value macros options

  abbrev Run : List Token → Type 0
  Run ts =
      (st : ParseState)
      → nest (length st.classes) ts ≡ some 0
      → Ends (continued_list st ++ breaks options ts) (go ts st)

  -- The loop goes on behind an item that is appended.
  appended :
      (item : Item) (ts : List Token) (st : ParseState)
      → nest (length st.classes) ts ≡ some 0
      → Run ts
      → Ends (continued_list st ++ breaks options ts) (go ts (append_top item st))
  appended item ts st h run =
      subst (λ c. Ends (c ++ breaks options ts) (go ts (append_top item st)))
        (append_top-continued_list item st)
        (run (append_top item st) (ap (λ n. nest n ts) (append_top-depth item st) ∙ h))

  macro_called :
      (name : Text) (args : List Text) (obj : Option Text) (ts : List Token) (st : ParseState)
      → nest (length st.classes) ts ≡ some 0
      → Run ts
      → Ends
          (continued_list st ++ breaks options ts)
          (step parse_value macros options (macro name args obj) st >>= go ts)
  unfolding step
  macro_called name args obj ts st h run = elim (Option-cases (macros name)) [
    | inl e ↦ missing name e (rw (e, step) refl)
    | inr (f, e) ↦ rw (e, step) (by_value f e (call_macro parse_value (f obj args)) refl)
  ]
    where
      by_value :
          (f : Option Text → List Text → MacroValue)
          → macros name ≡ some f
          → (r : Result Item) → call_macro parse_value (f obj args) ≡ r
          → Ends
              (continued_list st ++ breaks options ts)
              ((call_macro parse_value (f obj args) >>= λ item. ok (append_top item st)) >>= go ts)
      by_value f e (ok item) u = rw u (appended item ts st h run)
      by_value f e (err x) u = rw u (fails name f obj args x e u refl)

  class_ended :
      (cs : List ContentClass) (b : Bool) (ts : List Token) (st : ParseState)
      → nest (length cs) (content_end b ∷ ts) ≡ some 0
      → Run ts
      → Ends (continued_list st ++ breaks options ts) (end_class cs st >>= go ts)
  unfolding nest end_class
  class_ended [] b ts st h run = absurd (cc)
  class_ended (c ∷ cs) b ts st h run =
      appended (content_class c.block c.class c.content) ts (record st { classes = cs }) h run

  separated :
      (t : Text) (ts : List Token) (st : ParseState)
      → nest (length st.classes) (separator t ∷ ts) ≡ some 0
      → Run ts
      → Ends
          (continued_list st ++ breaks options (separator t ∷ ts))
          (go ts (separate options t st))
  separated t ts st h run =
      let at_slide = nest_separator (length st.classes) t ts h in
      subst (λ c. Ends c (go ts (separate options t st))) (separate-continued_list options t st ts)
        (run (separate options t st)
          (ap (λ n. nest n ts) (separate-depth options t st at_slide.0) ∙ at_slide.1))

  -- The loop from a state with as many open classes as the tokens close: it ends with no class
  -- open and the slides that the separators start, or with the error of a macro.
  pub steps-Outcome : (ts : List Token) → Run ts
  unfolding steps step nest breaks
  steps-Outcome [] st h =
      finished st refl (empty_of_length st.classes (eq_of_some h)) (sym (append-nil _))
  steps-Outcome (text t ∷ ts) st h = appended (string t) ts st h (steps-Outcome ts)
  steps-Outcome (code t ∷ ts) st h = appended (string t) ts st h (steps-Outcome ts)
  steps-Outcome (fences t ∷ ts) st h = appended (string t) ts st h (steps-Outcome ts)
  steps-Outcome (def i r t ∷ ts) st h = steps-Outcome ts _ h
  steps-Outcome (macro name args obj ∷ ts) st h =
      macro_called name args obj ts st h (steps-Outcome ts)
  steps-Outcome (content_start cs b ∷ ts) st h = steps-Outcome ts _ h
  steps-Outcome (content_end b ∷ ts) st h = class_ended st.classes b ts st h (steps-Outcome ts)
  steps-Outcome (separator t ∷ ts) st h = separated t ts st h (steps-Outcome ts)
  steps-Outcome (notes_separator t ∷ ts) st h =
      steps-Outcome ts (record st { slide = record (st.slide) { notes = some nil } })
        (let e = nest_notes (length st.classes) t ts h in ap (λ n. nest n ts) e.0 ∙ e.1)
