-- ===== src/SlideView/Quotes.antt =====
-- The spans in backticks against a direct description of them.
use analisis_de_protocolo_de.Prelude.{
  ℕ, zero, suc, ◌+◌, ◌≡◌, refl, ap, ap₂, Option, ◌∙◌, none, some, List, [], ◌∷◌, ◌++◌, length,
  length-append, map, if◌then◌else◌, arith,
}
use analisis_de_protocolo_de.Prelude.Text.{Text, codes, text_eq}
use analisis_de_protocolo_de.Prelude.Result.{ok}
use analisis_de_protocolo_de.Regex.{Match}
use analisis_de_protocolo_de.Regex.Global.{
  pieces_from, replaced, replace_all, pieces, pieces_from-step, pieces_step, pieces_from-end,
  pieces_end,
}
use analisis_de_protocolo_de.Regex.Quoted.{Quoted, quoted_at, match_of, match_at-quoted}
use analisis_de_protocolo_de.SlideView.Spans.{
  backticks, backtick_re, span_pattern, replace_span, highlight_block_spans,
}

-- A text in backticks with a unit before it: without the unit if that is a backslash, and else marked.
unfoldable pub marked : Quoted → Text
unfolding text_eq
marked m =
    if text_eq (m.before ∷ []) (codes "\\")
    then 96 ∷ (m.quoted ++ 96 ∷ [])
    else m.before
      ∷ (codes "<span class=\"remark-code-span-highlighted\">" ++ (m.quoted ++ codes "</span>"))

-- The line with its quoted texts marked, from left to right; `skip` units belong to the last of them.
unfoldable pub mark_quoted : ℕ → Text → Text
unfolding marked
mark_quoted skip [] = []
mark_quoted (suc skip) (c ∷ s) = mark_quoted skip s
mark_quoted zero (c ∷ s) = elim (quoted_at 96 (c ∷ s)) [
  | none ↦ c ∷ mark_quoted 0 s
  | some m ↦ marked m ++ mark_quoted (length m.quoted + 2) s
]

replace_span-match_of : (i : ℕ) (m : Quoted) → replace_span (match_of 96 i m) ≡ marked m
unfolding replace_span marked
replace_span-match_of i m = refl

replaced-pieces_from :
    (skip i : ℕ) (done s : Text)
    → replaced replace_span (pieces_from backtick_re skip i done s) ≡ mark_quoted skip s
unfolding replaced pieces_from mark_quoted
replaced-pieces_from zero i done [] =
    ap (replaced replace_span)
      (pieces_from-end backtick_re i done ∙ ap pieces_end (match_at-quoted 96 i done []))
    ∙ (unfold quoted_at in refl)
replaced-pieces_from (suc skip) i done [] = refl
replaced-pieces_from (suc skip) i done (c ∷ s) = replaced-pieces_from skip (i + 1) (c ∷ done) s
replaced-pieces_from zero i done (c ∷ s) =
    ap (replaced replace_span) (
      pieces_from-step backtick_re i done c s
      ∙ ap (pieces_step backtick_re i done c s) (match_at-quoted 96 i done (c ∷ s)))
    ∙ by_match (λ k j d. replaced-pieces_from k j d s) (quoted_at 96 (c ∷ s))
  where
    by_match :
        ((k j : ℕ) (d : Text)
          → replaced replace_span (pieces_from backtick_re k j d s) ≡ mark_quoted k s)
        → (o : Option Quoted)
        → replaced replace_span (
            pieces_step backtick_re i done c s
              (elim o as (λ _. Option Match) [ none ↦ none | some m ↦ some (match_of 96 i m) ]))
          ≡ (elim o [
            | none ↦ c ∷ mark_quoted 0 s
            | some m ↦ marked m ++ mark_quoted (length m.quoted + 2) s
          ])
    by_match further none = ap (c ∷◌) (further 0 (i + 1) (c ∷ done))
    by_match further (some m) =
        let n : suc (length (m.quoted ++ 96 ∷ [])) ≡ length m.quoted + 2 =
          omega (arith, length-append m.quoted (96 ∷ [])) in
        ap₂ (λ a b. a ++ b) (replace_span-match_of i m)
          (further (suc (length (m.quoted ++ 96 ∷ []))) (i + 1) (c ∷ done)
            ∙ ap (λ k. mark_quoted k s) n)

-- Where `highlightSpans` is true, every line of a block is marked exactly where a unit that is no backtick
-- stands before a text in backticks, from left to right; behind a backslash the backticks stay as they are.
pub highlight_block_spans-mark_quoted :
    (children : List Text)
    → highlight_block_spans backticks children ≡ ok (map (mark_quoted 0) children)
unfolding highlight_block_spans span_pattern replace_all pieces
highlight_block_spans-mark_quoted children = ap ok (each children)
  where
    each :
        (lines : List Text)
        → map (replace_all backtick_re replace_span) lines ≡ map (mark_quoted 0) lines
    each [] = refl
    each (l ∷ ls) = ap₂ (λ a b. a ∷ b) (replaced-pieces_from 0 0 [] l) (each ls)
