-- ===== src/SlideView/Spans.antt =====
-- Spans of code that backticks mark, or a match of the user's expression (`highlightBlockSpans`).
use analisis_de_protocolo_de.Prelude.{Bool, true, List, ◌++◌, map, drop, if◌then◌else◌}
use analisis_de_protocolo_de.Prelude.Text.{Text, codes, text_eq}
use analisis_de_protocolo_de.Prelude.Result.{Result, ok, err, illegal_spans, ◌>>=◌}
use analisis_de_protocolo_de.Regex.{
  Re, one, seq, group, chr, other_than, lazy_plus, Match, or_empty,
}
use analisis_de_protocolo_de.Regex.Global.{replace_all}

-- The value of `highlightSpans`: true, an expression whose first group has the number 2, with its flag g, or
-- another value that is not false.
pub data SpanOption : Type 0 where
  backticks : SpanOption
  expression : Re → Bool → SpanOption
  other : SpanOption

-- /([^`])`([^`]+?)`/g
abbrev pub backtick_re : Re
backtick_re =
    seq (group 1 (other_than 96))
      (seq (chr 96) (seq (group 2 (lazy_plus (other_than 96))) (chr 96)))

-- new RegExp('([^])' + highlightSpans.source, flags)
abbrev pub prefixed : Re → Re
prefixed source = seq (group 1 (one (λ c. true))) source

unfoldable pub span_pattern : SpanOption → Result Re
span_pattern backticks = ok backtick_re
span_pattern (expression source is_global) =
    if is_global then ok (prefixed source) else err illegal_spans
span_pattern other = err illegal_spans

-- What a match (m, e, c) is replaced by: behind a backslash the match without it.
unfoldable pub replace_span : Match → Text
unfolding text_eq
replace_span m =
    if text_eq (or_empty (m.groups 1)) (codes "\\")
    then drop 1 m.whole
    else or_empty (m.groups 1)
      ++ (codes "<span class=\"remark-code-span-highlighted\">"
          ++ (or_empty (m.groups 2) ++ codes "</span>"))

-- highlightBlockSpans, of the `innerHTML` of the block's children
unfoldable pub highlight_block_spans : SpanOption → List Text → Result (List Text)
unfolding span_pattern replace_all replace_span
highlight_block_spans option children =
    span_pattern option >>= λ pattern. ok (map (replace_all pattern replace_span) children)
