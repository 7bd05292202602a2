-- ===== src/SlideView/Lines.antt =====
-- The lines of a code block that is highlighted.
use analisis_de_protocolo_de.Prelude.{
  ℕ, ◌+◌, ◌≤◌, ◌≡◌, refl, ap, sym, ◌∙◌, map, true, Option, none, some, ==_iff, List, [], ◌∷◌, ◌++◌,
  arith, length, length-append, get_last?, append_assoc, eq_of_some, if◌then◌else◌, Bool-cases, inl,
  inr,
}
use analisis_de_protocolo_de.Prelude.Text.{Text, codes, join, starts_with}
use analisis_de_protocolo_de.Prelude.Result.{ok}
use analisis_de_protocolo_de.ClassList.{add_class}
use analisis_de_protocolo_de.SlideView.Code.{
  split_lines, is_marked, mark_lines, extract_metadata, wrap_lines, add_class_at,
  highlight_block_lines, Block, CodeOptions, Highlighted, highlight_code_block, run_engine, prepare,
  block_class, highlight_lines, mark_spans,
}
use analisis_de_protocolo_de.SlideView.Spans.{
  SpanOption, backticks, expression, other, highlight_block_spans, span_pattern, prefixed,
  replace_span,
}
use analisis_de_protocolo_de.Regex.Global.{replace_all}
use analisis_de_protocolo_de.SlideView.Feeds.{length-extract_metadata, length-wrap_lines-ge}

-- The children whose line is marked get the class of highlighted lines.
unfoldable pub mark_classes : List Text → List Text → List Text
unfolding starts_with add_class
mark_classes [] cs = cs
mark_classes (l ∷ ls) [] = []
mark_classes (l ∷ ls) (c ∷ cs) =
    (if starts_with (codes "*") l then add_class c (codes "remark-code-line-highlighted") else c)
    ∷ mark_classes ls cs

is_marked-starts_with : (l : Text) → is_marked l ≡ starts_with (codes "*") l
unfolding is_marked starts_with
is_marked-starts_with [] = refl
is_marked-starts_with (c ∷ s) = ground (arith, ==_iff c b'*', ==_iff b'*' c)

add_class_at-length :
    (pre : List Text) (x c : Text) (cs : List Text)
    → add_class_at (length pre) c (pre ++ x ∷ cs) ≡ some (pre ++ add_class x c ∷ cs)
unfolding add_class_at
add_class_at-length [] x c cs = refl
add_class_at-length (p ∷ pre) x c cs = rw (add_class_at-length pre x c cs) refl

highlight_block_lines-next :
    (k : ℕ) (is : List ℕ) (pre cs : List Text) (c : Text)
    → k ≡ length pre
    → highlight_block_lines (k ∷ is) (pre ++ c ∷ cs)
      ≡ highlight_block_lines is (pre ++ add_class c (codes "remark-code-line-highlighted") ∷ cs)
unfolding highlight_block_lines
highlight_block_lines-next k is pre cs c e =
    rw
      (
        e,
        highlight_block_lines,
        add_class_at-length pre c (codes "remark-code-line-highlighted") cs,
      )
      refl

-- One child is passed over.
highlight_block_lines-snoc :
    (is : List ℕ) (pre cs r : List Text) (c : Text)
    → highlight_block_lines is ((pre ++ c ∷ []) ++ cs) ≡ ok ((pre ++ c ∷ []) ++ r)
    → highlight_block_lines is (pre ++ c ∷ cs) ≡ ok (pre ++ c ∷ r)
highlight_block_lines-snoc is pre cs r c h =
    ap (highlight_block_lines is) (sym (append_assoc pre (c ∷ []) cs))
    ∙ h
    ∙ ap ok (append_assoc pre (c ∷ []) r)

highlight_block_lines-mark_lines :
    (k : ℕ) (ls pre cs : List Text)
    → k ≡ length pre
    → get_last? ls ≡ some []
    → length ls ≤ length cs + 1
    → highlight_block_lines (mark_lines k ls).1 (pre ++ cs) ≡ ok (pre ++ mark_classes ls cs)
unfolding mark_lines mark_classes
highlight_block_lines-mark_lines k [] pre cs p e h = absurd (cc)
highlight_block_lines-mark_lines k ([] ∷ []) pre [] p e h =
    unfold highlight_block_lines is_marked in refl
highlight_block_lines-mark_lines k ([] ∷ []) pre (c ∷ cs) p e h =
    unfold highlight_block_lines is_marked in refl
highlight_block_lines-mark_lines k ((x ∷ l) ∷ []) pre cs p e h = absurd (cc (eq_of_some e))
highlight_block_lines-mark_lines k (l ∷ (m ∷ ls)) pre [] p e h = absurd (omega arith)
highlight_block_lines-mark_lines k (l ∷ (m ∷ ls)) pre (c ∷ cs) p e h =
    let further : (x : Text)
        → highlight_block_lines (mark_lines (k + 1) (m ∷ ls)).1 (pre ++ x ∷ cs)
          ≡ ok (pre ++ x ∷ mark_classes (m ∷ ls) cs) =
      λ x.
        highlight_block_lines-snoc (mark_lines (k + 1) (m ∷ ls)).1 pre cs (mark_classes (m ∷ ls) cs)
          x
          (highlight_block_lines-mark_lines (k + 1) (m ∷ ls) (pre ++ x ∷ []) cs
            (omega (arith, p, length-append pre (x ∷ []))) e (omega arith)) in
    let same = is_marked-starts_with l in
    elim (Bool-cases (starts_with (codes "*") l)) [
      | inl u ↦
          rw (same, u)
            (highlight_block_lines-next k (mark_lines (k + 1) (m ∷ ls)).1 pre cs c p
              ∙ further (add_class c (codes "remark-code-line-highlighted")))
      | inr u ↦ rw (same, u) (further c)
    ]

-- The values of highlightSpans that are not refused.
abbrev pub IsLegal : Option SpanOption → Type 0
IsLegal none = Unit
IsLegal (some backticks) = Unit
IsLegal (some (expression source is_global)) = is_global ≡ true
IsLegal (some other) = ⊥

mark_spans-legal :
    (option : Option SpanOption) (lines : List Text)
    → IsLegal option
    → (lines' : List Text) × (mark_spans option lines ≡ ok lines')
unfolding mark_spans highlight_block_spans span_pattern
mark_spans-legal none lines h = (lines, refl)
mark_spans-legal (some backticks) lines h = (_, refl)
mark_spans-legal (some (expression source is_global)) lines h =
    (map (replace_all (prefixed source) replace_span) lines, rw h refl)
mark_spans-legal (some other) lines h = absurd h

module _ (engine : Text → Text → Text → Text × Text) (children_of lines_of : Text → List Text)
    -- the highlighter leaves the line ends as they are
    (keeps_lines : (tab c h : Text)
      → length (split_lines (engine tab c h).1) ≡ length (split_lines h)) where
  length-run_engine :
      (c h : Text)
      → length (split_lines (run_engine engine children_of lines_of c h).1) ≡ length (split_lines h)
  unfolding run_engine
  length-run_engine [] h = refl
  length-run_engine (x ∷ c) h = keeps_lines (codes "  ") (x ∷ c) h

  -- What wrapLines is given, and the lines to highlight.
  prepare-lines :
      (options : CodeOptions) (c : Text) (block : Block)
      → options.lines ≡ true
      → (length (split_lines (prepare engine children_of lines_of options c block).0.1)
          ≡ length (split_lines block.inner_html))
        × ((prepare engine children_of lines_of options c block).1
            ≡ (mark_lines 0 (split_lines block.inner_html)).1)
  unfolding prepare
  prepare-lines options c block o = rw o (
    length-run_engine c (extract_metadata block.inner_html).0
        ∙ length-extract_metadata block.inner_html,
    unfold extract_metadata in refl,
  )

  highlight_lines-ok :
      (options : CodeOptions) (c : Text) (block : Block) (children lines : List Text)
      → highlight_block_lines (prepare engine children_of lines_of options c block).1 (
          children_of
            (join [] (wrap_lines (prepare engine children_of lines_of options c block).0.1)))
        ≡ ok children
      → mark_spans options.spans (
          lines_of (join [] (wrap_lines (prepare engine children_of lines_of options c block).0.1)))
        ≡ ok lines
      → highlight_lines engine children_of lines_of options c block
        ≡ ok (record {
          class_name =
              add_class
                (prepare engine children_of lines_of options c block).0.0
                (codes "remark-code");
          inner_html =
              join [] (wrap_lines (prepare engine children_of lines_of options c block).0.1);
          children = children;
          lines = lines;
        })
  unfolding highlight_lines
  highlight_lines-ok options c block children lines h k = rw (h, k) refl

  -- With highlightLines, and highlightSpans off, true or an expression with the flag g, a block in a `pre`
  -- whose `innerHTML` ends with a line end, and whose wrapped lines the browser reads as one child each, is
  -- wrapped and highlighted without an error: exactly the children whose line began with `*` have the class
  -- of highlighted lines more, at most one line has no child, and the spans are marked in the children.
  pub highlight_code_block-marked :
      (options : CodeOptions) (block : Block)
      → block.in_pre ≡ true
      → options.lines ≡ true
      → IsLegal options.spans
      → get_last? (split_lines block.inner_html) ≡ some []
      → (let html =
            (prepare engine children_of lines_of options
              (block_class engine children_of lines_of options block)
              block).0.1 in
          length (children_of (join [] (wrap_lines html))) ≡ length (wrap_lines html))
      → (r : Highlighted) × (highlight_code_block engine children_of lines_of options block ≡ ok r)
        × (r.children ≡ mark_classes (split_lines block.inner_html) (children_of r.inner_html))
        × (length (split_lines block.inner_html) ≤ length (children_of r.inner_html) + 1)
        × (mark_spans options.spans (lines_of r.inner_html) ≡ ok r.lines)
  unfolding highlight_code_block
  highlight_code_block-marked options block p o l e h =
      let c = block_class engine children_of lines_of options block in
      let html = (prepare engine children_of lines_of options c block).0.1 in
      let children = children_of (join [] (wrap_lines html)) in
      let (same_length, same_lines) = prepare-lines options c block o in
      let enough : length (split_lines block.inner_html) ≤ length children + 1 =
        omega (arith, h, same_length, length-wrap_lines-ge html) in
      let e1 =
        ap (λ is. highlight_block_lines is children) same_lines
        ∙ highlight_block_lines-mark_lines 0 (split_lines block.inner_html) [] children refl e
            enough in
      let (lines, marks) =
        mark_spans-legal options.spans (lines_of (join [] (wrap_lines html))) l in
      (
        record {
          class_name =
              add_class (prepare engine children_of lines_of options c block).0.0
                (codes "remark-code");
          inner_html = join [] (wrap_lines html);
          children = mark_classes (split_lines block.inner_html) children;
          lines = lines;
        },
        rw p (
            highlight_lines-ok options c block
              (mark_classes (split_lines block.inner_html) children) lines e1 marks),
        refl,
        enough,
        marks,
      )
