-- ===== src/SlideView/Code.antt =====
-- The code blocks of a slide: lines that a `*` marks are highlighted. The highlighter and the element
-- children that the browser reads from `innerHTML`, their classes and their own `innerHTML`, are
-- parameters.
use analisis_de_protocolo_de.Prelude.{
  ℕ, zero, suc, ◌+◌, Bool, true, false, ◌&&◌, Option, none, some, List, [], ◌∷◌, ◌++◌, ◌==◌, map,
  if◌then◌else◌, is_empty,
}
use analisis_de_protocolo_de.Prelude.Text.{Text, codes, join, starts_with}
use analisis_de_protocolo_de.Prelude.Result.{Result, ok, err, type_error, ◌>>=◌}
use mathlib.Core.List.{reverse}
use analisis_de_protocolo_de.SlideView.Spans.{SpanOption, highlight_block_spans}
use analisis_de_protocolo_de.ClassList.{add_class}

-- s.split(/\r?\n/), with the units of the line so far
unfoldable pub split_lines_from : Text → Text → List Text
split_lines_from [] line = reverse line ∷ []
split_lines_from (c ∷ []) line =
    if c == 10 then reverse line ∷ ([] ∷ []) else reverse (c ∷ line) ∷ []
split_lines_from (c ∷ (d ∷ s)) line =
    let ended = reverse line ∷ split_lines_from (d ∷ s) [] in
    let returned = reverse line ∷ split_lines_from s [] in
    let longer = split_lines_from (d ∷ s) (c ∷ line) in
    if c == 10 then ended else if (c == 13) && (d == 10) then returned else longer

unfoldable pub split_lines : Text → List Text
unfolding split_lines_from
split_lines s = split_lines_from s []

-- line.indexOf('*') === 0
unfoldable pub is_marked : Text → Bool
is_marked [] = false
is_marked (c ∷ s) = c == b'*'

-- line.replace(/^\*( )?/, '$1$1'), of a line that is marked
unfoldable pub unmark : Text → Text
unmark [] = []
unmark (m ∷ []) = []
unmark (m ∷ (c ∷ s)) = if c == 32 then 32 ∷ (32 ∷ s) else c ∷ s

-- The lines, and which of them are highlighted, from the index on.
unfoldable pub mark_lines : ℕ → List Text → List Text × List ℕ
unfolding is_marked unmark
mark_lines i [] = ([], [])
mark_lines i (line ∷ lines) =
    let (lines', highlighted) = mark_lines (i + 1) lines in
    if is_marked line then (unmark line ∷ lines', i ∷ highlighted) else (line ∷ lines', highlighted)

-- extractMetadata, of `innerHTML`
unfoldable pub extract_metadata : Text → Text × List ℕ
unfolding split_lines mark_lines join
extract_metadata inner_html =
    let (lines, highlighted) = mark_lines 0 (split_lines inner_html) in
    (join (10 ∷ []) lines, highlighted)

-- '<div class="remark-code-line">' + line + '</div>'
abbrev pub wrap_line : Text → Text
wrap_line line = codes "<div class=\"remark-code-line\">" ++ (line ++ codes "</div>")

-- whether `><` stands in it
unfoldable pub has_empty_tag : Text → Bool
unfolding starts_with
has_empty_tag [] = false
has_empty_tag (c ∷ s) = if starts_with (codes "><") (c ∷ s) then true else has_empty_tag s

-- xs.pop(), where the last one is an empty line
unfoldable pub drop_empty_last : List Text → List Text
unfolding has_empty_tag
drop_empty_last [] = []
drop_empty_last (x ∷ []) = if has_empty_tag x then [] else x ∷ []
drop_empty_last (x ∷ (y ∷ xs)) = x ∷ drop_empty_last (y ∷ xs)

-- The lines of wrapLines, before they are joined.
unfoldable pub wrap_lines : Text → List Text
unfolding split_lines drop_empty_last
wrap_lines inner_html = drop_empty_last (map wrap_line (split_lines inner_html))

unfoldable pub add_class_at : ℕ → Text → List Text → Option (List Text)
unfolding add_class
add_class_at i c [] = none
add_class_at zero c (x ∷ xs) = some (add_class x c ∷ xs)
add_class_at (suc i) c (x ∷ xs) = elim (add_class_at i c xs) [
  | none ↦ none
  | some ys ↦ some (x ∷ ys)
]

-- highlightBlockLines, of the classes of the block's children; without a child of an index it throws.
unfoldable pub highlight_block_lines : List ℕ → List Text → Result (List Text)
unfolding add_class_at
highlight_block_lines [] children = ok children
highlight_block_lines (i ∷ is) children =
    elim (add_class_at i (codes "remark-code-line-highlighted") children) [
      | none ↦ err type_error
      | some children' ↦ highlight_block_lines is children'
    ]

pub record Block : Type 0 where
  pub class_name : Text
  -- whether the parent is a `pre`
  pub in_pre : Bool
  pub inner_html : Text

-- The options of code blocks: highlightLines, highlightInlineCode, highlightLanguage and highlightSpans,
-- which is none where it is not given or false.
pub record CodeOptions : Type 0 where
  pub lines : Bool
  pub inline_code : Bool
  pub language : Text
  pub spans : Option SpanOption

-- The block after it, with the classes of its children, and the `innerHTML` of each.
pub record Highlighted : Type 0 where
  pub class_name : Text
  pub inner_html : Text
  pub children : List Text
  pub lines : List Text

-- `if (highlightSpans)`, of the `innerHTML` of the block's children
unfoldable pub mark_spans : Option SpanOption → List Text → Result (List Text)
unfolding highlight_block_spans
mark_spans none lines = ok lines
mark_spans (some option) lines = highlight_block_spans option lines

module _
    -- highlighter.engine.highlightBlock(block, tabReplace), of the class and `innerHTML`
    (engine : Text → Text → Text → Text × Text)
    -- the classes of the children that an element with this `innerHTML` has
    (children_of : Text → List Text)
    -- and the `innerHTML` of each
    (lines_of : Text → List Text) where
  -- what comes before wrapLines in a `pre`
  unfoldable pub run_engine : Text → Text → Text × Text
  run_engine class_name inner_html =
      if is_empty class_name
      then (class_name, inner_html)
      else engine (codes "  ") class_name inner_html

  -- What comes before wrapLines: the class, `innerHTML` and the lines to highlight.
  unfoldable pub prepare : CodeOptions → Text → Block → (Text × Text) × List ℕ
  unfolding run_engine extract_metadata
  prepare options class_name block =
      if options.lines
      then (let (html, highlighted) = extract_metadata block.inner_html in
          (run_engine class_name html, highlighted))
      else (run_engine class_name block.inner_html, [])

  -- The function that highlightCodeBlocks calls for each block, of its class or that of the language.
  unfoldable pub highlight_inline : CodeOptions → Text → Block → Highlighted
  unfolding add_class
  highlight_inline options class_name block =
      let inline_class = add_class class_name (codes "remark-inline-code") in
      let (c, h) =
        if options.inline_code
        then engine [] inline_class block.inner_html
        else (inline_class, block.inner_html) in
      record { class_name = c; inner_html = h; children = children_of h; lines = lines_of h }

  unfoldable pub highlight_lines : CodeOptions → Text → Block → Result Highlighted
  unfolding prepare wrap_lines join highlight_block_lines mark_spans add_class
  highlight_lines options class_name block =
      let ((c, h), highlighted) = prepare options class_name block in
      let wrapped = join [] (wrap_lines h) in
      highlight_block_lines highlighted (children_of wrapped) >>= λ children.
      mark_spans options.spans (lines_of wrapped) >>= λ lines. ok (record {
        class_name = add_class c (codes "remark-code");
        inner_html = wrapped;
        children = children;
        lines = lines;
      })

  unfoldable pub block_class : CodeOptions → Block → Text
  block_class options block =
      if is_empty block.class_name then options.language else block.class_name

  unfoldable pub highlight_code_block : CodeOptions → Block → Result Highlighted
  unfolding block_class highlight_inline highlight_lines
  highlight_code_block options block =
      if block.in_pre
      then highlight_lines options (block_class options block) block
      else ok (highlight_inline options (block_class options block) block)

  -- highlightCodeBlocks, of the blocks of a slide
  unfoldable pub highlight_code_blocks : CodeOptions → List Block → Result (List Highlighted)
  unfolding highlight_code_block
  highlight_code_blocks options [] = ok []
  highlight_code_blocks options (block ∷ blocks) = highlight_code_block options block >>= λ done.
      highlight_code_blocks options blocks >>= λ further. ok (done ∷ further)
