-- ===== src/Lexer/Patterns.antt =====
-- The expressions of the lexer (`regexByName`, `block` and `inline`), with the numbers that their
-- groups have in both.
use analisis_de_protocolo_de.Prelude.{ℕ, Bool, true, false, ◌||◌, ◌&&◌, not, ◌==◌, leb}
use analisis_de_protocolo_de.Prelude.Text.{is_line_end, is_space, codes}
use analisis_de_protocolo_de.Regex.{
  Re, one, seq, or, group, back, star, start, end, not_ahead, plus, lazy_plus, opt, chr, other_than,
  lit,
}

abbrev pub code_group : ℕ
code_group = 1

abbrev pub inline_code_group : ℕ
inline_code_group = 2

abbrev pub content_group : ℕ
content_group = 3

abbrev pub fences_group : ℕ
fences_group = 4

abbrev pub def_group : ℕ
def_group = 5

abbrev pub def_href_group : ℕ
def_href_group = 6

abbrev pub def_title_group : ℕ
def_title_group = 7

abbrev pub macro_group : ℕ
macro_group = 8

abbrev pub macro_args_group : ℕ
macro_args_group = 9

abbrev pub macro_obj_group : ℕ
macro_obj_group = 10

abbrev pub slide_separator_group : ℕ
slide_separator_group = 11

abbrev pub fragment_separator_group : ℕ
fragment_separator_group = 12

abbrev pub notes_separator_group : ℕ
notes_separator_group = 13

abbrev nl : Re
nl = chr 10

abbrev spaces : Re
spaces = star true (chr b' ')

abbrev line_break : Re
line_break = or start nl

-- `.`
abbrev any_in_line : Re
any_in_line = one (λ c. not (is_line_end c))

abbrev letter_dash : ℕ → Bool
letter_dash c =
    (leb b'a' c && leb c b'z') || ((leb b'A' c && leb c b'Z') || (c == b'_' || c == b'-'))

abbrev name_unit : ℕ → Bool
name_unit c = letter_dash c || (leb b'0' c && leb c b'9')

-- CODE: /(?:^|\n\n)( {4}[^\n]+\n*)+/
unfoldable pub code_re : Re
code_re =
    seq (or start (seq nl nl)) (
      plus
        (group code_group (seq (lit (codes "    ")) (seq (plus (other_than 10)) (star true nl)))))

-- INLINE_CODE: /\`([^\`].*?)\`/
unfoldable pub inline_code_re : Re
inline_code_re =
    seq (chr 96)
      (seq (group inline_code_group (seq (other_than 96) (star false any_in_line))) (chr 96))

-- CONTENT: /(?:\\)?((?:\.[a-zA-Z_\-][a-zA-Z\-_0-9]*)+)\[/
unfoldable pub content_re : Re
content_re = seq (opt (chr 92)) (
    seq
      (group content_group
        (plus (seq (chr b'.') (seq (one letter_dash) (star true (one name_unit))))))
      (chr b'['))

-- FENCES: /(?:^|\n) *(`{3,}|~{3,}) *(?:\S+)? *\n(?:[\s\S]+?)\s*\4 *(?:\n+|$)/
abbrev three_or_more : ℕ → Re
three_or_more c = seq (chr c) (seq (chr c) (plus (chr c)))

unfoldable pub fences_re : Re
fences_re = seq line_break (
    seq spaces (
      seq (group fences_group (or (three_or_more 96) (three_or_more b'~'))) (
        seq spaces (
          seq (opt (plus (one (λ c. not (is_space c))))) (
            seq spaces (
              seq nl (
                seq (lazy_plus (one (λ _. true))) (
                  seq (star true (one is_space))
                    (seq (back fences_group) (seq spaces (or (plus nl) end)))))))))))

-- DEF: /(?:^|\n) *\[([^\]]+)\]: *<?([^\s>]+)>?(?: +["(]([^\n]+)[")])? *(?:\n+|$)/
unfoldable pub def_re : Re
def_re = seq line_break (
    seq spaces (
      seq (chr b'[') (
        seq (group def_group (plus (other_than b']'))) (
          seq (seq (chr b']') (chr b':')) (
            seq spaces (
              seq (opt (chr b'<')) (
                seq (group def_href_group (plus (one (λ c. not (is_space c || c == b'>'))))) (
                  seq (opt (chr b'>')) (
                    seq
                      (opt (
                        seq (plus (chr b' ')) (
                          seq (one (λ c. c == 34 || c == b'(')) (
                            seq (group def_title_group (plus (other_than 10)))
                              (one (λ c. c == 34 || c == b')'))))))
                      (seq spaces (or (plus nl) end)))))))))))

-- MACRO: /!\[:([^\] ]+)([^\]]*)\](?:\(([^\)]*)\))?/
unfoldable pub macro_re : Re
macro_re = seq (lit (codes "![:")) (
    seq (group macro_group (plus (one (λ c. not (c == b']' || c == b' '))))) (
      seq (group macro_args_group (star true (other_than b']'))) (
        seq (chr b']') (
          opt (
            seq (chr b'(')
              (seq (group macro_obj_group (star true (other_than b')'))) (chr b')')))))))

-- SLIDE_SEPARATOR: /(?:^|\n)(---)(?:\n|$)/
unfoldable pub slide_separator_re : Re
slide_separator_re =
    seq line_break (seq (group slide_separator_group (lit (codes "---"))) (or nl end))

-- FRAGMENT_SEPARATOR: /(?:^|\n)(--)(?![^\n])/
unfoldable pub fragment_separator_re : Re
fragment_separator_re =
    seq line_break
      (seq (group fragment_separator_group (lit (codes "--"))) (not_ahead (λ c. not (c == 10))))

-- NOTES_SEPARATOR: /(?:^|\n)(\?{3})(?:\n|$)/
unfoldable pub notes_separator_re : Re
notes_separator_re =
    seq line_break (seq (group notes_separator_group (lit (codes "???"))) (or nl end))

-- CODE|INLINE_CODE|CONTENT|FENCES|DEF|MACRO
unfoldable pub inline : Re
unfolding code_re inline_code_re content_re fences_re def_re macro_re
inline = or code_re (or inline_code_re (or content_re (or fences_re (or def_re macro_re))))

-- CODE|INLINE_CODE|CONTENT|FENCES|DEF|MACRO|SLIDE_SEPARATOR|FRAGMENT_SEPARATOR|NOTES_SEPARATOR
unfoldable pub block : Re
unfolding code_re inline_code_re content_re fences_re def_re macro_re slide_separator_re
    fragment_separator_re notes_separator_re
block = or code_re (
    or inline_code_re (
      or content_re (
        or fences_re (
          or def_re
            (or macro_re (or slide_separator_re (or fragment_separator_re notes_separator_re)))))))
