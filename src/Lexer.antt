-- ===== src/Lexer.antt =====
-- The lexer (module 16 of the bundle, `lexer.js`): a slide show's source to a list of tokens.
-- `lex` takes fuel, one unit for a round of its loop. `toLowerCase`, whose table is Unicode's, is a
-- parameter: only the id of a link definition goes through it.
mod Patterns
mod Tokens
pub mod Brackets
pub mod Nesting
pub mod Shapes
pub mod Total
pub mod Merge
pub mod Tests
unfoldable pub use Patterns.{block, inline}
pub use Patterns.{
  code_group, inline_code_group, content_group, fences_group, def_group, def_href_group,
  def_title_group, macro_group, macro_args_group, macro_obj_group, slide_separator_group,
  fragment_separator_group, notes_separator_group,
}
pub use Tokens.{
  Token, text, code, fences, def, macro, separator, notes_separator, content_start, content_end,
}
use analisis_de_protocolo_de.Prelude.{
  ℕ, zero, suc, ◌+◌, Bool, true, false, ◌||◌, not, Option, none, some, List, [], ◌∷◌, ◌++◌, map,
  ◌==◌, ltb, if◌then◌else◌, length, take, drop, is_empty,
}
use analisis_de_protocolo_de.Prelude.Text.{Text, or_default, truthy, split, trim, join, contains}
use analisis_de_protocolo_de.Regex.{Re, Match, exec, or_empty}
use Brackets.{get_text_in_brackets}

-- src.replace('\r', ''): the first one alone
pub drop_return : Text → Text
drop_return [] = []
drop_return (c ∷ s) = if c == 13 then s else c ∷ drop_return s

abbrev starts_with_backslash : Text → Bool
starts_with_backslash [] = false
starts_with_backslash (c ∷ s) = c == 92

-- the source behind the match
abbrev pub behind : Match → Text → Text
behind cap src = drop (cap.index + length cap.whole) src

-- the text before the match, if there is any
pub leading : Match → Text → List Token
leading cap src = if ltb 0 cap.index then text (take cap.index src) ∷ [] else []

-- the text that is left when nothing matches any more
pub finish : Text → List Token → List Token
finish src tokens =
    if not (is_empty src) || is_empty tokens then tokens ++ text src ∷ [] else tokens

module _ (to_lower_case : Text → Text) where
  -- The token of a match that is no content class.
  pub token_of : Match → Option Token
  token_of cap =
      if truthy (cap.groups code_group)
      then some (code cap.whole)
      else if truthy (cap.groups inline_code_group)
      then some (text cap.whole)
      else if truthy (cap.groups fences_group)
      then some (fences cap.whole)
      else if truthy (cap.groups def_group)
      then some (
          def (to_lower_case (or_empty (cap.groups def_group))) (cap.groups def_href_group)
            (cap.groups def_title_group))
      else if truthy (cap.groups macro_group)
      then some (
          macro (or_empty (cap.groups macro_group))
            (map trim (split (λ c. c == b',') (or_default (cap.groups macro_args_group) [])))
            (cap.groups macro_obj_group))
      else if truthy (cap.groups slide_separator_group)
          || truthy (cap.groups fragment_separator_group)
      then some (
          separator (
            or_default (cap.groups slide_separator_group)
              (or_empty (cap.groups fragment_separator_group))))
      else if truthy (cap.groups notes_separator_group)
      then some (notes_separator (or_empty (cap.groups notes_separator_group)))
      else none

  -- A content class: `inner` lexes the text in the brackets, `again` the source behind them.
  pub on_content :
      (Text → List Token → Option (List Token))
      → (Text → List Token → Option (List Token))
      → Match
      → Text
      → List Token
      → Option (List Token)
  on_content inner again cap src tokens =
      elim (get_text_in_brackets src (cap.index + length cap.whole)) [
        | none ↦ again (behind cap src) (tokens ++ text cap.whole ∷ [])
        | some t ↦
            let src' = drop (length t + 1) src in
            let is_block = contains 10 t in
            if starts_with_backslash cap.whole
            then again (behind cap src')
                (tokens ++ text (drop 1 cap.whole ++ (t ++ b']' ∷ [])) ∷ [])
            else elim (inner t (
                tokens
                ++ content_start
                    (split (λ c. c == b'.') (drop 1 (or_empty (cap.groups content_group)))) is_block
                  ∷ [])) [
                    | none ↦ none
                    | some tokens' ↦ again (behind cap src') (tokens' ++ content_end is_block ∷ [])
                  ]
      ]

  -- One round of the loop, with the match that it found.
  pub on_match :
      (Text → List Token → Option (List Token))
      → (Text → List Token → Option (List Token))
      → Match
      → Text
      → List Token
      → Option (List Token)
  on_match inner again cap src tokens = elim (token_of cap) [
    | some t ↦ again (behind cap src) (tokens ++ t ∷ [])
    | none ↦
        if truthy (cap.groups content_group)
        then on_content inner again cap src tokens
        else again (behind cap src) tokens
  ]

  -- The inner function `lex`.
  pub lex_loop : ℕ → Re → Text → List Token → Option (List Token)
  lex_loop zero regex src tokens = none
  lex_loop (suc fuel) regex src tokens = elim (exec regex src) [
    | none ↦ some (finish src tokens)
    | some cap ↦
        on_match (lex_loop fuel inline) (lex_loop fuel regex) cap src (tokens ++ leading cap src)
  ]

-- The loop of `Lexer.prototype.lex`, from the last pair of tokens to the first.
pub glue : Token → List Token → List Token
glue (text a) (text b ∷ ts) = text (a ++ b) ∷ ts
glue t ts = t ∷ ts

pub merge_texts : List Token → List Token
merge_texts [] = []
merge_texts (t ∷ ts) = glue t (merge_texts ts)

-- Lexer.prototype.lex
unfoldable pub lex : (Text → Text) → Text → Option (List Token)
unfolding drop_return leading finish token_of on_content on_match lex_loop glue merge_texts exec
    block inline split trim contains get_text_in_brackets
lex to_lower_case src =
    let src' = drop_return src in
    elim (lex_loop to_lower_case (suc (length src')) block src' []) [
      | none ↦ none
      | some tokens ↦ some (merge_texts tokens)
    ]
