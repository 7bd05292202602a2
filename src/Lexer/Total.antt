-- ===== src/Lexer/Total.antt =====
-- The loop of the lexer ends, and its content classes are balanced.
use analisis_de_protocolo_de.Prelude.{
  ℕ, zero, suc, ◌+◌, ◌≤◌, ◌<◌, ◌≡◌, ◌⊎◌, inl, inr, Bool, Option, none, some, List, [], ◌∷◌, ◌++◌,
  append_assoc, length, drop, arith, Option-cases, Bool-cases,
}
use analisis_de_protocolo_de.Prelude.Text.{Text, truthy, contains}
use analisis_de_protocolo_de.Regex.{Re, Match, exec}
use analisis_de_protocolo_de.Regex.Lengths.{min_len}
use analisis_de_protocolo_de.Regex.Search.{Splits, exec-Splits}
use analisis_de_protocolo_de.Lexer.{
  Token, text, content_start, content_end, leading, token_of, behind, on_content, on_match,
  lex_loop, inline, slide_separator_group, fragment_separator_group, notes_separator_group,
  content_group, starts_with_backslash,
}
use analisis_de_protocolo_de.Lexer.Brackets.{get_text_in_brackets}
use analisis_de_protocolo_de.Lexer.Nesting.{nest, nest-token_of, nest-token_of_zero, nest-leading}
use analisis_de_protocolo_de.Lexer.Shapes.{
  min_len-inline, HasNoSeparator, inline-HasNoSeparator, Lexed, Lexed-after, Lexed-finish,
  nest_text, nest_class, behind-lt, inner-lt,
}

module _ (low : Text → Text) (re : Re) (positive : 1 ≤ min_len re) (fuel depth : ℕ)
    (separators : (depth ≡ 0) ⊎ HasNoSeparator re)
    (inner : (t : Text) (tokens : List Token)
      → length t < fuel
      → Lexed (suc depth) tokens (lex_loop low fuel inline t tokens))
    (again : (s : Text) (tokens : List Token)
      → length s < fuel
      → Lexed depth tokens (lex_loop low fuel re s tokens))
    (src : Text) (cap : Match) (splits : Splits re src cap) (enough : length src < suc fuel) where
  abbrev lex_inner : Text → List Token → Option (List Token)
  lex_inner = lex_loop low fuel inline

  abbrev lex_again : Text → List Token → Option (List Token)
  lex_again = lex_loop low fuel re

  nested-token_of : (t : Token) → token_of low cap ≡ some t → nest depth (t ∷ []) ≡ some depth
  nested-token_of t h = elim separators [
    | inl e ↦ rw e (nest-token_of_zero low cap t h)
    | inr f ↦
        nest-token_of low cap t depth
          (record {
            no_slide = splits.absent slide_separator_group f.slide;
            no_fragment = splits.absent fragment_separator_group f.fragment;
            no_notes = splits.absent notes_separator_group f.notes;
          })
          h
  ]

  text_nested : (t : Text) → nest depth (text t ∷ []) ≡ some depth
  text_nested t = nest_text depth t

  -- a content class, lexed inside and behind
  class-Lexed :
      (t rest : Text) (cs : List Text) (b : Bool) (tokens : List Token)
      → length t < fuel
      → length rest < fuel
      → Lexed depth tokens (elim (lex_inner t (tokens ++ content_start cs b ∷ [])) [
        | none ↦ none
        | some tokens' ↦ lex_again rest (tokens' ++ content_end b ∷ [])
      ])
  class-Lexed t rest cs b tokens p q =
      let i = inner t (tokens ++ content_start cs b ∷ []) p in
      let mid = content_start cs b ∷ (i.more ++ content_end b ∷ []) in
      let l = again rest (tokens ++ mid) q in
      let e : (tokens ++ content_start cs b ∷ []) ++ i.more ++ content_end b ∷ [] ≡ tokens ++ mid =
        simp append_assoc in
      Lexed-after depth tokens mid _ (nest_class depth cs b i.more i.nested) (record {
        more = l.more;
        is_some = rw (i.is_some, e) l.is_some;
        nested = l.nested;
        filled = l.filled;
      })

  on_content-Lexed :
      (tokens : List Token) → Lexed depth tokens (on_content low lex_inner lex_again cap src tokens)
  unfolding on_content
  on_content-Lexed tokens =
      elim (Option-cases (get_text_in_brackets src (cap.index + length cap.whole))) [
        | inl e ↦
            rw (e, on_content)
              (Lexed-after depth tokens (text cap.whole ∷ []) _ (text_nested cap.whole)
                (again (behind cap src) _ (omega (arith, behind-lt re src cap positive splits))))
        | inr (t, e) ↦
            let shorter = inner-lt re src t cap positive splits e in
            elim (Bool-cases (starts_with_backslash cap.whole)) [
              | inl u ↦
                  rw (e, u, on_content)
                    (Lexed-after depth tokens (text (drop 1 cap.whole ++ (t ++ b']' ∷ [])) ∷ []) _
                      (text_nested _)
                      (again (behind cap (drop (length t + 1) src)) _ (omega arith)))
              | inr u ↦
                  rw (e, u, on_content)
                    (class-Lexed t (behind cap (drop (length t + 1) src)) _ (contains 10 t) tokens
                      (omega arith) (omega arith))
            ]
      ]

  on_match-Lexed :
      (tokens : List Token) → Lexed depth tokens (on_match low lex_inner lex_again cap src tokens)
  unfolding on_match
  on_match-Lexed tokens =
      let shorter = behind-lt re src cap positive splits in
      elim (Option-cases (token_of low cap)) [
        | inl e ↦ elim (Bool-cases (truthy (cap.groups content_group))) [
          | inl u ↦ rw (e, u, on_match) (on_content-Lexed tokens)
          | inr u ↦ rw (e, u, on_match) (again (behind cap src) tokens (omega arith))
        ]
        | inr (t, e) ↦
            rw (e, on_match)
              (Lexed-after depth tokens (t ∷ []) _ (nested-token_of t e)
                (again (behind cap src) _ (omega arith)))
      ]

-- With more fuel than the source is long the loop ends; it adds tokens that nest from the depth to
-- the depth.
pub lex_loop-Lexed :
    (low : Text → Text) (fuel depth : ℕ) (re : Re)
    → 1 ≤ min_len re
    → (depth ≡ 0) ⊎ HasNoSeparator re
    → (src : Text) (tokens : List Token) → length src < fuel
    → Lexed depth tokens (lex_loop low fuel re src tokens)
unfolding lex_loop
lex_loop-Lexed low zero depth re positive seps src tokens h = absurd (omega arith)
lex_loop-Lexed low (suc fuel) depth re positive seps src tokens h =
    elim (Option-cases (exec re src)) [
      | inl e ↦ rw (e, lex_loop) (Lexed-finish depth src tokens)
      | inr (cap, e) ↦
          rw (e, lex_loop)
            (Lexed-after depth tokens (leading cap src) _ (nest-leading cap src depth) (
              on_match-Lexed low re positive fuel depth seps
                (lex_loop-Lexed low fuel (suc depth) inline (omega (arith, min_len-inline))
                  (inr inline-HasNoSeparator))
                (lex_loop-Lexed low fuel depth re positive seps) src cap (exec-Splits re src cap e)
                h (tokens ++ leading cap src)))
    ]
