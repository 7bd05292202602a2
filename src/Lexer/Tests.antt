-- ===== src/Lexer/Tests.antt =====
-- Sources and their tokens, and the theorems at them.
use analisis_de_protocolo_de.Prelude.{◌↔◌, List, drop, ◌≡◌, refl, some, [], ◌∷◌, ◌++◌, false}
use analisis_de_protocolo_de.Prelude.Text.{codes}
use analisis_de_protocolo_de.Prelude.Text.{Text}
use analisis_de_protocolo_de.Lexer.Brackets.{get_text_in_brackets, get_text_in_brackets_iff, level}
use analisis_de_protocolo_de.Lexer.Merge.{IsLexed, lex-IsLexed}
use analisis_de_protocolo_de.Lexer.{Token, lex, text, macro, separator, content_start, content_end}

test_separator :
    lex (λ s. s) (codes "a" ++ (10 ∷ (codes "---" ++ (10 ∷ codes "b"))))
    ≡ some (text (codes "a") ∷ separator (codes "---") ∷ text (codes "b") ∷ [])
unfolding lex
test_separator = refl

test_content :
    lex (λ s. s) (codes ".red.big[x [y]] z")
    ≡ some (
        content_start (codes "red" ∷ codes "big" ∷ []) false
        ∷ text (codes "x [y]")
        ∷ content_end false
        ∷ text (codes " z")
        ∷ [])
unfolding lex
test_content = refl

test_macro :
    lex (λ s. s) (codes "![:m 1, 2](o)")
    ≡ some (macro (codes "m") (codes "1" ∷ codes "2" ∷ []) (some (codes "o")) ∷ [])
unfolding lex
test_macro = refl

lex-IsLexed_example :
    (tokens : List Token) × (lex (λ s. s) (codes "a.b[c .d[e] `f`] --- g") ≡ some tokens)
    × IsLexed tokens
lex-IsLexed_example = lex-IsLexed (λ s. s) (codes "a.b[c .d[e] `f`] --- g")

get_text_in_brackets_iff_example :
    (get_text_in_brackets (codes ".a[b [c] d] e") 3 ≡ some (codes "b [c] d")) ↔ (
      (after : Text) × (drop 3 (codes ".a[b [c] d] e") ≡ codes "b [c] d" ++ (b']' ∷ after))
      × (level 0 (codes "b [c] d") ≡ some 0))
get_text_in_brackets_iff_example =
    get_text_in_brackets_iff (codes ".a[b [c] d] e") 3 (codes "b [c] d")
