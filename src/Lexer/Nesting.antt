-- ===== src/Lexer/Nesting.antt =====
-- How content classes nest in a list of tokens.
use analisis_de_protocolo_de.Prelude.{
  ℕ, zero, suc, ◌≡◌, Option, none, some, List, [], ◌∷◌, ◌++◌, arith,
}
use analisis_de_protocolo_de.Prelude.Text.{Text}
use analisis_de_protocolo_de.Regex.{Match}
use analisis_de_protocolo_de.Lexer.{
  Token, text, code, fences, def, macro, separator, notes_separator, content_start, content_end,
  leading, token_of, slide_separator_group, fragment_separator_group, notes_separator_group,
}

-- The number of open content classes behind the tokens, from `depth` of them; `none` where a class
-- is closed that is not open, or a separator stands in a class.
unfoldable pub nest : ℕ → List Token → Option ℕ
nest depth [] = some depth
nest depth (content_start cs b ∷ ts) = nest (suc depth) ts
nest zero (content_end b ∷ ts) = none
nest (suc depth) (content_end b ∷ ts) = nest depth ts
nest zero (separator s ∷ ts) = nest zero ts
nest (suc depth) (separator s ∷ ts) = none
nest zero (notes_separator s ∷ ts) = nest zero ts
nest (suc depth) (notes_separator s ∷ ts) = none
nest depth (text s ∷ ts) = nest depth ts
nest depth (code s ∷ ts) = nest depth ts
nest depth (fences s ∷ ts) = nest depth ts
nest depth (def i h t ∷ ts) = nest depth ts
nest depth (macro n a o ∷ ts) = nest depth ts

-- Tokens after tokens.
pub nest-append :
    (ts us : List Token) (depth depth' : ℕ)
    → nest depth ts ≡ some depth'
    → nest depth (ts ++ us) ≡ nest depth' us
unfolding nest
nest-append [] us depth depth' h = ground arith
nest-append (text s ∷ ts) us depth depth' h = nest-append ts us depth depth' h
nest-append (code s ∷ ts) us depth depth' h = nest-append ts us depth depth' h
nest-append (fences s ∷ ts) us depth depth' h = nest-append ts us depth depth' h
nest-append (def i r t ∷ ts) us depth depth' h = nest-append ts us depth depth' h
nest-append (macro n a o ∷ ts) us depth depth' h = nest-append ts us depth depth' h
nest-append (separator s ∷ ts) us zero depth' h = nest-append ts us zero depth' h
nest-append (separator s ∷ ts) us (suc depth) depth' h = absurd (cc)
nest-append (notes_separator s ∷ ts) us zero depth' h = nest-append ts us zero depth' h
nest-append (notes_separator s ∷ ts) us (suc depth) depth' h = absurd (cc)
nest-append (content_start cs b ∷ ts) us depth depth' h = nest-append ts us (suc depth) depth' h
nest-append (content_end b ∷ ts) us zero depth' h = absurd (cc)
nest-append (content_end b ∷ ts) us (suc depth) depth' h = nest-append ts us depth depth' h

-- A match without the groups of the separators.
pub record IsFlat (cap : Match) : Type 0 where
  pub no_slide : cap.groups slide_separator_group ≡ none
  pub no_fragment : cap.groups fragment_separator_group ≡ none
  pub no_notes : cap.groups notes_separator_group ≡ none

-- A token that is no content class does not change the depth; in a class it is no separator.
pub nest-token_of_zero :
    (low : Text → Text) (cap : Match) (t : Token)
    → token_of low cap ≡ some t
    → nest 0 (t ∷ []) ≡ some 0
unfolding nest token_of
nest-token_of_zero low cap t h = ground arith

pub nest-token_of :
    (low : Text → Text) (cap : Match) (t : Token) (depth : ℕ)
    → IsFlat cap
    → token_of low cap ≡ some t
    → nest depth (t ∷ []) ≡ some depth
unfolding nest token_of
nest-token_of low cap t zero f h = nest-token_of_zero low cap t h
nest-token_of low cap t (suc depth) f h = ground arith

pub nest-leading :
    (cap : Match) (src : Text) (depth : ℕ) → nest depth (leading cap src) ≡ some depth
unfolding nest leading
nest-leading cap src zero = ground arith
nest-leading cap src (suc depth) = ground arith
