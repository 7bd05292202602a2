-- ===== src/Lexer/Merge.antt =====
-- `Lexer.prototype.lex`: the texts side by side are merged, and the whole lexer is total.
use analisis_de_protocolo_de.Prelude.{
  ℕ, zero, suc, ◌≡◌, refl, ◌∙◌, inl, Bool, true, false, not, ◌&&◌, some, List, [], ◌∷◌, length,
  is_empty, arith,
}
use analisis_de_protocolo_de.Prelude.Text.{Text}
use analisis_de_protocolo_de.Lexer.{
  Token, text, separator, notes_separator, content_start, content_end, glue, merge_texts, lex,
  block, drop_return,
}
use analisis_de_protocolo_de.Lexer.Nesting.{nest}
use analisis_de_protocolo_de.Lexer.Total.{lex_loop-Lexed}
use analisis_de_protocolo_de.Lexer.Shapes.{min_len-block}

abbrev is_text : Token → Bool
is_text (text s) = true
is_text t = false

abbrev starts_with_text : List Token → Bool
starts_with_text [] = false
starts_with_text (t ∷ ts) = is_text t

-- No two texts stand side by side.
pub is_merged : List Token → Bool
is_merged [] = true
is_merged (t ∷ ts) = not (is_text t && starts_with_text ts) && is_merged ts

glue-is_merged : (t : Token) (ts : List Token) → is_merged ts ≡ true → is_merged (glue t ts) ≡ true
unfolding is_merged glue
glue-is_merged (text a) [] h = refl
glue-is_merged (text a) (text b ∷ ts) h = ground arith
glue-is_merged (text a) (_ ∷ ts) h = h
glue-is_merged _ ts h = h

merge_texts-is_merged : (ts : List Token) → is_merged (merge_texts ts) ≡ true
unfolding merge_texts is_merged
merge_texts-is_merged [] = refl
merge_texts-is_merged (t ∷ ts) = glue-is_merged t (merge_texts ts) (merge_texts-is_merged ts)

nest-glue : (t : Token) (ts : List Token) (depth : ℕ) → nest depth (glue t ts) ≡ nest depth (t ∷ ts)
unfolding glue nest
nest-glue (text a) [] depth = refl
nest-glue (text a) (text b ∷ ts) depth = refl
nest-glue (text a) (_ ∷ ts) depth = refl
nest-glue _ ts depth = refl

nest-cons :
    (t : Token) (ts us : List Token) (depth : ℕ)
    → ((d : ℕ) → nest d ts ≡ nest d us)
    → nest depth (t ∷ ts) ≡ nest depth (t ∷ us)
unfolding nest
nest-cons (content_start cs b) ts us depth h = h (suc depth)
nest-cons (content_end b) ts us zero h = refl
nest-cons (content_end b) ts us (suc depth) h = h depth
nest-cons (separator s) ts us zero h = h zero
nest-cons (separator s) ts us (suc depth) h = refl
nest-cons (notes_separator s) ts us zero h = h zero
nest-cons (notes_separator s) ts us (suc depth) h = refl
nest-cons t ts us zero h = h zero
nest-cons t ts us (suc depth) h = h (suc depth)

-- Merging does not change how the classes nest.
nest-merge_texts : (ts : List Token) (depth : ℕ) → nest depth (merge_texts ts) ≡ nest depth ts
unfolding merge_texts nest
nest-merge_texts [] depth = refl
nest-merge_texts (t ∷ ts) depth =
    nest-glue t (merge_texts ts) depth ∙ nest-cons t (merge_texts ts) ts depth (nest-merge_texts ts)

glue-filled : (t : Token) (ts : List Token) → is_empty (glue t ts) ≡ false
unfolding glue
glue-filled (text a) [] = refl
glue-filled (text a) (text b ∷ ts) = refl
glue-filled (text a) (_ ∷ ts) = refl
glue-filled _ ts = refl

merge_texts-filled : (ts : List Token) → is_empty ts ≡ false → is_empty (merge_texts ts) ≡ false
unfolding merge_texts glue
merge_texts-filled [] h = h
merge_texts-filled (t ∷ ts) h = glue-filled t (merge_texts ts)

pub record IsLexed (tokens : List Token) : Type 0 where
  pub balanced : nest 0 tokens ≡ some 0
  pub merged : is_merged tokens ≡ true
  pub filled : is_empty tokens ≡ false

-- The lexer returns, whatever the source: at least one token, no two texts side by side, every
-- content class opened before it is closed and closed before the end, and separators outside all
-- content classes.
pub lex-IsLexed :
    (low : Text → Text) (src : Text)
    → (tokens : List Token) × (lex low src ≡ some tokens) × IsLexed tokens
unfolding lex merge_texts
lex-IsLexed low src =
    let src' = drop_return src in
    let l =
      lex_loop-Lexed low (suc (length src')) 0 block (omega (arith, min_len-block)) (inl refl) src'
        [] (omega arith) in
    (
      merge_texts l.more,
      rw (l.is_some, lex) refl,
      record {
        balanced = nest-merge_texts l.more 0 ∙ l.nested;
        merged = merge_texts-is_merged l.more;
        filled = merge_texts-filled l.more l.filled;
      },
    )
