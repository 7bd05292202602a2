-- ===== src/Lexer/Shapes.antt =====
-- The expressions of the lexer, and its tokens at the ends of the source and of content classes.
use analisis_de_protocolo_de.Prelude.{
  ℕ, zero, suc, ◌+◌, ◌≤◌, ◌<◌, ◌≡◌, refl, ap, sym, ◌∙◌, Bool, false, Option, some, List, [], ◌∷◌,
  ◌++◌, append_assoc, append-nil, is_empty, length, length-append, length-drop, drop, arith,
}
use analisis_de_protocolo_de.Prelude.Text.{Text}
use analisis_de_protocolo_de.Regex.{Re, Match}
use analisis_de_protocolo_de.Regex.Lengths.{min_len, has_group}
use analisis_de_protocolo_de.Regex.Search.{Splits, index-le-length}
use analisis_de_protocolo_de.Lexer.{
  Token, text, content_start, content_end, finish, behind, block, inline, slide_separator_group,
  fragment_separator_group, notes_separator_group,
}
use analisis_de_protocolo_de.Lexer.Brackets.{get_text_in_brackets, get_text_in_brackets_iff}
use analisis_de_protocolo_de.Lexer.Nesting.{nest, nest-append}

-- Every match of the two expressions reads something.
pub min_len-block : min_len block ≡ 2
unfolding min_len block
min_len-block = refl

pub min_len-inline : min_len inline ≡ 3
unfolding min_len inline
min_len-inline = refl

-- An expression that cannot match a separator.
pub record HasNoSeparator (re : Re) : Type 0 where
  pub slide : has_group slide_separator_group re ≡ false
  pub fragment : has_group fragment_separator_group re ≡ false
  pub notes : has_group notes_separator_group re ≡ false

pub inline-HasNoSeparator : HasNoSeparator inline
unfolding has_group inline
inline-HasNoSeparator = record { slide = refl; fragment = refl; notes = refl }

-- The result is there, and adds to `tokens` a list that nests from `depth` to `depth`.
pub record Lexed (depth : ℕ) (tokens : List Token) (o : Option (List Token)) : Type 0 where
  pub more : List Token
  pub is_some : o ≡ some (tokens ++ more)
  pub nested : nest depth more ≡ some depth
  pub filled : is_empty (tokens ++ more) ≡ false

pub Lexed-after :
    (depth : ℕ) (tokens mid : List Token) (o : Option (List Token))
    → nest depth mid ≡ some depth
    → Lexed depth (tokens ++ mid) o
    → Lexed depth tokens o
Lexed-after depth tokens mid o h l = record {
  more = mid ++ l.more;
  is_some = l.is_some ∙ ap some (append_assoc tokens mid l.more);
  nested = nest-append mid l.more depth depth h ∙ l.nested;
  filled = ap is_empty (sym (append_assoc tokens mid l.more)) ∙ l.filled;
}

not_empty-append {ℓ} :
    {A : Type ℓ} (xs : List A) (y : A) (ys : List A) → is_empty (xs ++ (y ∷ ys)) ≡ false
not_empty-append [] y ys = refl
not_empty-append (x ∷ xs) y ys = refl

pub Lexed-finish :
    (depth : ℕ) (src : Text) (tokens : List Token) → Lexed depth tokens (some (finish src tokens))
unfolding finish nest
Lexed-finish zero [] [] = record {
  more = text [] ∷ [];
  is_some = refl;
  nested = refl;
  filled = refl;
}
Lexed-finish (suc d) [] [] = record {
  more = text [] ∷ [];
  is_some = refl;
  nested = refl;
  filled = refl;
}
Lexed-finish zero [] (t ∷ ts) = record {
  more = [];
  is_some = ap some (sym (append-nil (t ∷ ts)));
  nested = refl;
  filled = refl;
}
Lexed-finish (suc d) [] (t ∷ ts) = record {
  more = [];
  is_some = ap some (sym (append-nil (t ∷ ts)));
  nested = refl;
  filled = refl;
}
Lexed-finish zero (c ∷ src) tokens = record {
  more = text (c ∷ src) ∷ [];
  is_some = refl;
  nested = refl;
  filled = not_empty-append tokens (text (c ∷ src)) [];
}
Lexed-finish (suc d) (c ∷ src) tokens = record {
  more = text (c ∷ src) ∷ [];
  is_some = refl;
  nested = refl;
  filled = not_empty-append tokens (text (c ∷ src)) [];
}

pub nest_text : (depth : ℕ) (t : Text) → nest depth (text t ∷ []) ≡ some depth
unfolding nest
nest_text zero t = refl
nest_text (suc d) t = refl

pub nest_class :
    (depth : ℕ) (cs : List Text) (b : Bool) (ts : List Token)
    → nest (suc depth) ts ≡ some (suc depth)
    → nest depth (content_start cs b ∷ (ts ++ content_end b ∷ [])) ≡ some depth
unfolding nest
nest_class zero cs b ts h = nest-append ts (content_end b ∷ []) 1 1 h
nest_class (suc d) cs b ts h = nest-append ts (content_end b ∷ []) (suc (suc d)) (suc (suc d)) h

-- What is left behind a match is shorter.
pub behind-lt :
    (re : Re) (src : Text) (cap : Match)
    → 1 ≤ min_len re
    → Splits re src cap
    → length (behind cap src) < length src
behind-lt re src cap p s =
    omega
      (arith, index-le-length re src cap s, s.long, length-drop (cap.index + length cap.whole) src)

-- The text in the brackets, and what is left behind them, are shorter too.
pub inner-lt :
    (re : Re) (src t : Text) (cap : Match)
    → 1 ≤ min_len re
    → Splits re src cap
    → get_text_in_brackets src (cap.index + length cap.whole) ≡ some t
    → (length t < length src) × (length (behind cap (drop (length t + 1) src)) < length src)
inner-lt re src t cap p s h =
    let (after, e, l) = (get_text_in_brackets_iff src (cap.index + length cap.whole) t).0 h in
    let len = ap length e in
    let n = cap.index + length cap.whole in
    (
      omega (
        arith,
        len,
        length-append t (93 ∷ after),
        length-drop n src,
        index-le-length re src cap s,
        s.long,
      ),
      omega (
        arith,
        length-drop n (drop (length t + 1) src),
        length-drop (length t + 1) src,
        len,
        length-append t (93 ∷ after),
        length-drop n src,
        index-le-length re src cap s,
        s.long,
      ),
    )
