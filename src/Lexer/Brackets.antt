-- ===== src/Lexer/Brackets.antt =====
-- `getTextInBrackets`.
use analisis_de_protocolo_de.Prelude.{
  ℕ, zero, suc, ◌+◌, ◌-◌, ◌≡◌, true, false, Option, none, some, [], ◌∷◌, ◌++◌, ◌==◌, if◌then◌else◌,
  length, take, drop, arith, ap, ◌∙◌, refl, Bool-cases, inl, inr, ==_iff, ◌↔◌, take-append, sym,
  Option-cases, eq_of_some,
}
use analisis_de_protocolo_de.Prelude.Text.{Text}

-- The loop, from the depth and the position that it has, over what is left of the source: the
-- position behind the bracket that closes depth 1, or `none` where the source ends first.
pub bracket_loop : ℕ → ℕ → Text → Option ℕ
bracket_loop zero pos rest = some pos
bracket_loop (suc depth) pos [] = none
bracket_loop (suc depth) pos (chr ∷ rest) =
    bracket_loop (if chr == b'[' then suc (suc depth) else if chr == b']' then depth else suc depth)
      (pos + 1) rest

unfoldable pub get_text_in_brackets : Text → ℕ → Option Text
unfolding bracket_loop
get_text_in_brackets src offset = elim (bracket_loop 1 offset (drop offset src)) [
  | none ↦ none
  | some pos ↦ some (take (pos - offset - 1) (drop offset src))
]

-- The number of open brackets behind a text that starts with `depth` of them; `none` where a
-- bracket closes that is not open.
pub level : ℕ → Text → Option ℕ
level depth [] = some depth
level depth (chr ∷ t) =
    if chr == b'['
    then level (suc depth) t
    else if chr == b']'
    then elim depth [ zero ↦ none | suc d ↦ level d t ]
    else level depth t

pub record Closes (depth pos : ℕ) (rest : Text) (pos' : ℕ) : Type 0 where
  pub inner : Text
  pub after : Text
  pub is_split : rest ≡ inner ++ (b']' ∷ after)
  pub is_level : level depth inner ≡ some 0
  pub at_pos : pos' ≡ pos + (length inner + 1)

-- One more code unit in front.
Closes-cons :
    (depth depth' pos pos' chr : ℕ) (rest : Text)
    → ((t : Text) → level depth (chr ∷ t) ≡ level depth' t)
    → Closes depth' (pos + 1) rest pos'
    → Closes depth pos (chr ∷ rest) pos'
Closes-cons depth depth' pos pos' chr rest e c = record {
  inner = chr ∷ c.inner;
  after = c.after;
  is_split = ap (chr ∷◌) c.is_split;
  is_level = e c.inner ∙ c.is_level;
  at_pos = omega (arith, c.at_pos);
}

-- A closing bracket closes the text, or the bracket opened last.
closing-Closes :
    (depth pos pos' chr : ℕ) (rest : Text)
    → ((d : ℕ) → bracket_loop (suc d) (pos + 1) rest ≡ some pos' → Closes d (pos + 1) rest pos')
    → (chr == b'[') ≡ false
    → (chr == b']') ≡ true
    → bracket_loop depth (pos + 1) rest ≡ some pos'
    → Closes depth pos (chr ∷ rest) pos'
unfolding bracket_loop level
closing-Closes zero pos pos' chr rest ih e u h = record {
  inner = [];
  after = rest;
  is_split = ap (◌∷ rest) ((==_iff chr b']').0 u);
  is_level = refl;
  at_pos = omega (arith, eq_of_some h);
}
closing-Closes (suc d) pos pos' chr rest ih e u h =
    Closes-cons (suc d) d pos pos' chr rest (λ t. rw (e, u) refl) (ih d h)

-- The loop returns the position behind the first bracket that closes what is open.
bracket_loop-Closes :
    (rest : Text) (depth pos pos' : ℕ)
    → bracket_loop (suc depth) pos rest ≡ some pos'
    → Closes depth pos rest pos'
unfolding bracket_loop level
bracket_loop-Closes [] depth pos pos' h = absurd (cc)
bracket_loop-Closes (chr ∷ rest) depth pos pos' h = elim (Bool-cases (chr == b'[')) [
  | inl e ↦
      Closes-cons depth (suc depth) pos pos' chr rest (λ t. rw e refl)
        (bracket_loop-Closes rest (suc depth) (pos + 1) pos' (rw (e, bracket_loop) at h))
  | inr e ↦ elim (Bool-cases (chr == b']')) [
    | inl u ↦
        closing-Closes depth pos pos' chr rest (λ d. bracket_loop-Closes rest d (pos + 1) pos') e u
          (rw (e, u, bracket_loop) at h)
    | inr u ↦
        Closes-cons depth depth pos pos' chr rest (λ t. rw (e, u) refl)
          (bracket_loop-Closes rest depth (pos + 1) pos' (rw (e, u, bracket_loop) at h))
  ]
]

-- Past a text whose brackets are balanced the loop stops behind the bracket that follows.
bracket_loop-append :
    (inner after : Text) (depth pos : ℕ)
    → level depth inner ≡ some 0
    → bracket_loop (suc depth) pos (inner ++ (b']' ∷ after)) ≡ some (pos + (length inner + 1))
unfolding bracket_loop level
bracket_loop-append [] after depth pos h = rw (eq_of_some h, bracket_loop) (ap some (omega arith))
bracket_loop-append (chr ∷ inner) after depth pos h = elim (Bool-cases (chr == b'[')) [
  | inl e ↦
      rw (e, bracket_loop)
        (bracket_loop-append inner after (suc depth) (pos + 1) (rw (e, level) at h)
          ∙ ap some (omega arith))
  | inr e ↦ elim (Bool-cases (chr == b']')) [
    | inl u ↦
        rw (e, u, bracket_loop)
          (closed depth (rw (e, u, level) at h) (λ d. bracket_loop-append inner after d (pos + 1)))
    | inr u ↦
        rw (e, u, bracket_loop)
          (bracket_loop-append inner after depth (pos + 1) (rw (e, u, level) at h)
            ∙ ap some (omega arith))
  ]
]
  where
    closed :
        (d : ℕ)
        → (elim d as (λ _. Option ℕ) [ zero ↦ none | suc d' ↦ level d' inner ]) ≡ some 0
        → ((d' : ℕ)
            → level d' inner ≡ some 0
            → bracket_loop (suc d') (pos + 1) (inner ++ (b']' ∷ after))
              ≡ some (pos + 1 + (length inner + 1)))
        → bracket_loop d (pos + 1) (inner ++ (b']' ∷ after)) ≡ some (pos + (suc (length inner) + 1))
    closed zero h ih = absurd (cc)
    closed (suc d) h ih = ih d h ∙ ap some (omega arith)

take_inner :
    (offset pos : ℕ) (inner after : Text) (s : Text)
    → pos ≡ offset + (length inner + 1)
    → s ≡ inner ++ (b']' ∷ after)
    → take (pos - offset - 1) s ≡ inner
take_inner offset pos inner after s p e =
    let n : pos - offset - 1 ≡ length inner = omega arith in
    rw (n, e) (take-append inner (b']' ∷ after))

-- `getTextInBrackets(src, offset)` is the text `inner` exactly when the source from the offset on is
-- `inner`, a closing bracket and any rest, and the brackets of `inner` are balanced.
pub get_text_in_brackets_iff :
    (src : Text) (offset : ℕ) (inner : Text)
    → (get_text_in_brackets src offset ≡ some inner)
      ↔ ((after : Text) × (drop offset src ≡ inner ++ (b']' ∷ after)) × (level 0 inner ≡ some 0))
unfolding get_text_in_brackets
get_text_in_brackets_iff src offset inner = (closes, found)
  where
    s : Text
    s = drop offset src

    closes :
        get_text_in_brackets src offset ≡ some inner
        → (after : Text) × (s ≡ inner ++ (b']' ∷ after)) × (level 0 inner ≡ some 0)
    closes h = elim (Option-cases (bracket_loop 1 offset s)) [
      | inl e ↦
          let u : get_text_in_brackets src offset ≡ none = rw (e, get_text_in_brackets) in
          absurd (cc (u, h))
      | inr (pos, e) ↦
          let c = bracket_loop-Closes s 0 offset pos e in
          let u : get_text_in_brackets src offset ≡ some (take (pos - offset - 1) s) =
            rw (e, get_text_in_brackets) in
          let v : c.inner ≡ inner =
            sym (take_inner offset pos c.inner c.after s c.at_pos c.is_split)
            ∙ eq_of_some (sym u ∙ h) in
          (c.after, c.is_split ∙ ap (◌++ (b']' ∷ c.after)) v, ap (level 0) (sym v) ∙ c.is_level)
    ]

    found :
        (after : Text) × (s ≡ inner ++ (b']' ∷ after)) × (level 0 inner ≡ some 0)
        → get_text_in_brackets src offset ≡ some inner
    found (after, e, l) =
        let p : bracket_loop 1 offset s ≡ some (offset + (length inner + 1)) =
          rw e (bracket_loop-append inner after 0 offset l) in
        rw (p, get_text_in_brackets) (ap some (take_inner offset _ inner after s refl e))
