-- ===== src/Regex/Search.antt =====
-- Where `exec` finds its match, and what the match leaves of the groups.
use analisis_de_protocolo_de.Prelude.{
  ℕ, ◌+◌, ◌-◌, ◌≤◌, ◌≡◌, refl, ap, ◌∙◌, sym, false, Option, none, some, [], ◌∷◌, ◌++◌, length,
  length-append, take, take-append, arith, ap₂, subst, Option-cases, inl, inr, append_assoc,
}
use analisis_de_protocolo_de.Prelude.Text.{Text}
use analisis_de_protocolo_de.Regex.{
  Re, Cursor, Match, Found, no_groups, run, match_at, exec_from, exec, Groups,
}
use analisis_de_protocolo_de.Regex.Inversion.{run-Reads}
use analisis_de_protocolo_de.Regex.Lengths.{min_len, has_group, Reads}

-- A match splits the source around `cap[0]`, which is no shorter than any text of the expression;
-- a group that the expression does not have is undefined.
pub record Splits (re : Re) (src : Text) (m : Match) : Type 0 where
  pub before : Text
  pub after : Text
  pub is_split : src ≡ before ++ (m.whole ++ after)
  pub at_index : m.index ≡ length before
  pub long : min_len re ≤ length m.whole
  pub absent : (n : ℕ) → has_group n re ≡ false → m.groups n ≡ none

-- the text between two lengths of the rest
abbrev read_text : Text → Cursor → Text
read_text rest s' = take (length rest - length s'.rest) rest

read_text-eq : (word rest : Text) (s' : Cursor) → rest ≡ word ++ s'.rest → read_text rest s' ≡ word
read_text-eq word rest s' e =
    let n : length rest - length s'.rest ≡ length word =
      omega (arith, ap length e, length-append word s'.rest) in
    ap₂' n e ∙ take-append word s'.rest
  where
    ap₂' : {a b : ℕ} {x y : Text} → a ≡ b → x ≡ y → take a x ≡ take b y
    ap₂' p q = cc

module _ (re : Re) (i : ℕ) (done rest before : Text) (at : i ≡ length before) where
  abbrev stop : Cursor → Groups → Option Found
  stop s' g = some (s', g)

  abbrev here : Cursor
  here = record { done = done; rest = rest }

  abbrev to_match : Found → Match
  to_match (s', g) = record { index = i; whole = read_text rest s'; groups = g }

  to_match-Splits :
      (f : Found) → run re here no_groups stop ≡ some f → Splits re (before ++ rest) (to_match f)
  to_match-Splits (s', g) e =
      let r : Reads (min_len re) (λ n. has_group n re) here no_groups stop (s', g) =
        run-Reads re here no_groups stop (s', g) e in
      let ended : (r.to ≡ s') × (r.groups ≡ g) = (cc (r.goes_on), cc (r.goes_on)) in
      let word : read_text rest s' ≡ r.word =
        read_text-eq r.word rest s' (r.reads ∙ ap (λ c. r.word ++ c.rest) ended.0) in
      record {
        before = before;
        after = s'.rest;
        is_split = ap (before ++◌) (r.reads ∙ ap₂ (λ w c. w ++ c.rest) (sym word) ended.0);
        at_index = at;
        long = rw word r.long;
        absent = λ n u. ap (λ h. h n) (sym ended.1) ∙ r.kept n u;
      }

  match_at-Splits : (m : Match) → match_at re i here ≡ some m → Splits re (before ++ rest) m
  unfolding match_at
  match_at-Splits m h = elim (Option-cases (run re here no_groups stop)) [
    | inl e ↦ let u : match_at re i here ≡ none = rw (e, match_at) in absurd (cc (u, h))
    | inr (f, e) ↦
        let u : match_at re i here ≡ some (to_match f) = rw (e, match_at) in
        let v : to_match f ≡ m = cc (u, h) in
        subst (λ x. Splits re (before ++ rest) x) v (to_match-Splits f e)
  ]

exec_from-Splits :
    (re : Re) (i : ℕ) (done rest before : Text)
    → i ≡ length before
    → (m : Match) → exec_from re i done rest ≡ some m
    → Splits re (before ++ rest) m
unfolding exec_from
exec_from-Splits re i done [] before at m h = match_at-Splits re i done [] before at m h
exec_from-Splits re i done (c ∷ rest) before at m h =
    elim (Option-cases (match_at re i (record { done = done; rest = c ∷ rest }))) [
      | inl e ↦
          let further : exec_from re (i + 1) (c ∷ done) rest ≡ some m = rw (e, exec_from) at h in
          subst (λ s. Splits re s m) (append_assoc before (c ∷ []) rest)
            (exec_from-Splits re (i + 1) (c ∷ done) rest (before ++ (c ∷ []))
              (omega (arith, length-append before (c ∷ []))) m further)
      | inr (m', e) ↦
          match_at-Splits re i done (c ∷ rest) before at m (e ∙ (rw (e, exec_from) at h))
    ]

-- A match of `exec` splits the source.
pub exec-Splits : (re : Re) (src : Text) (m : Match) → exec re src ≡ some m → Splits re src m
unfolding exec
exec-Splits re src m h = exec_from-Splits re 0 [] src [] refl m h

-- A match ends within the source.
pub index-le-length :
    (re : Re) (src : Text) (m : Match) → Splits re src m → m.index + length m.whole ≤ length src
index-le-length re src m s = omega (
  arith,
  ap length s.is_split,
  s.at_index,
  length-append s.before (m.whole ++ s.after),
  length-append m.whole s.after,
)
