-- ===== src/Regex/Quoted.antt =====
-- A quoted text, with a unit before it: what the expression /([^`])`([^`]+?)`/ finds at one position, for
-- any unit in place of the backtick.
use analisis_de_protocolo_de.Prelude.{
  ℕ, zero, suc, ◌-◌, ◌≤◌, ◌≡◌, refl, ap, sym, ◌∙◌, true, false, ◌&&◌, not, Option, none, some, [],
  ◌∷◌, ◌++◌, ◌==◌, ltb, if◌then◌else◌, length, take, drop, arith, Bool-cases, Option-cases, inl,
  inr, ==_iff, eq_of_some, subst, append_assoc, length-append, take-append, drop-append,
}
use analisis_de_protocolo_de.Prelude.Text.{Text}
use analisis_de_protocolo_de.Regex.{
  Re, seq, group, Cursor, Groups, no_groups, set_group, Found, star_loop, run, Match, match_at, chr,
  other_than, lazy_plus,
}

-- A unit that is no quote, a quoted text that is not empty, and the quote behind it.
abbrev pub quoted_re : ℕ → Re
quoted_re q =
    seq (group 1 (other_than q)) (seq (chr q) (seq (group 2 (lazy_plus (other_than q))) (chr q)))

-- The text before the first quote.
unfoldable pub text_until : ℕ → Text → Option Text
text_until q [] = none
text_until q (c ∷ s) =
    let rest = text_until q s in
    if c == q then some [] else elim rest [ none ↦ none | some t ↦ some (c ∷ t) ]

abbrev read : Text → Text → Text
read [] done = done
read (c ∷ t) done = read t (c ∷ done)

-- The lazy loop stops at the first quote, where what follows stops nowhere else.
star_loop-until :
    (q fuel : ℕ) (done rest : Text) (g : Groups) (k : Cursor → Groups → Option Found)
    → length rest ≤ fuel
    → ((d : Text) → k (record { done = d; rest = [] }) g ≡ none)
    → ((c : ℕ) (d r : Text) → (c == q) ≡ false → k (record { done = d; rest = c ∷ r }) g ≡ none)
    → ((c : ℕ) (d r : Text)
        → (c == q) ≡ true
        → (x : Found) × (k (record { done = d; rest = c ∷ r }) g ≡ some x))
    → star_loop (run (other_than q)) false fuel (record { done = done; rest = rest }) g k
      ≡ elim (text_until q rest) [
        | none ↦ none
        | some t ↦ k (record { done = read t done; rest = drop (length t) rest }) g
      ]
unfolding star_loop run text_until
star_loop-until q zero done [] g k l ended goes stops = ended done
star_loop-until q (suc fuel) done [] g k l ended goes stops = rw (ended done) refl
star_loop-until q zero done (c ∷ r) g k l ended goes stops = absurd (omega arith)
star_loop-until q (suc fuel) done (c ∷ r) g k l ended goes stops = elim (Bool-cases (c == q)) [
  | inl u ↦ let (x, e) = stops c done r u in rw (u, e) refl
  | inr u ↦
      let shorter : ltb (length r) (suc (length r)) ≡ true = ground arith in
      rw (u, goes c done r u, shorter)
        (star_loop-until q fuel (c ∷ done) r g k (omega arith) ended goes stops
          ∙ further (text_until q r))
]
  where
    further :
        (o : Option Text)
        → (elim o [
          | none ↦ none
          | some t ↦ k (record { done = read t (c ∷ done); rest = drop (length t) r }) g
        ])
          ≡ (elim (elim o as (λ _. Option Text) [ none ↦ none | some t ↦ some (c ∷ t) ]) [
            | none ↦ none
            | some t ↦ k (record { done = read t done; rest = drop (length t) (c ∷ r) }) g
          ])
    further none = refl
    further (some t) = refl

-- What is found at the start of a text: the unit, the quoted text, and what is left behind it.
pub record Quoted : Type 0 where
  pub before : ℕ
  pub quoted : Text
  pub behind : Text

-- The quoted text that begins with the first of these units.
abbrev behind_quote : ℕ → ℕ → ℕ → Text → Option Quoted
behind_quote q a x rest =
    if x == q then none else elim (text_until q rest) as (λ _. Option Quoted) [
      | none ↦ none
      | some t ↦ some (record { before = a; quoted = x ∷ t; behind = drop (suc (length t)) rest })
    ]

unfoldable pub quoted_at : ℕ → Text → Option Quoted
unfolding text_until
quoted_at q (a ∷ (b ∷ (x ∷ rest))) =
    if not (a == q) && b == q then behind_quote q a x rest else none
quoted_at q s = none

-- The match of a quoted text.
abbrev pub match_of : ℕ → ℕ → Quoted → Match
match_of q i m = record {
  index = i;
  whole = m.before ∷ (q ∷ (m.quoted ++ q ∷ []));
  groups = set_group 2 m.quoted (set_group 1 (m.before ∷ []) no_groups);
}

abbrev final : Cursor → Groups → Option Found
final s g = some (s, g)

text_until-splits :
    (q : ℕ) (s t : Text) → text_until q s ≡ some t → s ≡ t ++ q ∷ drop (suc (length t)) s
unfolding text_until
text_until-splits q [] t e = absurd (cc (e))
text_until-splits q (c ∷ s) t e = elim (Bool-cases (c == q)) [
  | inl u ↦
      let same : c ≡ q = (==_iff c q).0 u in
      let empty : [] ≡ t = eq_of_some (rw u at e) in
      subst (λ t. c ∷ s ≡ t ++ q ∷ drop (suc (length t)) (c ∷ s)) empty (ap (λ b. b ∷ s) same)
  | inr u ↦ elim (Option-cases (text_until q s)) [
    | inl v ↦ absurd (cc (rw (u, v) at e))
    | inr (r, v) ↦
        let grown : c ∷ r ≡ t = eq_of_some (rw (u, v) at e) in
        subst (λ t. c ∷ s ≡ t ++ q ∷ drop (suc (length t)) (c ∷ s)) grown
          (ap (c ∷◌) (text_until-splits q s r v))
  ]
]

-- The text that a group has read.
take-read :
    (x q : ℕ) (t r : Text)
    → take (length (x ∷ (t ++ q ∷ r)) - length (q ∷ r)) (x ∷ (t ++ q ∷ r)) ≡ x ∷ t
take-read x q t r =
    let n : length (x ∷ (t ++ q ∷ r)) - length (q ∷ r) ≡ length (x ∷ t) =
      omega (arith, length-append t (q ∷ r)) in
    ap (λ n. take n (x ∷ (t ++ q ∷ r))) n ∙ take-append (x ∷ t) (q ∷ r)

-- The closing quote.
run-closing :
    (q x : ℕ) (d t r : Text) (g : Groups)
    → run
        (chr q)
        (record { done = d; rest = q ∷ r })
        (set_group 2 (take (length (x ∷ (t ++ q ∷ r)) - length (q ∷ r)) (x ∷ (t ++ q ∷ r))) g)
        final
      ≡ some (record { done = q ∷ d; rest = r }, set_group 2 (x ∷ t) g)
unfolding run
run-closing q x d t r g =
    let same : (q == q) ≡ true = (==_iff q q).1 refl in
    rw same
      (ap (λ u. some (record { done = q ∷ d; rest = r }, set_group 2 u g)) (take-read x q t r))

-- The quoted text behind a unit and its quote.
run-quoted :
    (q x : ℕ) (done rest : Text) (g : Groups)
    → (x == q) ≡ false
    → run
        (seq (group 2 (lazy_plus (other_than q))) (chr q))
        (record { done = done; rest = x ∷ rest })
        g
        final
      ≡ elim (text_until q rest) [
        | none ↦ none
        | some t ↦ some (
          record { done = q ∷ read t (x ∷ done); rest = drop (suc (length t)) rest },
          set_group 2 (x ∷ t) g,
        )
      ]
unfolding run
run-quoted q x done rest g u = rw u (
    star_loop-until q (length rest) (x ∷ done) rest g after (omega arith) (λ d. refl)
      (λ c d r v. rw v refl)
      (λ c d r v. (
        (
          record { done = c ∷ d; rest = r },
          set_group 2 (take (length (x ∷ rest) - length (c ∷ r)) (x ∷ rest)) g,
        ),
        rw v refl,
      ))
    ∙ closed)
  where
    after : Cursor → Groups → Option Found
    after s g =
        run (chr q) s (set_group 2 (take (length (x ∷ rest) - length s.rest) (x ∷ rest)) g) final

    ending : Text → Text → Text → Option Found
    ending t s r =
        run (chr q) (record { done = read t (x ∷ done); rest = r })
          (set_group 2 (take (length (x ∷ s) - length r) (x ∷ s)) g) final

    closed :
        (elim (text_until q rest) [
          | none ↦ none
          | some t ↦ after (record { done = read t (x ∷ done); rest = drop (length t) rest }) g
        ])
        ≡ elim (text_until q rest) [
          | none ↦ none
          | some t ↦ some (
            record { done = q ∷ read t (x ∷ done); rest = drop (suc (length t)) rest },
            set_group 2 (x ∷ t) g,
          )
        ]
    closed = elim (Option-cases (text_until q rest)) [
      | inl v ↦ rw v refl
      | inr (t, v) ↦
          let e = text_until-splits q rest t v in
          let r = drop (suc (length t)) rest in
          let left : drop (length t) rest ≡ q ∷ r =
            ap (drop (length t)) e ∙ drop-append t (q ∷ r) in
          rw v (
            ap (λ s. ending t s (drop (length t) rest)) e
            ∙ ap (ending t (t ++ q ∷ r)) left
            ∙ run-closing q x (read t (x ∷ done)) t r g)
    ]

take-whole : (s r : Text) → take (length (s ++ r) - length r) (s ++ r) ≡ s
take-whole s r =
    let n : length (s ++ r) - length r ≡ length s = omega (arith, length-append s r) in
    ap (λ n. take n (s ++ r)) n ∙ take-append s r

-- The expression matches where a quoted text stands, and reads exactly that.
pub match_at-quoted :
    (q i : ℕ) (done rest : Text)
    → match_at (quoted_re q) i (record { done = done; rest = rest })
      ≡ elim (quoted_at q rest) [ none ↦ none | some m ↦ some (match_of q i m) ]
unfolding match_at quoted_at run
match_at-quoted q i done [] = refl
match_at-quoted q i done (a ∷ []) = elim (Bool-cases (a == q)) [
  | inl u ↦ rw (u, match_at, quoted_at) refl
  | inr u ↦ rw (u, match_at, quoted_at) refl
]
match_at-quoted q i done (a ∷ (b ∷ [])) = elim (Bool-cases (a == q)) [
  | inl u ↦ rw (u, match_at, quoted_at) refl
  | inr u ↦ elim (Bool-cases (b == q)) [
    | inl v ↦ rw (u, v, match_at, quoted_at) refl
    | inr v ↦ rw (u, v, match_at, quoted_at) refl
  ]
]
match_at-quoted q i done (a ∷ (b ∷ (x ∷ rest))) = elim (Bool-cases (a == q)) [
  | inl u ↦ rw (u, match_at, quoted_at) refl
  | inr u ↦ elim (Bool-cases (b == q)) [
    | inl v ↦ elim (Bool-cases (x == q)) [
      | inl w ↦ rw (u, v, w, match_at, quoted_at) refl
      | inr w ↦
          rw (u, v, match_at, quoted_at)
            (ap to_match (run-quoted q x (b ∷ (a ∷ done)) rest one_read w)
              ∙ ended w ((==_iff b q).0 v))
    ]
    | inr v ↦ rw (u, v, match_at, quoted_at) refl
  ]
]
  where
    one_read : Groups
    one_read =
        set_group 1
          (take (length (a ∷ (b ∷ (x ∷ rest))) - length (b ∷ (x ∷ rest))) (a ∷ (b ∷ (x ∷ rest))))
          no_groups

    to_match : Option Found → Option Match
    to_match f = elim f [
      | none ↦ none
      | some r ↦ some (record {
        index = i;
        whole = take (length (a ∷ (b ∷ (x ∷ rest))) - length r.0.rest) (a ∷ (b ∷ (x ∷ rest)));
        groups = r.1;
      })
    ]

    found : Text → Text → Groups → Option Match
    found t whole g = some (record { index = i; whole = whole; groups = set_group 2 (x ∷ t) g })

    ended :
        (x == q) ≡ false
        → b ≡ q
        → to_match (elim (text_until q rest) [
          | none ↦ none
          | some t ↦ some (
            record { done = q ∷ read t (x ∷ (b ∷ (a ∷ done))); rest = drop (suc (length t)) rest },
            set_group 2 (x ∷ t) one_read,
          )
        ])
          ≡ (elim (behind_quote q a x rest) [ none ↦ none | some m ↦ some (match_of q i m) ])
    ended w same = elim (Option-cases (text_until q rest)) [
      | inl v ↦ rw (w, v) refl
      | inr (t, v) ↦
          let r = drop (suc (length t)) rest in
          let e : rest ≡ (t ++ q ∷ []) ++ r =
            text_until-splits q rest t v ∙ sym (append_assoc t (q ∷ []) r) in
          let whole : take (length (a ∷ (b ∷ (x ∷ rest))) - length r) (a ∷ (b ∷ (x ∷ rest)))
              ≡ a ∷ (q ∷ (x ∷ (t ++ q ∷ []))) =
            ap (λ s. take (length (a ∷ (b ∷ (x ∷ s))) - length r) (a ∷ (b ∷ (x ∷ s)))) e
            ∙ take-whole (a ∷ (b ∷ (x ∷ (t ++ q ∷ [])))) r
            ∙ ap (λ c. a ∷ (c ∷ (x ∷ (t ++ q ∷ [])))) same in
          rw (w, v)
            (ap (λ s. found t s one_read) whole
              ∙ ap (λ u. found t (a ∷ (q ∷ (x ∷ (t ++ q ∷ [])))) (set_group 1 u no_groups))
                  (take-whole (a ∷ []) (b ∷ (x ∷ rest))))
    ]
