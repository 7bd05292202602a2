-- ===== src/Regex.antt =====
-- JavaScript regular expressions, as far as remark writes them: the backtracking matcher of the
-- language, in the order of its choices. A group of remark's expressions is either under no
-- quantifier or set anew by each round of one, so the rounds do not reset the groups.
pub mod Lengths
pub mod Inversion
pub mod Search
pub mod Global
pub mod Quoted
use analisis_de_protocolo_de.Prelude.{
  ℕ, zero, suc, ◌+◌, ◌-◌, ◌≡◌, Bool, true, false, ◌&&◌, not, Option, none, some, List, [], ◌∷◌,
  ◌++◌, ◌==◌, ltb, if◌then◌else◌, length, take,
}
use analisis_de_protocolo_de.Prelude.Text.{Text, is_line_end, text_eq}

pub data Re : Type 0 where
  -- the empty expression
  eps : Re
  -- one code unit of a class
  one : (ℕ → Bool) → Re
  seq : Re → Re → Re
  -- `a|b`, a first
  or : Re → Re → Re
  -- `( )`, with its number
  group : ℕ → Re → Re
  -- `\4`
  back : ℕ → Re
  -- `*` and `*?`: any number of rounds, greedy or lazy
  star : Bool → Re → Re
  -- `^`, and `^` under the flag m
  start line_start : Re
  -- `$`
  end : Re
  -- `(?! )` for one code unit of a class
  not_ahead : (ℕ → Bool) → Re

-- What has been read, the last unit first, and what is left.
pub record Cursor : Type 0 where
  pub done : Text
  pub rest : Text

abbrev pub Groups : Type 0
Groups = ℕ → Option Text

abbrev pub no_groups : Groups
no_groups _ = none

abbrev pub set_group : ℕ → Text → Groups → Groups
set_group n t g = λ k. if k == n then some t else g k

abbrev pub Found : Type 0
Found = Cursor × Groups

abbrev pub Matcher : Type 0
Matcher = Cursor → Groups → (Cursor → Groups → Option Found) → Option Found

-- the first result, or else the second
abbrev pub or_else : Option Found → (Unit {0} → Option Found) → Option Found
or_else none f = f tt
or_else (some r) f = some r

-- the result where a test holds
abbrev pub only_if : Bool → (Unit {0} → Option Found) → Option Found
only_if false f = none
only_if true f = f tt

abbrev pub at_line_start : Text → Bool
at_line_start [] = true
at_line_start (c ∷ d) = is_line_end c

abbrev pub is_at_end : Text → Bool
is_at_end [] = true
is_at_end (c ∷ s) = false

-- the two choices of a quantifier: another round first if it is greedy, else last
abbrev pub prefer : Bool → (Unit {0} → Option Found) → (Unit {0} → Option Found) → Option Found
prefer true round stop = or_else (round tt) stop
prefer false round stop = or_else (stop tt) round

-- A round of a quantifier that reads nothing is refused, so `length s.rest` rounds are enough.
pub star_loop : Matcher → Bool → ℕ → Matcher
star_loop m greedy zero s g k = k s g
star_loop m greedy (suc fuel) s g k =
    prefer greedy
      (λ _. m s g λ s' g'.
        only_if (ltb (length s'.rest) (length s.rest)) (λ _. star_loop m greedy fuel s' g' k))
      (λ _. k s g)

-- `\n` reads what the group has read; a group that is not set reads nothing.
pub literal : Text → Cursor → Option Cursor
literal [] s = some s
literal (c ∷ t) s = elim s.rest [
  | [] ↦ none
  | d ∷ r ↦ if d == c then literal t (record { done = d ∷ s.done; rest = r }) else none
]

abbrev pub or_empty : Option Text → Text
or_empty none = []
or_empty (some t) = t

pub run : Re → Matcher
unfolding star_loop literal
run eps s g k = k s g
run (one p) s g k = elim s.rest [
  | [] ↦ none
  | c ∷ r ↦ only_if (p c) (λ _. k (record { done = c ∷ s.done; rest = r }) g)
]
run (seq a b) s g k = run a s g (λ s' g'. run b s' g' k)
run (or a b) s g k = or_else (run a s g k) (λ _. run b s g k)
run (group n a) s g k =
    run a s g λ s' g'. k s' (set_group n (take (length s.rest - length s'.rest) s.rest) g')
run (back n) s g k = elim (literal (or_empty (g n)) s) [ none ↦ none | some s' ↦ k s' g ]
run (star greedy a) s g k = star_loop (run a) greedy (length s.rest) s g k
run start s g k = only_if (is_at_end s.done) (λ _. k s g)
run line_start s g k = only_if (at_line_start s.done) (λ _. k s g)
run end s g k = only_if (is_at_end s.rest) (λ _. k s g)
run (not_ahead p) s g k = elim s.rest [ [] ↦ k s g | c ∷ r ↦ only_if (not (p c)) (λ _. k s g) ]

-- `a+`, `a?` and a lazy `a+?`
abbrev pub plus : Re → Re
plus a = seq a (star true a)

abbrev pub lazy_plus : Re → Re
lazy_plus a = seq a (star false a)

abbrev pub opt : Re → Re
opt a = or a eps

abbrev pub chr : ℕ → Re
chr c = one (λ d. d == c)

abbrev pub other_than : ℕ → Re
other_than c = one (λ d. not (d == c))

-- the code units of a literal one after the other
abbrev pub lit : Text → Re
lit [] = eps
lit (c ∷ t) = seq (chr c) (lit t)

-- What `exec` returns: the index, `cap[0]`, and the groups.
pub record Match : Type 0 where
  pub index : ℕ
  pub whole : Text
  pub groups : Groups

-- A match at one position.
pub match_at : Re → ℕ → Cursor → Option Match
unfolding run
match_at re i s = elim (run re s no_groups (λ s' g. some (s', g))) [
  | none ↦ none
  | some (s', g) ↦
      some (record { index = i; whole = take (length s.rest - length s'.rest) s.rest; groups = g })
]

-- The leftmost match from a position on.
pub exec_from : Re → ℕ → Text → Text → Option Match
unfolding match_at
exec_from re i done [] = match_at re i (record { done = done; rest = [] })
exec_from re i done (c ∷ r) = elim (match_at re i (record { done = done; rest = c ∷ r })) [
  | some m ↦ some m
  | none ↦ exec_from re (i + 1) (c ∷ done) r
]

-- re.exec(src)
unfoldable pub exec : Re → Text → Option Match
unfolding exec_from
exec re src = exec_from re 0 [] src
