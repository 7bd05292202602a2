-- ===== src/Regex/Global.antt =====
-- Expressions with the flag g: all matches from left to right, and `replace` with them. Behind an
-- empty match the search goes on one code unit further.
use analisis_de_protocolo_de.Prelude.{
  ℕ, zero, suc, ◌+◌, ◌≡◌, refl, Option, none, some, List, [], ◌∷◌, ◌++◌, length,
}
use analisis_de_protocolo_de.Prelude.Text.{Text}
use analisis_de_protocolo_de.Regex.{Re, Match, match_at}

-- The source as remark's `replace` sees it: units that are kept, and matches.
pub data Piece : Type 0 where
  kept : ℕ → Piece
  matched : Match → Piece

-- `skip` units of the last match are still to be passed over.
unfoldable pub pieces_from : Re → ℕ → ℕ → Text → Text → List Piece
unfolding match_at
pieces_from re zero i done [] = elim (match_at re i (record { done = done; rest = [] })) [
  | none ↦ []
  | some m ↦ matched m ∷ []
]
pieces_from re (suc skip) i done [] = []
pieces_from re (suc skip) i done (c ∷ rest) = pieces_from re skip (i + 1) (c ∷ done) rest
pieces_from re zero i done (c ∷ rest) =
    elim (match_at re i (record { done = done; rest = c ∷ rest })) [
      | none ↦ kept c ∷ pieces_from re zero (i + 1) (c ∷ done) rest
      | some m ↦ elim (length m.whole) [
        | zero ↦ matched m ∷ (kept c ∷ pieces_from re zero (i + 1) (c ∷ done) rest)
        | suc skip ↦ matched m ∷ pieces_from re skip (i + 1) (c ∷ done) rest
      ]
    ]

unfoldable pub pieces : Re → Text → List Piece
unfolding pieces_from
pieces re src = pieces_from re zero 0 [] src

pub matches_of : List Piece → List Match
matches_of [] = []
matches_of (kept c ∷ ps) = matches_of ps
matches_of (matched m ∷ ps) = m ∷ matches_of ps

unfoldable pub replaced : (Match → Text) → List Piece → Text
replaced f [] = []
replaced f (kept c ∷ ps) = c ∷ replaced f ps
replaced f (matched m ∷ ps) = f m ++ replaced f ps

-- The matches of a loop of `re.exec(src)`.
unfoldable pub match_all : Re → Text → List Match
unfolding pieces matches_of
match_all re src = matches_of (pieces re src)

-- src.replace(re, f)
unfoldable pub replace_all : Re → (Match → Text) → Text → Text
unfolding pieces replaced
replace_all re f src = replaced f (pieces re src)

-- One step, of what the expression matches at its position.
abbrev pub pieces_step : Re → ℕ → Text → ℕ → Text → Option Match → List Piece
pieces_step re i done c rest m = elim m [
  | none ↦ kept c ∷ pieces_from re zero (i + 1) (c ∷ done) rest
  | some m ↦ elim (length m.whole) [
    | zero ↦ matched m ∷ (kept c ∷ pieces_from re zero (i + 1) (c ∷ done) rest)
    | suc skip ↦ matched m ∷ pieces_from re skip (i + 1) (c ∷ done) rest
  ]
]

pub pieces_from-step :
    (re : Re) (i : ℕ) (done : Text) (c : ℕ) (rest : Text)
    → pieces_from re 0 i done (c ∷ rest)
      ≡ pieces_step re i done c rest (match_at re i (record { done = done; rest = c ∷ rest }))
unfolding pieces_from
pieces_from-step re i done c rest = refl

abbrev pub pieces_end : Option Match → List Piece
pieces_end m = elim m [ none ↦ [] | some m ↦ matched m ∷ [] ]

pub pieces_from-end :
    (re : Re) (i : ℕ) (done : Text)
    → pieces_from re 0 i done [] ≡ pieces_end (match_at re i (record { done = done; rest = [] }))
unfolding pieces_from
pieces_from-end re i done = refl
