-- ===== src/Prelude/Number.antt =====
-- The numbers that navigation computes with: whole numbers (exact, as doubles are below 2 ^ 53) and
-- NaN, with `parseInt( , 10)` and `toString`.
use Prim.Native.Nat.{ℕ, zero, suc, ◌+◌, ◌-◌, ◌*◌, ◌/◌, ◌%◌}
use mathlib.Core.Bool.{Bool, false, ◌&&◌}
use mathlib.Core.List.{[], ◌∷◌, ◌++◌}
use analisis_de_protocolo_de.Prelude.Tests.{leb, ltb, ◌==◌, if◌then◌else◌}
use analisis_de_protocolo_de.Prelude.Text.{Text, codes, is_space}
use analisis_de_protocolo_de.Prelude.Int.{ℤ, pos, negsuc, succ, pred, neg, eqb}

pub data Number : Type 0 where
  nan : Number
  int : ℤ → Number

abbrev pub plus_one : Number → Number
plus_one nan = nan
plus_one (int x) = int (succ x)

abbrev pub minus_one : Number → Number
minus_one nan = nan
minus_one (int x) = int (pred x)

-- a === b
abbrev pub is_same : Number → Number → Bool
is_same nan b = false
is_same (int x) nan = false
is_same (int x) (int y) = eqb x y

abbrev pub is_digit : ℕ → Bool
is_digit c = leb b'0' c && leb c b'9'

-- The value of the leading digits, after those of `value`.
unfoldable pub digits_value : ℕ → Text → ℕ
digits_value value [] = value
digits_value value (c ∷ s) =
    let further = digits_value (value * 10 + (c - b'0')) s in if is_digit c then further else value

abbrev starts_with_digit : Text → Bool
starts_with_digit [] = false
starts_with_digit (c ∷ s) = is_digit c

unfoldable pub unsigned : Text → Number
unsigned s = if starts_with_digit s then int (pos (digits_value 0 s)) else nan

abbrev negated : Number → Number
negated nan = nan
negated (int x) = int (neg x)

-- parseInt(s, 10)
unfoldable pub parse_int : Text → Number
unfolding digits_value unsigned
parse_int [] = nan
parse_int (c ∷ s) =
    let skipped = parse_int s in
    if is_space c
    then skipped
    else if c == b'-'
    then negated (unsigned s)
    else if c == b'+'
    then unsigned s
    else unsigned (c ∷ s)

-- The decimal digits of a number below 10 ^ fuel.
unfoldable pub decimal_digits : ℕ → ℕ → Text
decimal_digits zero n = []
decimal_digits (suc fuel) n =
    let front = decimal_digits fuel (n / 10) in
    if ltb n 10 then (b'0' + n) ∷ [] else front ++ (b'0' + n % 10) ∷ []

unfoldable pub decimal : ℕ → Text
unfolding decimal_digits
decimal n = decimal_digits (suc n) n

-- n.toString()
unfoldable pub to_string : Number → Text
unfolding decimal
to_string nan = codes "NaN"
to_string (int (pos n)) = decimal n
to_string (int (negsuc n)) = b'-' ∷ decimal (n + 1)
