-- ===== src/Prelude/Text.antt =====
-- JavaScript strings as lists of UTF-16 code units, with the string methods that remark calls.
use Prim.Native.Nat.{ℕ}
use Prim.Native.Char.{code}
use Prim.Native.String.{String}
use mathlib.Core.Path.{◌≡◌, refl}
use mathlib.Core.Logic.{◌↔◌}
use mathlib.Core.Bool.{Bool, true, false, ◌&&◌, ◌||◌}
use mathlib.Core.Option.{Option, none, some}
use mathlib.Core.List.{List, [], ◌∷◌, ◌++◌, reverse}
use native.Mathlib.Omega.{arith}
use analisis_de_protocolo_de.Prelude.Tests.{leb, ◌==◌, if◌then◌else◌}

abbrev pub Text : Type 0
Text = List ℕ

-- The code units of a literal (all literals of the source are ASCII).
abbrev pub codes : String → Text
codes String.[] = []
codes (String.◌∷◌ c s) = code c ∷ codes s

-- s === t
unfoldable pub text_eq : Text → Text → Bool
text_eq [] [] = true
text_eq [] (b ∷ t) = false
text_eq (a ∷ s) [] = false
text_eq (a ∷ s) (b ∷ t) = (a == b) && text_eq s t

pub text_eq_iff : (s t : Text) → (text_eq s t ≡ true) ↔ (s ≡ t)
unfolding text_eq
text_eq_iff [] [] = ground arith
text_eq_iff [] (b ∷ t) = ground arith
text_eq_iff (a ∷ s) [] = ground arith
text_eq_iff (a ∷ s) (b ∷ t) = ground (arith, text_eq_iff s t)

pub text_eq_refl : (s : Text) → text_eq s s ≡ true
text_eq_refl s = (text_eq_iff s s).1 refl

-- White space and line ends as `trim` and `\s` read them.
abbrev pub is_line_end : ℕ → Bool
is_line_end c = c == 10 || (c == 13 || (c == 0x2028 || c == 0x2029))

abbrev pub is_space : ℕ → Bool
is_space c =
    (leb 9 c && leb c 13)
    || (c == 32
        || (c == 160
            || (c == 0x1680
                || ((leb 0x2000 c && leb c 0x200a)
                    || (c == 0x2028
                        || (c == 0x2029
                            || (c == 0x202f || (c == 0x205f || (c == 0x3000 || c == 0xfeff)))))))))

unfoldable pub trim_start : Text → Text
trim_start [] = []
trim_start (c ∷ s) = let rest = trim_start s in if is_space c then rest else c ∷ s

-- s.trim()
unfoldable pub trim : Text → Text
unfolding trim_start
trim s = reverse (trim_start (reverse (trim_start s)))

-- s.split(sep) for a separator of one code unit: pieces in order, at least one.
unfoldable pub split_from : (ℕ → Bool) → Text → Text → List Text
split_from sep [] piece = reverse piece ∷ []
split_from sep (c ∷ s) piece =
    let piece_ends = reverse piece ∷ split_from sep s [] in
    let piece_goes_on = split_from sep s (c ∷ piece) in if sep c then piece_ends else piece_goes_on

unfoldable pub split : (ℕ → Bool) → Text → List Text
unfolding split_from
split sep s = split_from sep s []

-- xs.join(sep)
unfoldable pub join : Text → List Text → Text
join sep [] = []
join sep (x ∷ []) = x
join sep (x ∷ y ∷ ys) = x ++ (sep ++ join sep (y ∷ ys))

-- s.indexOf(c) !== -1 for one code unit
unfoldable pub contains : ℕ → Text → Bool
contains c [] = false
contains c (d ∷ s) = d == c || contains c s

-- xs.indexOf(x) !== -1
unfoldable pub includes : Text → List Text → Bool
includes x [] = false
includes x (y ∷ ys) = text_eq y x || includes x ys

-- whether the second text starts with the first
unfoldable pub starts_with : Text → Text → Bool
starts_with [] s = true
starts_with (c ∷ p) [] = false
starts_with (c ∷ p) (d ∷ s) = (c == d) && starts_with p s

-- `s || d`, where an absent value and the empty text are both falsy
abbrev pub or_default : Option Text → Text → Text
or_default none d = d
or_default (some []) d = d
or_default (some (c ∷ s)) d = c ∷ s

-- an optional text as a condition
abbrev pub truthy : Option Text → Bool
truthy none = false
truthy (some []) = false
truthy (some (c ∷ s)) = true

test_trim : trim (codes " a b ") ≡ codes "a b"
unfolding trim
test_trim = refl

test_split : split (λ c. c == b',') (codes "a,,b") ≡ codes "a" ∷ codes "" ∷ codes "b" ∷ []
unfolding split
test_split = refl
