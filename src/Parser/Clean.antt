-- ===== src/Parser/Clean.antt =====
-- `cleanInput`: the indentation that all lines share is cut off.
use analisis_de_protocolo_de.Prelude.{
  ℕ, zero, suc, true, ◌||◌, not, List, [], ◌∷◌, map, ◌==◌, length,
}
use analisis_de_protocolo_de.Prelude.Text.{Text}
use analisis_de_protocolo_de.Regex.{Re, eps, one, seq, group, star, line_start, opt, or_empty}
use analisis_de_protocolo_de.Regex.Global.{match_all, replace_all}
use Prim.Native.Nat.{min}

abbrev blank : Re
blank = one (λ c. c == b' ' || c == 9)

-- /^([ \t]*)[^ \t\n]/gm
unfoldable pub leading_whitespace_re : Re
leading_whitespace_re =
    seq line_start
      (seq (group 1 (star true blank)) (one (λ c. not (c == b' ' || (c == 9 || c == 10)))))

abbrev up_to : ℕ → Re → Re
up_to zero a = eps
up_to (suc n) a = opt (seq a (up_to n a))

-- '^[ \\t]{0,' + minWhitespace + '}' with the flags gm
pub trim_whitespace_re : ℕ → Re
trim_whitespace_re n = seq line_start (up_to n blank)

-- Math.min.apply(Math, whitespace), where there is one
pub minimum : ℕ → List ℕ → ℕ
minimum n [] = n
minimum n (m ∷ ms) = minimum (min n m) ms

-- Without a line that is not blank the minimum is Infinity, and the expression made of it matches
-- nothing.
pub trim_lines : List ℕ → Text → Text
unfolding replace_all
trim_lines [] src = src
trim_lines (n ∷ ns) src = replace_all (trim_whitespace_re (minimum n ns)) (λ _. []) src

unfoldable pub clean_input : Text → Text
unfolding leading_whitespace_re trim_whitespace_re minimum trim_lines match_all replace_all
clean_input src =
    trim_lines (map (λ m. length (or_empty (m.groups 1))) (match_all leading_whitespace_re src)) src
