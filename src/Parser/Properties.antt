-- ===== src/Parser/Properties.antt =====
-- `extractProperties`: the lines `name: value` at the start of a slide, and comments of that form.
use analisis_de_protocolo_de.Prelude.{
  ℕ, zero, suc, ◌+◌, Bool, true, false, ◌||◌, ◌&&◌, not, none, some, ◌++◌, ◌==◌, leb, length, take,
  drop,
}
use analisis_de_protocolo_de.Prelude.Text.{Text, codes, trim, is_space}
use analisis_de_protocolo_de.Prelude.Dict.{Dict, put}
use analisis_de_protocolo_de.Regex.{
  Re, Match, one, seq, or, group, star, start, plus, chr, lit, exec, or_empty,
}

-- [-\w]
abbrev name_unit : ℕ → Bool
name_unit c =
    (leb b'a' c && leb c b'z')
    || ((leb b'A' c && leb c b'Z') || ((leb b'0' c && leb c b'9') || (c == b'_' || c == b'-')))

-- [^$\n]
abbrev value_unit : ℕ → Bool
value_unit c = not (c == b'$' || c == 10)

-- /^\n*([-\w]+):([^$\n]*)|\n*(?:<!--\s*)([-\w]+):([^$\n]*?)(?:\s*-->)/i
unfoldable pub property_finder : Re
property_finder =
    or
      (seq start (
        seq (star true (chr 10)) (
          seq (group 1 (plus (one name_unit)))
            (seq (chr b':') (group 2 (star true (one value_unit)))))))
      (seq (star true (chr 10)) (
        seq (seq (lit (codes "<!--")) (star true (one is_space))) (
          seq (group 3 (plus (one name_unit))) (
            seq (chr b':') (
              seq (group 4 (star false (one value_unit)))
                (seq (star true (one is_space)) (lit (codes "-->"))))))))

-- The assignment to `properties`.
unfoldable pub set_property : Match → Dict Text → Dict Text
set_property m properties = elim (m.groups 1) [
  | some name ↦ put (trim name) (trim (or_empty (m.groups 2))) properties
  | none ↦ put (trim (or_empty (m.groups 3))) (trim (or_empty (m.groups 4))) properties
]

-- The source without the match.
unfoldable pub cut : Match → Text → Text
cut m source = take m.index source ++ drop (m.index + length m.whole) source

unfoldable pub extract_loop : ℕ → Text → Dict Text → Text × Dict Text
extract_loop zero source properties = (source, properties)
extract_loop (suc fuel) source properties = elim (exec property_finder source) [
  | none ↦ (source, properties)
  | some m ↦ extract_loop fuel (cut m source) (set_property m properties)
]

-- Every round cuts something off, so the length of the source is enough fuel.
unfoldable pub extract_properties : Text → Dict Text → Text × Dict Text
unfolding extract_loop set_property cut property_finder exec trim put
extract_properties source properties = extract_loop (length source) source properties
