-- ===== src/Parser/Extraction.antt =====
-- `extractProperties` ends, and leaves no property behind.
use analisis_de_protocolo_de.Prelude.{
  ℕ, zero, suc, ◌+◌, ◌≤◌, ◌≡◌, refl, ap, none, some, length, take, drop, length-append,
  take-append-drop, length-drop, arith, Option-cases, inl, inr,
}
use analisis_de_protocolo_de.Prelude.Text.{Text}
use analisis_de_protocolo_de.Prelude.Dict.{Dict}
use analisis_de_protocolo_de.Regex.{Match, exec}
use analisis_de_protocolo_de.Regex.Lengths.{min_len}
use analisis_de_protocolo_de.Regex.Search.{exec-Splits, index-le-length}
use analisis_de_protocolo_de.Parser.{
  extract_properties, property_finder, extract_loop, cut, set_property,
}

min_len-property_finder : min_len property_finder ≡ 2
unfolding min_len property_finder
min_len-property_finder = refl

-- Every round cuts at least two code units off.
cut-le :
    (m : Match) (source : Text)
    → exec property_finder source ≡ some m
    → length (cut m source) + 2 ≤ length source
unfolding cut
cut-le m source h =
    let s = exec-Splits property_finder source m h in
    omega (
      arith,
      index-le-length property_finder source m s,
      s.long,
      min_len-property_finder,
      length-append (take m.index source) (drop (m.index + length m.whole) source),
      length-drop (m.index + length m.whole) source,
      length-drop m.index source,
      ap length (take-append-drop m.index source),
      length-append (take m.index source) (drop m.index source),
    )

extract_loop-done :
    (fuel : ℕ) (source : Text) (properties : Dict Text)
    → length source ≤ fuel
    → (exec property_finder (extract_loop fuel source properties).0 ≡ none)
      × (length (extract_loop fuel source properties).0 ≤ length source)
unfolding extract_loop
extract_loop-done zero source properties h = elim (Option-cases (exec property_finder source)) [
  | inl e ↦ (e, omega arith)
  | inr (m, e) ↦ absurd (omega (arith, cut-le m source e))
]
extract_loop-done (suc fuel) source properties h =
    elim (Option-cases (exec property_finder source)) [
      | inl e ↦ rw (e, extract_loop) (e, omega arith)
      | inr (m, e) ↦
          let shorter = cut-le m source e in
          let ih =
            extract_loop-done fuel (cut m source) (set_property m properties) (omega arith) in
          rw (e, extract_loop) (ih.0, omega arith)
    ]

-- `extractProperties` has found every property when it ends: the expression matches nothing in the
-- source that it returns, which is no longer than the one that it was given.
pub extract_properties-done :
    (source : Text) (properties : Dict Text)
    → (exec property_finder (extract_properties source properties).0 ≡ none)
      × (length (extract_properties source properties).0 ≤ length source)
unfolding extract_properties
extract_properties-done source properties =
    extract_loop-done (length source) source properties (omega arith)
