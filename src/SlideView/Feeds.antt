-- ===== src/SlideView/Feeds.antt =====
-- The lines of a text, counted by its line feeds, while they are marked and wrapped.
use analisis_de_protocolo_de.Prelude.{
  ℕ, suc, ◌+◌, ◌≤◌, ◌≡◌, refl, ap, ◌∙◌, ◌&&◌, List, [], ◌∷◌, ◌++◌, ◌==◌, All, arith, map, length,
  length-map, if◌then◌else◌, Bool-cases, inl, inr,
}
use mathlib.Core.List.{reverse, reverse-append}
use analisis_de_protocolo_de.Prelude.Text.{Text, join}
use analisis_de_protocolo_de.SlideView.Code.{
  split_lines, split_lines_from, is_marked, unmark, mark_lines, extract_metadata, wrap_line,
  wrap_lines, drop_empty_last,
}

-- How many line feeds a text has.
abbrev pub feeds : Text → ℕ
feeds [] = 0
feeds (c ∷ s) = if c == 10 then suc (feeds s) else feeds s

feeds-append : (s t : Text) → feeds (s ++ t) ≡ feeds s + feeds t
feeds-append [] t = omega arith
feeds-append (c ∷ s) t = elim (Bool-cases (c == 10)) [
  | inl u ↦ rw u (omega (arith, feeds-append s t))
  | inr u ↦ rw u (feeds-append s t)
]

feeds-reverse : (s : Text) → feeds (reverse s) ≡ feeds s
feeds-reverse [] = refl
feeds-reverse (c ∷ s) =
    ap feeds (reverse-append (c ∷ []) s)
    ∙ feeds-append (reverse s) (c ∷ [])
    ∙ (elim (Bool-cases (c == 10)) [
      | inl u ↦ rw u (omega (arith, feeds-reverse s))
      | inr u ↦ rw u (omega (arith, feeds-reverse s))
    ])

-- A text has one line more than line feeds.
length-split_lines_from : (s line : Text) → length (split_lines_from s line) ≡ feeds s + 1
unfolding split_lines_from
length-split_lines_from [] line = refl
length-split_lines_from (c ∷ []) line = elim (Bool-cases (c == 10)) [
  | inl u ↦ rw u (omega arith)
  | inr u ↦ rw u (omega arith)
]
length-split_lines_from (c ∷ (d ∷ s)) line = elim (Bool-cases (c == 10)) [
  | inl u ↦ rw u (omega (arith, length-split_lines_from (d ∷ s) []))
  | inr u ↦ elim (Bool-cases (c == 13)) [
    | inl v ↦ elim (Bool-cases (d == 10)) [
      | inl w ↦ rw (u, v, w) (omega (arith, length-split_lines_from s []))
      | inr w ↦ rw (u, v, w) (length-split_lines_from (d ∷ s) (c ∷ line) ∙ rw w refl)
    ]
    | inr v ↦ rw (u, v) (length-split_lines_from (d ∷ s) (c ∷ line))
  ]
]

-- No line has a line feed.
split_lines_from-one_line :
    (s line : Text) → feeds line ≡ 0 → All (λ t. feeds t ≡ 0) (split_lines_from s line)
unfolding split_lines_from
split_lines_from-one_line [] line h = (feeds-reverse line ∙ h, tt)
split_lines_from-one_line (c ∷ []) line h = elim (Bool-cases (c == 10)) [
  | inl u ↦ rw u (feeds-reverse line ∙ h, (refl, tt))
  | inr u ↦ rw u (feeds-reverse (c ∷ line) ∙ rw u h, tt)
]
split_lines_from-one_line (c ∷ (d ∷ s)) line h = elim (Bool-cases (c == 10)) [
  | inl u ↦ rw u (feeds-reverse line ∙ h, split_lines_from-one_line (d ∷ s) [] refl)
  | inr u ↦ elim (Bool-cases ((c == 13) && (d == 10))) [
    | inl v ↦ rw (u, v) (feeds-reverse line ∙ h, split_lines_from-one_line s [] refl)
    | inr v ↦ rw (u, v) (split_lines_from-one_line (d ∷ s) (c ∷ line) (rw u h))
  ]
]

feeds-unmark : (s : Text) → feeds s ≡ 0 → feeds (unmark s) ≡ 0
unfolding unmark
feeds-unmark [] h = refl
feeds-unmark (m ∷ []) h = refl
feeds-unmark (m ∷ (c ∷ s)) h = ground arith

one_line-mark_lines :
    (k : ℕ) (ls : List Text)
    → All (λ t. feeds t ≡ 0) ls
    → All (λ t. feeds t ≡ 0) (mark_lines k ls).0
unfolding mark_lines
one_line-mark_lines k [] h = tt
one_line-mark_lines k (l ∷ ls) h = elim (Bool-cases (is_marked l)) [
  | inl u ↦ rw u (feeds-unmark l h.0, one_line-mark_lines (k + 1) ls h.1)
  | inr u ↦ rw u (h.0, one_line-mark_lines (k + 1) ls h.1)
]

length-mark_lines : (k : ℕ) (ls : List Text) → length (mark_lines k ls).0 ≡ length ls
unfolding mark_lines
length-mark_lines k [] = refl
length-mark_lines k (l ∷ ls) = elim (Bool-cases (is_marked l)) [
  | inl u ↦ rw u (ap suc (length-mark_lines (k + 1) ls))
  | inr u ↦ rw u (ap suc (length-mark_lines (k + 1) ls))
]

feeds-join :
    (x : Text) (xs : List Text)
    → All (λ t. feeds t ≡ 0) (x ∷ xs)
    → feeds (join (10 ∷ []) (x ∷ xs)) ≡ length xs
unfolding join
feeds-join x [] h = h.0
feeds-join x (y ∷ ys) h =
    feeds-append x (10 ∷ join (10 ∷ []) (y ∷ ys)) ∙ omega (arith, h.0, feeds-join y ys h.1)

length-split_lines-join :
    (xs : List Text)
    → All (λ t. feeds t ≡ 0) xs
    → 1 ≤ length xs
    → length (split_lines (join (10 ∷ []) xs)) ≡ length xs
unfolding split_lines
length-split_lines-join [] h p = absurd (omega arith)
length-split_lines-join (x ∷ xs) h p =
    length-split_lines_from (join (10 ∷ []) (x ∷ xs)) [] ∙ omega (arith, feeds-join x xs h)

-- Taking the marks away keeps the number of lines.
pub length-extract_metadata :
    (html : Text) → length (split_lines (extract_metadata html).0) ≡ length (split_lines html)
unfolding extract_metadata split_lines
length-extract_metadata html =
    let ls = split_lines_from html [] in
    length-split_lines-join (mark_lines 0 ls).0
      (one_line-mark_lines 0 ls (split_lines_from-one_line html [] refl))
      (omega (arith, length-mark_lines 0 ls, length-split_lines_from html []))
    ∙ length-mark_lines 0 ls

-- At most the last line is dropped.
pub length-wrap_lines-ge : (html : Text) → length (split_lines html) ≤ length (wrap_lines html) + 1
unfolding wrap_lines drop_empty_last
length-wrap_lines-ge html = omega (
  arith,
  length-map (split_lines html) wrap_line,
  length-drop_empty_last (map wrap_line (split_lines html)),
)
  where
    length-drop_empty_last : (xs : List Text) → length xs ≤ length (drop_empty_last xs) + 1
    length-drop_empty_last [] = omega arith
    length-drop_empty_last (x ∷ []) = ground arith
    length-drop_empty_last (x ∷ (y ∷ xs)) = omega (arith, length-drop_empty_last (y ∷ xs))
