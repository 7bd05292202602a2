-- ===== src/ClassList/Split.antt =====
-- That the classes of an element are read back from its `className`.
use analisis_de_protocolo_de.Prelude.{
  ℕ, ◌≡◌, refl, ap, sym, ◌∙◌, Bool, false, ◌||◌, List, [], ◌∷◌, ◌++◌, ◌==◌, is_empty, All, arith,
  Bool-cases, inl, inr, append_assoc, append-nil,
}
use analisis_de_protocolo_de.Prelude.Text.{Text, codes, split, split_from, join, contains}
use mathlib.Core.List.{reverse, reverse-append}
use analisis_de_protocolo_de.ClassList.{filled, get_classes}

abbrev is_blank : ℕ → Bool
is_blank c = c == 32

-- A name that `className` can hold as one class.
pub record IsClass (name : Text) : Type 0 where
  pub some_unit : is_empty name ≡ false
  pub no_space : contains 32 name ≡ false

contains-append : (c : ℕ) (s t : Text) → contains c (s ++ t) ≡ (contains c s || contains c t)
unfolding contains
contains-append c [] t = refl
contains-append c (d ∷ s) t = ground (arith, contains-append c s t)

contains-reverse : (c : ℕ) (s : Text) → contains c (reverse s) ≡ contains c s
unfolding contains
contains-reverse c [] = refl
contains-reverse c (d ∷ s) =
    ap (contains c) (reverse-append (d ∷ []) s)
    ∙ contains-append c (reverse s) (d ∷ [])
    ∙ ground (arith, contains-reverse c s)

-- The pieces have no space, where a space ends one.
pub split_from-no_space :
    (ends : ℕ → Bool) (at_space : (c : ℕ) → ends c ≡ false → (c == 32) ≡ false) (s piece : Text)
    → contains 32 piece ≡ false
    → All (λ t. contains 32 t ≡ false) (split_from ends s piece)
unfolding split_from
split_from-no_space ends at_space [] piece h = (contains-reverse 32 piece ∙ h, tt)
split_from-no_space ends at_space (c ∷ s) piece h = elim (Bool-cases (ends c)) [
  | inl u ↦ rw u (
    contains-reverse 32 piece ∙ h,
    split_from-no_space ends at_space s [] (unfold contains in refl),
  )
  | inr u ↦ rw u (
      split_from-no_space ends at_space s (c ∷ piece)
        (unfold contains in rw (at_space c u, h) refl))
]

pub filled-IsClass :
    (xs : List Text) → All (λ t. contains 32 t ≡ false) xs → All IsClass (filled xs)
unfolding filled
filled-IsClass [] h = tt
filled-IsClass (x ∷ xs) h = elim (Bool-cases (is_empty x)) [
  | inl u ↦ rw u (filled-IsClass xs h.1)
  | inr u ↦ rw u (record { some_unit = u; no_space = h.0 }, filled-IsClass xs h.1)
]

pub get_classes-IsClass : (class_name : Text) → All IsClass (get_classes class_name)
unfolding get_classes split
get_classes-IsClass class_name =
    filled-IsClass (split_from is_blank class_name [])
      (split_from-no_space is_blank (λ c u. u) class_name [] (unfold contains in refl))

reverse-cons_append : (c : ℕ) (piece t : Text) → reverse (c ∷ piece) ++ t ≡ reverse piece ++ c ∷ t
reverse-cons_append c piece t =
    ap (λ r. r ++ t) (reverse-append (c ∷ []) piece) ∙ append_assoc (reverse piece) (c ∷ []) t

split_from-name :
    (name piece : Text)
    → contains 32 name ≡ false
    → split_from is_blank name piece ≡ (reverse piece ++ name) ∷ []
unfolding split_from contains
split_from-name [] piece h = ap (λ t. t ∷ []) (sym (append-nil (reverse piece)))
split_from-name (c ∷ name) piece h = elim (Bool-cases (c == 32)) [
  | inl u ↦ absurd (cc (rw u at h))
  | inr u ↦
      let h' = h in
      rw u (
        split_from-name name (c ∷ piece) (rw u at h')
        ∙ ap (λ t. t ∷ []) (reverse-cons_append c piece name))
]

split_from-name_space :
    (name rest piece : Text)
    → contains 32 name ≡ false
    → split_from is_blank (name ++ 32 ∷ rest) piece
      ≡ (reverse piece ++ name) ∷ split_from is_blank rest []
unfolding split_from contains
split_from-name_space [] rest piece h =
    ap (λ t. t ∷ split_from is_blank rest []) (sym (append-nil (reverse piece)))
split_from-name_space (c ∷ name) rest piece h = elim (Bool-cases (c == 32)) [
  | inl u ↦ absurd (cc (rw u at h))
  | inr u ↦
      let h' = h in
      rw u (
        split_from-name_space name rest (c ∷ piece) (rw u at h')
        ∙ ap (λ t. t ∷ split_from is_blank rest []) (reverse-cons_append c piece name))
]

-- Names that are joined by spaces are read back.
pub get_classes-join : (xs : List Text) → All IsClass xs → get_classes (join (codes " ") xs) ≡ xs
unfolding get_classes split join filled split_from
get_classes-join [] h = refl
get_classes-join (x ∷ []) h =
    let n = h.0.some_unit in rw (split_from-name x [] h.0.no_space, n) refl
get_classes-join (x ∷ (y ∷ ys)) h =
    let n = h.0.some_unit in
    rw (split_from-name_space x (join (codes " ") (y ∷ ys)) [] h.0.no_space, n)
      (ap (x ∷◌) (get_classes-join (y ∷ ys) h.1))
