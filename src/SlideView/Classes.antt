-- ===== src/SlideView/Classes.antt =====
-- The classes that a slide's content element has.
use analisis_de_protocolo_de.Prelude.{
  ℕ, ◌≡◌, refl, ap, ◌∙◌, Bool, true, false, not, ◌&&◌, ◌||◌, List, [], ◌∷◌, ◌++◌, sym, Bool-cases,
  inl, inr, append_assoc, append-nil, is_empty, if◌then◌else◌, ◌==◌, All, arith,
}
use analisis_de_protocolo_de.Prelude.Text.{
  Text, codes, text_eq, includes, contains, split, split_from, or_default,
}
use analisis_de_protocolo_de.Prelude.Dict.{Dict, get}
use analisis_de_protocolo_de.ClassList.{add_class, has_class, filled}
use analisis_de_protocolo_de.ClassList.Split.{IsClass, split_from-no_space, filled-IsClass}
use analisis_de_protocolo_de.ClassList.Laws.{has_class-changed}
use analisis_de_protocolo_de.SlideView.{
  is_class_end, add_classes, property_classes, set_class_from_properties,
}
use mathlib.Core.List.{reverse, reverse-cons}

is_class_end-space : (c : ℕ) → is_class_end c ≡ false → (c == 32) ≡ false
is_class_end-space c h = ground arith

property_classes-IsClass : (properties : Dict Text) → All IsClass (property_classes properties)
unfolding property_classes split
property_classes-IsClass properties =
    let value = or_default (get (codes "class") properties) [] in
    filled-IsClass (split_from is_class_end value [])
      (split_from-no_space is_class_end is_class_end-space value [] (unfold contains in refl))

has_class-add_classes :
    (cs : List Text) (class_name d : Text)
    → All IsClass cs
    → has_class (add_classes cs class_name) d ≡ (has_class class_name d || includes d cs)
unfolding add_classes includes
has_class-add_classes [] class_name d h = ground arith
has_class-add_classes (c ∷ cs) class_name d h =
    has_class-add_classes cs (add_class class_name c) d h.1
    ∙ ap (λ b. b || includes d cs) (has_class-changed class_name c d h.0).0
    ∙ or_assoc (has_class class_name d) (text_eq c d) (includes d cs)
  where
    or_assoc : (a b c : Bool) → ((a || b) || c) ≡ (a || (b || c))
    or_assoc a b c = ground arith

-- A comma or a space.
unfoldable pub is_gap : ℕ → Bool
is_gap c = (c == 44) || (c == 32)

-- Whether a text begins with a piece, behind which there is a comma, a space or its end.
unfoldable pub begins_with_piece : Text → Text → Bool
unfolding is_gap
begins_with_piece [] [] = true
begins_with_piece [] (c ∷ s) = is_gap c
begins_with_piece (x ∷ d) [] = false
begins_with_piece (x ∷ d) (c ∷ s) = (c == x) && (not (is_gap c) && begins_with_piece d s)

-- Whether it has the piece behind a comma or a space.
unfoldable pub has_later_piece : Text → Text → Bool
unfolding begins_with_piece
has_later_piece d [] = false
has_later_piece d (c ∷ s) = (is_gap c && begins_with_piece d s) || has_later_piece d s

-- Whether it has the piece, which is not empty, between commas, spaces and its two ends.
unfoldable pub has_piece : Text → Text → Bool
unfolding begins_with_piece has_later_piece
has_piece d s = not (is_empty d) && (begins_with_piece d s || has_later_piece d s)

first_piece : Text → Text
first_piece [] = []
first_piece (c ∷ s) = if is_class_end c then [] else c ∷ first_piece s

later_pieces : Text → List Text
unfolding first_piece
later_pieces [] = []
later_pieces (c ∷ s) =
    let rest = later_pieces s in if is_class_end c then first_piece s ∷ rest else rest

split_from-pieces :
    (s piece : Text)
    → split_from is_class_end s piece ≡ (reverse piece ++ first_piece s) ∷ later_pieces s
unfolding split_from first_piece later_pieces
split_from-pieces [] piece = ap (λ (t : Text). t ∷ []) (sym (append-nil (reverse piece)))
split_from-pieces (c ∷ s) piece = elim (Bool-cases (is_class_end c)) [
  | inl u ↦ rw (u, append-nil (reverse piece)) (ap (reverse piece ∷◌) (split_from-pieces s []))
  | inr u ↦ rw u (
      split_from-pieces s (c ∷ piece)
      ∙ rw (reverse-cons c piece, append_assoc (reverse piece) (c ∷ []) (first_piece s)) refl)
]

is_gap-is_class_end : (c : ℕ) → is_class_end c ≡ is_gap c
unfolding is_gap
is_gap-is_class_end c = refl

text_eq-first_piece : (d s : Text) → text_eq (first_piece s) d ≡ begins_with_piece d s
unfolding text_eq first_piece begins_with_piece
text_eq-first_piece [] [] = refl
text_eq-first_piece (x ∷ d) [] = refl
text_eq-first_piece [] (c ∷ s) = elim (Bool-cases (is_gap c)) [
  | inl u ↦ rw (is_gap-is_class_end c, u) refl
  | inr u ↦ rw (is_gap-is_class_end c, u) refl
]
text_eq-first_piece (x ∷ d) (c ∷ s) = elim (Bool-cases (is_gap c)) [
  | inl u ↦ rw (is_gap-is_class_end c, u) (ground arith)
  | inr u ↦ rw (is_gap-is_class_end c, u, text_eq-first_piece d s) (ground arith)
]

-- Of the pieces that are not empty.
includes-filled :
    (d x : Text) (xs : List Text)
    → includes d (filled (x ∷ xs)) ≡ ((not (is_empty d) && text_eq x d) || includes d (filled xs))
unfolding includes filled text_eq
includes-filled [] [] xs = refl
includes-filled (y ∷ d) [] xs = refl
includes-filled [] (c ∷ x) xs = refl
includes-filled (y ∷ d) (c ∷ x) xs = refl

includes-later_pieces :
    (d s : Text) → includes d (filled (later_pieces s)) ≡ (not (is_empty d) && has_later_piece d s)
unfolding later_pieces has_later_piece
includes-later_pieces d [] = unfold includes filled in ground arith
includes-later_pieces d (c ∷ s) = elim (Bool-cases (is_gap c)) [
  | inl u ↦
      rw
        (
          is_gap-is_class_end c,
          u,
          includes-filled d (first_piece s) (later_pieces s),
          text_eq-first_piece d s,
          includes-later_pieces d s,
        )
        (ground arith)
  | inr u ↦ rw (is_gap-is_class_end c, u, includes-later_pieces d s) (ground arith)
]

includes-property_classes :
    (properties : Dict Text) (d : Text)
    → includes d (property_classes properties)
      ≡ has_piece d (or_default (get (codes "class") properties) [])
unfolding property_classes split has_piece
includes-property_classes properties d =
    let value = or_default (get (codes "class") properties) [] in
    rw
      (
        split_from-pieces value [],
        includes-filled d (first_piece value) (later_pieces value),
        text_eq-first_piece d value,
        includes-later_pieces d value,
      )
      (ground arith)

-- The content element of a slide has, besides the classes that it had, exactly remark-slide-content
-- and the pieces of the property class, those that are not empty between commas, spaces and its ends.
pub has_class-set_class_from_properties :
    (properties : Dict Text) (class_name d : Text)
    → has_class (set_class_from_properties properties class_name) d ≡ (
        (has_class class_name d || text_eq (codes "remark-slide-content") d)
        || has_piece d (or_default (get (codes "class") properties) []))
unfolding set_class_from_properties
has_class-set_class_from_properties properties class_name d =
    let base = codes "remark-slide-content" in
    has_class-add_classes (property_classes properties) (add_class class_name base) d
      (property_classes-IsClass properties)
    ∙ ap (λ b. b || includes d (property_classes properties))
        (has_class-changed class_name base d
          (record { some_unit = refl; no_space = unfold contains in refl })).0
    ∙ ap (λ b. (has_class class_name d || text_eq base d) || b)
        (includes-property_classes properties d)
