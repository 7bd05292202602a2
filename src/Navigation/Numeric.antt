-- ===== src/Navigation/Numeric.antt =====
-- Targets that are not NaN, and the index that each leads to.
use analisis_de_protocolo_de.Prelude.{
  ℕ, ◌≡◌, ◌≢◌, refl, sym, true, [], ◌∷◌, All, arith, Bool-cases, Option-cases, inl, inr,
}
use analisis_de_protocolo_de.Prelude.Text.{Text, codes, text_eq, text_eq_iff}
use analisis_de_protocolo_de.Prelude.Int.{ℤ, pos}
use analisis_de_protocolo_de.Prelude.Number.{
  Number, nan, int, plus_one, minus_one, parse_int, to_string,
}
use analisis_de_protocolo_de.Prelude.Dict.{get}
use analisis_de_protocolo_de.Slideshow.{Building}
use analisis_de_protocolo_de.Navigation.{
  Target, slide_no, slide_name, get_slide_index, get_slide_count, Command, goto, is_presenter_name,
  tail, is_digits, all_digits,
}
use analisis_de_protocolo_de.Navigation.Range.{Tracks, IsOnSlide, IsInRange}

pub int-ne-nan : (x : ℤ) → int x ≢ nan
int-ne-nan x e = cc

-- A text that starts with a digit is a number.
pub parse_int-digits : (t : Text) → is_digits t ≡ true → parse_int t ≢ nan
unfolding is_digits all_digits parse_int
parse_int-digits [] h e = cc
parse_int-digits (c ∷ s) h e = ground arith

pub minus_one-ne-nan : (i : Number) → i ≢ nan → minus_one i ≢ nan
minus_one-ne-nan nan h e = h refl
minus_one-ne-nan (int x) h e = cc

pub plus_one-ne-nan : (i : Number) → i ≢ nan → plus_one i ≢ nan
plus_one-ne-nan nan h e = h refl
plus_one-ne-nan (int x) h e = cc

-- A target that is not NaN, as a number or as a text.
abbrev pub IsNumeric : Target → Type 0
IsNumeric (slide_no n) = n ≢ nan
IsNumeric (slide_name t) = t ≢ codes "NaN"

is_presenter_name-tail : (t : Text) → is_presenter_name t ≡ true → is_digits (tail t) ≡ true
unfolding is_presenter_name
is_presenter_name-tail [] h = absurd (cc)
is_presenter_name-tail (c ∷ s) h = ground arith

to_string_nan : (i : Number) (t : Text) → text_eq (to_string i) t ≡ true → t ≢ codes "NaN" → i ≢ nan
unfolding to_string
to_string_nan nan t h p e = p (sym ((text_eq_iff (codes "NaN") t).0 h))
to_string_nan (int x) t h p e = int-ne-nan x e

pub get_slide_index-numeric :
    (slides : Building) (target : Target)
    → IsNumeric target
    → ((get_slide_index slides target).0 ≢ nan)
      × All (IsInRange (get_slide_count slides)) (get_slide_index slides target).1
      × ((j : Number) → Tracks j (get_slide_index slides target).1 j)
unfolding get_slide_index
get_slide_index-numeric slides (slide_no n) h = (minus_one-ne-nan n h, tt, λ j. refl)
get_slide_index-numeric slides (slide_name t) h =
    elim (Bool-cases (text_eq (to_string (parse_int t)) t)) [
      | inl e ↦
          rw e (minus_one-ne-nan (parse_int t) (to_string_nan (parse_int t) t e h), tt, λ j. refl)
      | inr e ↦ elim (Bool-cases (is_presenter_name t)) [
        | inl u ↦
            rw (e, u)
              (
                minus_one-ne-nan (parse_int (tail t))
                    (parse_int-digits (tail t) (is_presenter_name-tail t u)),
                (tt, tt),
                λ j. refl,
              )
        | inr u ↦ elim (Option-cases (get t slides.by_name)) [
          | inl w ↦ rw (e, u, w) (int-ne-nan (pos 0), tt, λ j. refl)
          | inr (s, w) ↦ rw (e, u, w) (int-ne-nan (pos s.index), tt, λ j. refl)
        ]
      ]
    ]

abbrev pub IsNumericCommand : Command → Type 0
IsNumericCommand (goto t no_message) = IsNumeric t
IsNumericCommand c = Unit

pub on_slide-ne-nan : (count : ℕ) (i : Number) → IsOnSlide count i → i ≢ nan
on_slide-ne-nan count nan h e = h
on_slide-ne-nan count (int x) h e = int-ne-nan x e
