-- ===== src/View/Showing.antt =====
-- Which views show and fade, and what showing and hiding one does to that.
use analisis_de_protocolo_de.Prelude.{
  ℕ, suc, ◌<◌, ◌≡◌, refl, sym, ◌∙◌, Bool, true, false, none, List, if◌then◌else◌, length, get_elem?,
  get_elem?-lt, ◌==◌, ==_iff, arith, Bool-cases, inl, inr,
}
use analisis_de_protocolo_de.Prelude.Text.{Text}
use analisis_de_protocolo_de.Prelude.Int.{pos, negsuc}
use analisis_de_protocolo_de.Prelude.Number.{Number, nan, int}
use analisis_de_protocolo_de.Prelude.Result.{ok, err, type_error}
use analisis_de_protocolo_de.View.{
  View, visible, fading, show_view, hide_view, end_each_fading, update_at, change_view,
  show_slide_view, hide_slide_view, on_hide_slide,
}
use analisis_de_protocolo_de.View.Changes.{
  class_at, length-update_at, length-end_each_fading, visible_at-show, fading_at-show,
  visible_at-hide, fading_at-hide,
}

abbrev is_at : Number → ℕ → Bool
is_at nan j = false
is_at (int (pos n)) j = n == j
is_at (int (negsuc n)) j = false

-- There is a view for each slide, exactly that of the index is visible, and at most one is fading.
pub record IsShowing (count : ℕ) (i : Number) (v : View) : Type 0 where
  pub sized : length v.slide_views ≡ count
  pub showing : (j : ℕ) → class_at visible j v.slide_views ≡ is_at i j
  pub one_fades : (h : ℕ) × ((j : ℕ) → class_at fading j v.slide_views ≡ true → h ≡ j)

change_view_lem :
    (n : ℕ) (f : Text → Text) (cs : List Text)
    → n < length cs
    → change_view (int (pos n)) f cs ≡ ok (update_at n f cs)
unfolding change_view
change_view_lem n f cs h = let (c, e) = get_elem?-lt cs n h in rw (e, change_view) refl

pub change_view-none :
    (n : ℕ) (f : Text → Text) (cs : List Text)
    → get_elem? cs n ≡ none
    → change_view (int (pos n)) f cs ≡ err type_error
unfolding change_view
change_view-none n f cs h = rw (h, change_view) refl

pub show-IsShowing :
    (count n : ℕ) (v : View)
    → n < count
    → IsShowing count (int (negsuc 0)) v
    → (v' : View) × (show_slide_view (int (pos n)) v ≡ ok v') × IsShowing count (int (pos n)) v'
unfolding show_slide_view
show-IsShowing count n v l s =
    let cs = v.slide_views in
    let l' : n < length cs = omega (arith, s.sized) in
    (
      record v {
        slide_views = update_at n show_view cs;
        preview = get_elem? (update_at n show_view cs) (suc n);
      },
      rw (change_view_lem n show_view cs l') refl,
      record {
        sized = length-update_at n show_view cs ∙ s.sized;
        showing = λ j. visible_at-show n j cs l' ∙ shown_there j;
        one_fades = (
          s.one_fades.0,
          λ j h. s.one_fades.1 j (was_fading j (sym (fading_at-show n j cs l') ∙ h)),
        );
      },
    )
  where
    shown_there : (j : ℕ) → (if n == j then true else class_at visible j v.slide_views) ≡ (n == j)
    shown_there j = elim (Bool-cases (n == j)) [ inl u ↦ rw u refl | inr u ↦ rw u (s.showing j) ]

    was_fading :
        (j : ℕ)
        → (if n == j then false else class_at fading j v.slide_views) ≡ true
        → class_at fading j v.slide_views ≡ true
    was_fading j h = elim (Bool-cases (n == j)) [
      | inl u ↦ absurd (cc (rw u at h))
      | inr u ↦ rw u at h
    ]

pub hide-IsShowing :
    (count n : ℕ) (v : View)
    → n < count
    → IsShowing count (int (pos n)) v
    → (v' : View) × (on_hide_slide (int (pos n)) v ≡ ok v') × IsShowing count (int (negsuc 0)) v'
unfolding on_hide_slide hide_slide_view
hide-IsShowing count n v l s =
    let cs = v.slide_views in
    let l' : n < length (end_each_fading true cs) =
      omega (arith, s.sized, length-end_each_fading true cs) in
    (
      record v { slide_views = update_at n hide_view (end_each_fading true cs) },
      rw (change_view_lem n hide_view (end_each_fading true cs) l') refl,
      record {
        sized =
            length-update_at n hide_view (end_each_fading true cs)
            ∙ length-end_each_fading true cs
            ∙ s.sized;
        showing = λ j. visible_at-hide n j cs l' ∙ hidden_there j;
        one_fades = (
          n,
          λ j h. (==_iff n j).0 (sym (fading_at-hide n j cs s.one_fades.0 s.one_fades.1 l') ∙ h),
        );
      },
    )
  where
    hidden_there : (j : ℕ) → (if n == j then false else class_at visible j v.slide_views) ≡ false
    hidden_there j = elim (Bool-cases (n == j)) [
      | inl u ↦ rw u refl
      | inr u ↦ rw u (s.showing j ∙ u)
    ]
