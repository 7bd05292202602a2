-- ===== src/Slideshow/Numbers.antt =====
-- Indices and numbers of the slides: what `getSlideIndex`, `getSlideNumber` and `byNumber` say.
use analisis_de_protocolo_de.Prelude.{
  ℕ, zero, suc, ◌+◌, ◌≤◌, ◌<◌, ◌≡◌, refl, ◌∙◌, false, ◌&&◌, none, some, List, [], ◌∷◌, ◌++◌, ◌==◌,
  leb, if◌then◌else◌, length, get_elem?, All, All-append, arith, eq_of_some, is_empty, append-nil,
}
use analisis_de_protocolo_de.Parser.{ParsedSlide}
use analisis_de_protocolo_de.Slide.{Slide}
use analisis_de_protocolo_de.Slideshow.{
  Building, SlideOptions, get_number, put_number, push_slide, add_slide, add_slides, create_slides,
  no_slides,
}
use analisis_de_protocolo_de.Slideshow.Rounds.{
  Grown, same, pushed, counted, add_slide-Grown, get_number-put_number,
}

-- The slides with a number, in order.
unfoldable pub numbered : ℕ → List Slide → List Slide
numbered n [] = []
numbered n (s ∷ ss) = if s.number == n then s ∷ numbered n ss else numbered n ss

numbered-append :
    (n : ℕ) (ss : List Slide) (v : Slide)
    → numbered n (ss ++ v ∷ []) ≡ numbered n ss ++ (if v.number == n then v ∷ [] else [])
unfolding numbered
numbered-append n [] v = refl
numbered-append n (s ∷ ss) v = ground (arith, numbered-append n ss v)

-- No slide has a number above the bound.
numbered-above :
    (n k : ℕ) (ss : List Slide) → All (λ s. s.number ≤ k) ss → k < n → numbered n ss ≡ []
unfolding numbered
numbered-above n k [] h p = refl
numbered-above n k (s ∷ ss) h p = ground (arith, numbered-above n k ss h.1 p, h.0)

-- What holds between the rounds: a slide's index is its place; `byNumber` has exactly the numbers
-- from 1 up to the last, each with the slides of that number, in order, and at least one.
pub record IsNumbered (slides : List Slide) (by_number : List (ℕ × List Slide)) (last : ℕ)
    : Type 0 where
  pub indexed : (k : ℕ) (s : Slide) → get_elem? slides k ≡ some s → s.index ≡ k
  pub by_number_is :
      (n : ℕ)
      → get_number n by_number ≡ (if leb 1 n && leb n last then some (numbered n slides) else none)
  pub at_most : All (λ s. s.number ≤ last) slides
  pub filled : (n : ℕ) → 1 ≤ n → n ≤ last → is_empty (numbered n slides) ≡ false

indexed-append :
    (ss : List Slide) (v : Slide) (j : ℕ)
    → ((k : ℕ) (s : Slide) → get_elem? ss k ≡ some s → s.index ≡ j + k)
    → v.index ≡ j + length ss
    → (k : ℕ) (s : Slide) → get_elem? (ss ++ v ∷ []) k ≡ some s
    → s.index ≡ j + k
indexed-append [] v j h e zero s u = rw (← eq_of_some u) e
indexed-append [] v j h e (suc k) s u = absurd (cc)
indexed-append (x ∷ ss) v j h e zero s u = h zero s u
indexed-append (x ∷ ss) v j h e (suc k) s u =
    indexed-append ss v (suc j) (λ i t w. h (suc i) t w ∙ omega arith) (e ∙ omega arith) k s u
    ∙ omega arith

All-le :
    (k k' : ℕ) (ss : List Slide) → k ≤ k' → All (λ s. s.number ≤ k) ss → All (λ s. s.number ≤ k') ss
All-le k k' [] p h = tt
All-le k k' (s ∷ ss) p h = (omega (arith, h.0), All-le k k' ss p h.1)

is_empty-append {ℓ} :
    {A : Type ℓ} (xs ys : List A) → is_empty xs ≡ false → is_empty (xs ++ ys) ≡ false
is_empty-append [] ys h = absurd (cc)
is_empty-append (x ∷ xs) ys h = refl

module _ (b : Building) (h : IsNumbered b.slides b.by_number b.slide_number) (v : Slide)
    (index : v.index ≡ length b.slides) where
  abbrev ss : List Slide
  ss = b.slides

  abbrev last : ℕ
  last = b.slide_number

  -- a slide with the last number
  pushed-IsNumbered : v.number ≡ last → IsNumbered (ss ++ v ∷ []) (push_slide v b).by_number last
  pushed-IsNumbered n = record {
    indexed = λ k s u.
        indexed-append ss v 0 (λ j t w. h.indexed j t w ∙ omega arith) (index ∙ omega arith) k s u
        ∙ omega arith;
    by_number_is = λ k.
        unfold push_slide in
        ground (
          arith,
          n,
          get_number-put_number k last (numbered last ss ++ v ∷ []) b.by_number,
          numbered-append k ss v,
          append-nil (numbered k ss),
          h.by_number_is k,
          h.by_number_is last,
        );
    at_most = All-append _ ss (v ∷ []) h.at_most (omega (arith, n), tt);
    filled = λ k p q. rw numbered-append (is_empty-append (numbered k ss) _ (h.filled k p q));
  }

  -- a slide with the next number
  counted-IsNumbered :
      v.number ≡ last + 1
      → IsNumbered
          (ss ++ v ∷ [])
          (put_number (last + 1) ([] ++ v ∷ []) (put_number (last + 1) [] b.by_number))
          (last + 1)
  counted-IsNumbered n = record {
    indexed = λ k s u.
        indexed-append ss v 0 (λ j t w. h.indexed j t w ∙ omega arith) (index ∙ omega arith) k s u
        ∙ omega arith;
    by_number_is = λ k. ground (
      arith,
      n,
      get_number-put_number k (last + 1) (v ∷ []) (put_number (last + 1) [] b.by_number),
      get_number-put_number k (last + 1) [] b.by_number,
      numbered-append k ss v,
      append-nil (numbered k ss),
      numbered-above (last + 1) last ss h.at_most,
      h.by_number_is k,
    );
    at_most =
        All-append _ ss (v ∷ []) (All-le last (last + 1) ss (omega arith) h.at_most)
          (omega (arith, n), tt);
    filled = λ k p q. ground (
      arith,
      n,
      numbered-append k ss v,
      append-nil (numbered k ss),
      numbered-above (last + 1) last ss h.at_most,
      h.filled k,
    );
  }

Grown-IsNumbered :
    (b b' : Building)
    → Grown b b'
    → IsNumbered b.slides b.by_number b.slide_number
    → IsNumbered b'.slides b'.by_number b'.slide_number
Grown-IsNumbered b b' (same p q r) h = rw (p, q, r) h
Grown-IsNumbered b b' (pushed v i n p q r) h = rw (p, q, r) (pushed-IsNumbered b h v i n)
Grown-IsNumbered b b' (counted v i n p q r) h = rw (p, q, r) (counted-IsNumbered b h v i n)

add_slides-IsNumbered :
    (options : SlideOptions) (parsed : List ParsedSlide) (b : Building)
    → IsNumbered b.slides b.by_number b.slide_number
    → IsNumbered
        (add_slides options parsed b).slides
        (add_slides options parsed b).by_number
        (add_slides options parsed b).slide_number
unfolding add_slides
add_slides-IsNumbered options [] b h = h
add_slides-IsNumbered options (s ∷ parsed) b h =
    add_slides-IsNumbered options parsed (add_slide options s b)
      (Grown-IsNumbered b (add_slide options s b) (add_slide-Grown options s b) h)

-- After `createSlides`, whatever the slides and the options: `getSlideIndex()` of every slide is its
-- place; `getSlidesByNumber(n)` is defined exactly for the numbers from 1 to the last that was given,
-- and is then the list of the slides of that number, in order, and not empty; and no slide has a number
-- above the last.
pub create_slides-IsNumbered :
    (options : SlideOptions) (parsed : List ParsedSlide)
    → IsNumbered
        (create_slides options parsed).slides
        (create_slides options parsed).by_number
        (create_slides options parsed).slide_number
unfolding create_slides
create_slides-IsNumbered options parsed = add_slides-IsNumbered options parsed no_slides none_yet
  where
    none_yet : IsNumbered [] [] 0
    none_yet = record {
      indexed = λ k s u. absurd (none_ne u);
      by_number_is = λ n. unfold get_number numbered in ground arith;
      at_most = tt;
      filled = λ n p q. absurd (omega arith);
    }
      where
        none_ne : {s : Slide} → none ≡ some s → ⊥
        none_ne u = cc
