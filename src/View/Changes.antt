-- ===== src/View/Changes.antt =====
-- What showing and hiding do to the classes of the views.
use analisis_de_protocolo_de.Prelude.{
  ℕ, zero, suc, ◌-◌, ◌<◌, ◌≡◌, refl, ap, ◌∙◌, Bool, true, false, not, ◌&&◌, ◌||◌, List, [], ◌∷◌,
  if◌then◌else◌, length, ◌==◌, arith, Bool-cases, inl, inr,
}
use analisis_de_protocolo_de.Prelude.Text.{Text, text_eq, contains}
use analisis_de_protocolo_de.ClassList.{has_class, add_class, remove_class}
use analisis_de_protocolo_de.ClassList.Split.{IsClass}
use analisis_de_protocolo_de.ClassList.Laws.{has_class-add_class, has_class-remove_class}
use analisis_de_protocolo_de.View.{
  visible, fading, show_view, hide_view, end_fading, end_each_fading, update_at, new_views,
  new_slide_view,
}

visible-IsClass : IsClass visible
unfolding contains
visible-IsClass = record { some_unit = refl; no_space = refl }

fading-IsClass : IsClass fading
unfolding contains
fading-IsClass = record { some_unit = refl; no_space = refl }

or_true : (b : Bool) → (b || true) ≡ true
or_true true = refl
or_true false = refl

and_false : (b : Bool) → (b && false) ≡ false
and_false true = refl
and_false false = refl

and_true : (b : Bool) → (b && true) ≡ b
and_true true = refl
and_true false = refl

visible-show_view : (c : Text) → has_class (show_view c) visible ≡ true
unfolding show_view text_eq
visible-show_view c =
    has_class-remove_class (add_class c visible) fading visible
    ∙ ap (λ b. b && true)
        (has_class-add_class c visible visible visible-IsClass ∙ or_true (has_class c visible))

fading-show_view : (c : Text) → has_class (show_view c) fading ≡ false
unfolding show_view text_eq
fading-show_view c =
    has_class-remove_class (add_class c visible) fading fading
    ∙ and_false (has_class (add_class c visible) fading)

visible-hide_view : (c : Text) → has_class (hide_view c) visible ≡ false
unfolding hide_view text_eq
visible-hide_view c =
    has_class-add_class (remove_class c visible) fading visible fading-IsClass
    ∙ ap (λ b. b || false)
        (has_class-remove_class c visible visible ∙ and_false (has_class c visible))

fading-hide_view : (c : Text) → has_class (hide_view c) fading ≡ true
unfolding hide_view text_eq
fading-hide_view c =
    has_class-add_class (remove_class c visible) fading fading fading-IsClass
    ∙ or_true (has_class (remove_class c visible) fading)

visible-end_fading : (c : Text) → has_class (end_fading c) visible ≡ has_class c visible
unfolding text_eq
visible-end_fading c = has_class-remove_class c fading visible ∙ and_true (has_class c visible)

fading-end_fading : (c : Text) → has_class (end_fading c) fading ≡ false
unfolding text_eq
fading-end_fading c = has_class-remove_class c fading fading ∙ and_false (has_class c fading)

-- Whether the view of an index has a class.
unfoldable pub class_at : Text → ℕ → List Text → Bool
class_at d j [] = false
class_at d zero (c ∷ cs) = has_class c d
class_at d (suc j) (c ∷ cs) = class_at d j cs

class_at-update_at :
    (d : Text) (b : Bool) (f : Text → Text) (n j : ℕ) (cs : List Text)
    → ((c : Text) → has_class (f c) d ≡ b)
    → n < length cs
    → class_at d j (update_at n f cs) ≡ (if n == j then b else class_at d j cs)
unfolding class_at update_at
class_at-update_at d b f n j [] h l = absurd (omega arith)
class_at-update_at d b f zero zero (c ∷ cs) h l = h c
class_at-update_at d b f zero (suc j) (c ∷ cs) h l = ground arith
class_at-update_at d b f (suc n) zero (c ∷ cs) h l = ground arith
class_at-update_at d b f (suc n) (suc j) (c ∷ cs) h l =
    class_at-update_at d b f n j cs h (omega arith) ∙ ground arith

pub length-end_each_fading : (b : Bool) (cs : List Text) → length (end_each_fading b cs) ≡ length cs
unfolding end_each_fading
length-end_each_fading b [] = refl
length-end_each_fading b (c ∷ cs) = elim (Bool-cases (has_class c fading)) [
  | inl u ↦ rw u (ap suc (length-end_each_fading (not b) cs))
  | inr u ↦ rw u (ap suc (length-end_each_fading b cs))
]

-- The loop changes no other class.
visible-end_each_fading :
    (b : Bool) (j : ℕ) (cs : List Text)
    → class_at visible j (end_each_fading b cs) ≡ class_at visible j cs
unfolding class_at end_each_fading
visible-end_each_fading b j [] = refl
visible-end_each_fading b zero (c ∷ cs) = elim (Bool-cases (has_class c fading)) [
  | inl u ↦ rw u (first b)
  | inr u ↦ rw u refl
]
  where
    first : (b : Bool) → has_class (if b then end_fading c else c) visible ≡ has_class c visible
    first true = visible-end_fading c
    first false = refl
visible-end_each_fading b (suc j) (c ∷ cs) = elim (Bool-cases (has_class c fading)) [
  | inl u ↦ rw u (visible-end_each_fading (not b) j cs)
  | inr u ↦ rw u (visible-end_each_fading b j cs)
]

-- Where no view fades, none does after it; the same where at most one fades.
none_fades-end_each_fading :
    (b : Bool) (cs : List Text)
    → ((j : ℕ) → class_at fading j cs ≡ false)
    → (j : ℕ) → class_at fading j (end_each_fading b cs) ≡ false
unfolding class_at end_each_fading
none_fades-end_each_fading b [] h j = refl
none_fades-end_each_fading b (c ∷ cs) h zero = let u : has_class c fading ≡ false = h 0 in rw u u
none_fades-end_each_fading b (c ∷ cs) h (suc j) =
    let u : has_class c fading ≡ false = h 0 in
    rw u (none_fades-end_each_fading b cs (λ k. h (suc k)) j)

one_fades-end_each_fading :
    (h : ℕ) (cs : List Text)
    → ((j : ℕ) → class_at fading j cs ≡ true → h ≡ j)
    → (j : ℕ) → class_at fading j (end_each_fading true cs) ≡ false
unfolding class_at end_each_fading
one_fades-end_each_fading h [] one j = refl
one_fades-end_each_fading h (c ∷ cs) one zero = elim (Bool-cases (has_class c fading)) [
  | inl u ↦ rw u (fading-end_fading c)
  | inr u ↦ rw u u
]
one_fades-end_each_fading h (c ∷ cs) one (suc j) = elim (Bool-cases (has_class c fading)) [
  | inl u ↦
      let others : (k : ℕ) → class_at fading k cs ≡ false = λ k.
        elim (Bool-cases (class_at fading k cs)) [
          | inl v ↦ absurd (omega (arith, one 0 u, one (suc k) v))
          | inr v ↦ v
        ] in
      rw u (none_fades-end_each_fading false cs others j)
  | inr u ↦ rw u (one_fades-end_each_fading (h - 1) cs (λ k v. omega (arith, one (suc k) v)) j)
]

pub length-update_at :
    (n : ℕ) (f : Text → Text) (cs : List Text) → length (update_at n f cs) ≡ length cs
unfolding update_at
length-update_at n f [] = refl
length-update_at zero f (c ∷ cs) = refl
length-update_at (suc n) f (c ∷ cs) = ap suc (length-update_at n f cs)

module _ (n j : ℕ) (cs : List Text) where
  pub visible_at-show :
      n < length cs
      → class_at visible j (update_at n show_view cs)
        ≡ (if n == j then true else class_at visible j cs)
  visible_at-show l = class_at-update_at visible true show_view n j cs visible-show_view l

  pub fading_at-show :
      n < length cs
      → class_at fading j (update_at n show_view cs)
        ≡ (if n == j then false else class_at fading j cs)
  fading_at-show l = class_at-update_at fading false show_view n j cs fading-show_view l

  pub visible_at-hide :
      n < length (end_each_fading true cs)
      → class_at visible j (update_at n hide_view (end_each_fading true cs))
        ≡ (if n == j then false else class_at visible j cs)
  visible_at-hide l =
      class_at-update_at visible false hide_view n j (end_each_fading true cs) visible-hide_view l
      ∙ ap (λ b. if n == j then false else b) (visible-end_each_fading true j cs)

  -- Only the view that is hidden is fading then, if at most one was.
  pub fading_at-hide :
      (h : ℕ)
      → ((k : ℕ) → class_at fading k cs ≡ true → h ≡ k)
      → n < length (end_each_fading true cs)
      → class_at fading j (update_at n hide_view (end_each_fading true cs)) ≡ (n == j)
  fading_at-hide h one l =
      class_at-update_at fading true hide_view n j (end_each_fading true cs) fading-hide_view l
      ∙ ap (λ b. if n == j then true else b) (one_fades-end_each_fading h cs one j)
      ∙ bool_lem (n == j)
    where
      bool_lem : (b : Bool) → (if b then true else false) ≡ b
      bool_lem true = refl
      bool_lem false = refl

new_view-plain :
    (has_class new_slide_view visible ≡ false) × (has_class new_slide_view fading ≡ false)
unfolding has_class text_eq
new_view-plain = (refl, refl)

pub class_at-new_views :
    (n j : ℕ)
    → (class_at visible j (new_views n) ≡ false) × (class_at fading j (new_views n) ≡ false)
unfolding class_at new_views
class_at-new_views zero j = (refl, refl)
class_at-new_views (suc n) zero = new_view-plain
class_at-new_views (suc n) (suc j) = class_at-new_views n j

pub length-new_views : (n : ℕ) → length (new_views n) ≡ n
unfolding new_views
length-new_views zero = refl
length-new_views (suc n) = ap suc (length-new_views n)

-- The end of the fading of one view.
pub visible-update_at-end_fading :
    (n j : ℕ) (cs : List Text)
    → class_at visible j (update_at n end_fading cs) ≡ class_at visible j cs
unfolding class_at update_at
visible-update_at-end_fading n j [] = refl
visible-update_at-end_fading zero zero (c ∷ cs) = visible-end_fading c
visible-update_at-end_fading zero (suc j) (c ∷ cs) = refl
visible-update_at-end_fading (suc n) zero (c ∷ cs) = refl
visible-update_at-end_fading (suc n) (suc j) (c ∷ cs) = visible-update_at-end_fading n j cs

pub fading-update_at-end_fading :
    (n j : ℕ) (cs : List Text)
    → class_at fading j (update_at n end_fading cs) ≡ true
    → class_at fading j cs ≡ true
unfolding class_at update_at
fading-update_at-end_fading n j [] h = h
fading-update_at-end_fading zero zero (c ∷ cs) h = absurd (cc (fading-end_fading c, h))
fading-update_at-end_fading zero (suc j) (c ∷ cs) h = h
fading-update_at-end_fading (suc n) zero (c ∷ cs) h = h
fading-update_at-end_fading (suc n) (suc j) (c ∷ cs) h = fading-update_at-end_fading n j cs h
