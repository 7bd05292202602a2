-- ===== src/Navigation/Range.antt =====
-- The current slide stays on the slides, and the views are shown only indices of slides.
use analisis_de_protocolo_de.Prelude.{
  ℕ, ◌<◌, ◌≡◌, ◌≢◌, refl, Bool, true, false, List, [], ◌∷◌, ◌++◌, sym, subst, if◌then◌else◌, All,
  All-append, arith, Bool-cases, inl, inr,
}
use analisis_de_protocolo_de.Prelude.Int.{pos, negsuc}
use analisis_de_protocolo_de.Prelude.Number.{Number, nan, int, plus_one, is_same}
use analisis_de_protocolo_de.Navigation.{
  Navigation, Event, hide_slide, show_slide, start, slide_changed, force_presenter_mode,
  open_window, focus_clone, post_to_clone, post_to_opener, slide_out_of_range, hide_events,
  start_events, messages, goto_slide_by_index, is_open, Started, not_shown, shown, moved,
}

-- The index of a slide.
abbrev pub IsIndex : ℕ → Number → Type 0
IsIndex count nan = ⊥
IsIndex count (int (pos n)) = n < count
IsIndex count (int (negsuc n)) = ⊥

-- The index of a slide, or -1 before the first is shown.
abbrev pub IsOnSlide : ℕ → Number → Type 0
IsOnSlide count nan = ⊥
IsOnSlide count (int (pos n)) = n < count
IsOnSlide count (int (negsuc n)) = n ≡ 0

-- The events that carry an index carry that of a slide.
abbrev pub IsInRange : ℕ → Event → Type 0
IsInRange count (hide_slide i) = IsIndex count i
IsInRange count (show_slide i) = IsIndex count i
IsInRange count e = Unit

hide_events-IsInRange :
    (count : ℕ) (i : Number) → IsOnSlide count i → All (IsInRange count) (hide_events i)
unfolding hide_events
hide_events-IsInRange count nan h = absurd h
hide_events-IsInRange count (int (pos n)) h = (h, tt)
hide_events-IsInRange count (int (negsuc n)) h = rw h tt

start_events-IsInRange : (count : ℕ) (s : Started) → All (IsInRange count) (start_events s)
unfolding start_events
start_events-IsInRange count not_shown = tt
start_events-IsInRange count shown = (tt, tt)
start_events-IsInRange count moved = tt

messages-IsInRange :
    (count : ℕ) (b : Bool) (nav : Navigation) (i : Number)
    → All (IsInRange count) (messages b nav i)
unfolding messages
messages-IsInRange count true nav i = tt
messages-IsInRange count false nav i =
    All-append _ _ _ (at_clone (is_open nav.clone)) (at_opener nav.opener)
  where
    at_clone :
        (b : Bool) → All (IsInRange count) (if b then post_to_clone (plus_one i) ∷ [] else [])
    at_clone true = (tt, tt)
    at_clone false = tt

    at_opener :
        (b : Bool) → All (IsInRange count) (if b then post_to_opener (plus_one i) ∷ [] else [])
    at_opener true = (tt, tt)
    at_opener false = tt

pub in_range-IsIndex :
    (count : ℕ) (i : Number) → i ≢ nan → slide_out_of_range count i ≡ false → IsIndex count i
unfolding slide_out_of_range
in_range-IsIndex count nan p h = p refl
in_range-IsIndex count (int (pos n)) p h = ground arith
in_range-IsIndex count (int (negsuc n)) p h = absurd (cc)

IsOnSlide-of_IsIndex : (count : ℕ) (i : Number) → IsIndex count i → IsOnSlide count i
IsOnSlide-of_IsIndex count nan h = h
IsOnSlide-of_IsIndex count (int (pos n)) h = h
IsOnSlide-of_IsIndex count (int (negsuc n)) h = absurd h

-- The slide that is shown, from one index to the other, through the events of a list: only the slide
-- that is shown is hidden, and a slide is shown only when none is.
abbrev pub Tracks : Number → List Event → Number → Type 0
Tracks i [] j = i ≡ j
Tracks i (hide_slide k ∷ es) j = (i ≡ k) × Tracks (int (negsuc 0)) es j
Tracks i (show_slide k ∷ es) j = (i ≡ int (negsuc 0)) × Tracks k es j
Tracks i (start ∷ es) j = Tracks i es j
Tracks i (slide_changed k ∷ es) j = Tracks i es j
Tracks i (force_presenter_mode ∷ es) j = Tracks i es j
Tracks i (post_to_clone k ∷ es) j = Tracks i es j
Tracks i (post_to_opener k ∷ es) j = Tracks i es j
Tracks i (open_window ∷ es) j = Tracks i es j
Tracks i (focus_clone ∷ es) j = Tracks i es j

pub Tracks-append :
    (i j k : Number) (xs ys : List Event) → Tracks i xs j → Tracks j ys k → Tracks i (xs ++ ys) k
Tracks-append i j k [] ys h g = subst (λ n. Tracks n ys k) (sym h) g
Tracks-append i j k (hide_slide n ∷ xs) ys h g =
    (h.0, Tracks-append (int (negsuc 0)) j k xs ys h.1 g)
Tracks-append i j k (show_slide n ∷ xs) ys h g = (h.0, Tracks-append n j k xs ys h.1 g)
Tracks-append i j k (start ∷ xs) ys h g = Tracks-append i j k xs ys h g
Tracks-append i j k (slide_changed n ∷ xs) ys h g = Tracks-append i j k xs ys h g
Tracks-append i j k (force_presenter_mode ∷ xs) ys h g = Tracks-append i j k xs ys h g
Tracks-append i j k (post_to_clone n ∷ xs) ys h g = Tracks-append i j k xs ys h g
Tracks-append i j k (post_to_opener n ∷ xs) ys h g = Tracks-append i j k xs ys h g
Tracks-append i j k (open_window ∷ xs) ys h g = Tracks-append i j k xs ys h g
Tracks-append i j k (focus_clone ∷ xs) ys h g = Tracks-append i j k xs ys h g

hide_events-Tracks :
    (count : ℕ) (i : Number) → IsOnSlide count i → Tracks i (hide_events i) (int (negsuc 0))
unfolding hide_events
hide_events-Tracks count nan h = absurd h
hide_events-Tracks count (int (pos n)) h = (refl, refl)
hide_events-Tracks count (int (negsuc n)) h = rw h refl

start_events-Tracks : (i : Number) (s : Started) → Tracks i (start_events s) i
unfolding start_events
start_events-Tracks i not_shown = refl
start_events-Tracks i shown = refl
start_events-Tracks i moved = refl

messages-Tracks : (b : Bool) (nav : Navigation) (i j : Number) → Tracks j (messages b nav i) j
unfolding messages
messages-Tracks true nav i j = refl
messages-Tracks false nav i j =
    Tracks-append j j j (if is_open nav.clone then post_to_clone (plus_one i) ∷ [] else [])
      (if nav.opener then post_to_opener (plus_one i) ∷ [] else []) (at_clone (is_open nav.clone))
      (at_opener nav.opener)
  where
    at_clone : (b : Bool) → Tracks j (if b then post_to_clone (plus_one i) ∷ [] else []) j
    at_clone true = refl
    at_clone false = refl

    at_opener : (b : Bool) → Tracks j (if b then post_to_opener (plus_one i) ∷ [] else []) j
    at_opener true = refl
    at_opener false = refl

-- What an operation keeps, on a show that was at the index `from`.
pub record Keeps (count : ℕ) (from : Number) (r : Navigation × List Event) : Type 0 where
  pub on_slide : IsOnSlide count r.0.current_slide_index
  pub in_range : All (IsInRange count) r.1
  pub tracked : Tracks from r.1 r.0.current_slide_index

pub goto_slide_by_index-Keeps :
    (count : ℕ) (i : Number) (no_message : Bool) (nav : Navigation)
    → i ≢ nan
    → IsOnSlide count nav.current_slide_index
    → Keeps count nav.current_slide_index (goto_slide_by_index count i no_message nav)
unfolding goto_slide_by_index
goto_slide_by_index-Keeps count i no_message nav p h =
    elim (Bool-cases (is_same i nav.current_slide_index)) [
      | inl e ↦ rw e (record { on_slide = h; in_range = tt; tracked = refl })
      | inr e ↦ elim (Bool-cases (slide_out_of_range count i)) [
        | inl u ↦ rw (e, u) (record { on_slide = h; in_range = tt; tracked = refl })
        | inr u ↦
            let at = in_range-IsIndex count i p u in
            let shows = show_slide i ∷ (slide_changed (plus_one i) ∷ messages no_message nav i) in
            rw (e, u)
              (record {
                on_slide = IsOnSlide-of_IsIndex count i at;
                in_range =
                    All-append _ (hide_events nav.current_slide_index) _
                      (hide_events-IsInRange count nav.current_slide_index h)
                      (All-append _ (start_events nav.started) _
                        (start_events-IsInRange count nav.started)
                        (at, (tt, messages-IsInRange count no_message nav i)));
                tracked =
                    Tracks-append nav.current_slide_index (int (negsuc 0)) i
                      (hide_events nav.current_slide_index) (start_events nav.started ++ shows)
                      (hide_events-Tracks count nav.current_slide_index h)
                      (Tracks-append (int (negsuc 0)) (int (negsuc 0)) i (start_events nav.started)
                        shows (start_events-Tracks (int (negsuc 0)) nav.started)
                        (refl, messages-Tracks no_message nav i i));
              })
      ]
    ]
