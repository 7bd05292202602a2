-- ===== src/Slideshow/External.antt =====
-- The events that a show passes on to its users (module 20 of the bundle,
-- `models/slideshow/events.js`), with the slide of each. The slide show's view emits those before and
-- after a slide is shown or hidden.
use analisis_de_protocolo_de.Prelude.{
  ℕ, ◌+◌, ◌≡◌, refl, Option, none, some, List, [], ◌∷◌, ◌++◌, length, get_elem?, get_elem?-lt, All,
  All-append,
}
use analisis_de_protocolo_de.Prelude.Int.{pos, negsuc}
use analisis_de_protocolo_de.Prelude.Number.{Number, nan, int, plus_one}
use analisis_de_protocolo_de.Slide.{Slide}
use analisis_de_protocolo_de.Slideshow.{Building}
use analisis_de_protocolo_de.Navigation.{
  Navigation, Event, hide_slide, show_slide, start, slide_changed, force_presenter_mode,
  open_window, focus_clone, post_to_clone, post_to_opener, Command, run, get_slide_count,
}
use analisis_de_protocolo_de.Navigation.Range.{IsIndex, IsOnSlide, IsInRange}
use analisis_de_protocolo_de.Navigation.Runs.{run-Keeps}
use analisis_de_protocolo_de.Navigation.Numeric.{IsNumericCommand}

-- The event, and its slide if there is one.
pub data External : Type 0 where
  show_slide_external before_show_slide after_show_slide : Option Slide → External
  hide_slide_external before_hide_slide after_hide_slide : Option Slide → External
  toggled_presenter : Option Slide → External

abbrev pub slide_of : External → Option Slide
slide_of (show_slide_external s) = s
slide_of (before_show_slide s) = s
slide_of (after_show_slide s) = s
slide_of (hide_slide_external s) = s
slide_of (before_hide_slide s) = s
slide_of (after_hide_slide s) = s
slide_of (toggled_presenter s) = s

-- self.getSlides()[slideIndex]
unfoldable pub slide_at : Building → Number → Option Slide
slide_at b nan = none
slide_at b (int (negsuc n)) = none
slide_at b (int (pos n)) = get_elem? b.slides n

-- What the view's event `toggledPresenter` passes on: its argument is the number of the slide.
unfoldable pub pass_on_toggled : Building → Navigation → External
unfolding slide_at
pass_on_toggled b nav = toggled_presenter (slide_at b (plus_one nav.current_slide_index))

-- What an event of navigation passes on, with the events that the view emits while it handles it.
unfoldable pub pass_on : Building → Event → List External
unfolding slide_at
pass_on b (show_slide i) =
    show_slide_external (slide_at b i)
    ∷ (before_show_slide (slide_at b i) ∷ (after_show_slide (slide_at b i) ∷ []))
pass_on b (hide_slide i) =
    hide_slide_external (slide_at b i)
    ∷ (before_hide_slide (slide_at b i) ∷ (after_hide_slide (slide_at b i) ∷ []))
pass_on b start = []
pass_on b (slide_changed i) = []
pass_on b force_presenter_mode = []
pass_on b (post_to_clone i) = []
pass_on b (post_to_opener i) = []
pass_on b open_window = []
pass_on b focus_clone = []

unfoldable pub pass_on_all : Building → List Event → List External
unfolding pass_on
pass_on_all b [] = []
pass_on_all b (e ∷ es) = pass_on b e ++ pass_on_all b es

abbrev pub HasSlide : Building → External → Type 0
HasSlide b e = (s : Slide) × (n : ℕ) × (slide_of e ≡ some s) × (get_elem? b.slides n ≡ some s)

slide_at-index :
    (b : Building) (i : Number)
    → IsIndex (length b.slides) i
    → (s : Slide) × (n : ℕ) × (slide_at b i ≡ some s) × (get_elem? b.slides n ≡ some s)
unfolding slide_at
slide_at-index b nan h = absurd h
slide_at-index b (int (negsuc n)) h = absurd h
slide_at-index b (int (pos n)) h = let (s, e) = get_elem?-lt b.slides n h in (s, n, e, e)

pass_on-HasSlide :
    (b : Building) (e : Event) → IsInRange (length b.slides) e → All (HasSlide b) (pass_on b e)
unfolding pass_on
pass_on-HasSlide b (show_slide i) h = let r = slide_at-index b i h in (r, (r, (r, tt)))
pass_on-HasSlide b (hide_slide i) h = let r = slide_at-index b i h in (r, (r, (r, tt)))
pass_on-HasSlide b start h = tt
pass_on-HasSlide b (slide_changed i) h = tt
pass_on-HasSlide b force_presenter_mode h = tt
pass_on-HasSlide b (post_to_clone i) h = tt
pass_on-HasSlide b (post_to_opener i) h = tt
pass_on-HasSlide b open_window h = tt
pass_on-HasSlide b focus_clone h = tt

pass_on_all-HasSlide :
    (b : Building) (es : List Event)
    → All (IsInRange (length b.slides)) es
    → All (HasSlide b) (pass_on_all b es)
unfolding pass_on_all
pass_on_all-HasSlide b [] h = tt
pass_on_all-HasSlide b (e ∷ es) h =
    All-append (HasSlide b) (pass_on b e) (pass_on_all b es) (pass_on-HasSlide b e h.0)
      (pass_on_all-HasSlide b es h.1)

-- From a slide, or before the first is shown, every event that any commands whose targets are not NaN
-- pass on to the users carries a slide of the show.
pub run-HasSlide :
    (b : Building) (cs : List Command) (nav : Navigation)
    → All IsNumericCommand cs
    → IsOnSlide (get_slide_count b) nav.current_slide_index
    → All (HasSlide b) (pass_on_all b (run b cs nav).1)
run-HasSlide b cs nav p h =
    pass_on_all-HasSlide b (run b cs nav).1 (run-Keeps b cs nav p h).in_range

-- On the last slide that event passes on no slide, and on any other the next one.
pass_on_toggled-next :
    (b : Building) (nav : Navigation) (n : ℕ)
    → nav.current_slide_index ≡ int (pos n)
    → slide_of (pass_on_toggled b nav) ≡ get_elem? b.slides (n + 1)
unfolding pass_on_toggled slide_at
pass_on_toggled-next b nav n e = rw e refl
