-- ===== src/NotesView/Follows.antt =====
-- The notes while navigation moves.
use analisis_de_protocolo_de.Prelude.{
  ℕ, ◌<◌, ◌≡◌, refl, subst, some, List, [], ◌∷◌, length, get_elem?, get_elem?-lt, arith, All,
}
use analisis_de_protocolo_de.Prelude.Text.{Text}
use analisis_de_protocolo_de.Prelude.Int.{pos, negsuc}
use analisis_de_protocolo_de.Prelude.Number.{Number, nan, int}
use analisis_de_protocolo_de.Prelude.Result.{ok}
use analisis_de_protocolo_de.Slideshow.{Building}
use analisis_de_protocolo_de.Navigation.{
  Navigation, Event, hide_slide, show_slide, start, slide_changed, force_presenter_mode,
  open_window, focus_clone, post_to_clone, post_to_opener, Command, run, get_slide_count,
}
use analisis_de_protocolo_de.Navigation.Range.{IsOnSlide, IsInRange, Tracks}
use analisis_de_protocolo_de.Navigation.Runs.{run-Keeps}
use analisis_de_protocolo_de.Navigation.Numeric.{IsNumericCommand}
use analisis_de_protocolo_de.NotesView.{Notes, next_notes, show_notes, on_event, on_events}

-- The notes shown for a current index; what stands there before the first slide is not determined.
pub data IsShownFor (slide_notes : List Text) (v : Notes) : Number → Type 0 where
  before : IsShownFor slide_notes v (int (negsuc 0))
  at :
      (n : ℕ)
      → get_elem? slide_notes n ≡ some v.notes
      → v.preview ≡ next_notes n slide_notes
      → IsShownFor slide_notes v (int (pos n))

abbrev Leads : List Text → Number → List Event → Notes → Type 0
Leads slide_notes j es v =
    (v' : Notes) × (on_events slide_notes es v ≡ ok v') × IsShownFor slide_notes v' j

show_notes-at :
    (slide_notes : List Text) (n : ℕ)
    → n < length slide_notes
    → (v : Notes) × (show_notes slide_notes (int (pos n)) ≡ ok v)
      × IsShownFor slide_notes v (int (pos n))
unfolding show_notes
show_notes-at slide_notes n h =
    let (t, e) = get_elem?-lt slide_notes n h in
    (record { notes = t; preview = next_notes n slide_notes }, rw (e, show_notes) refl, at n e refl)

module _ (slide_notes : List Text) (count : ℕ) (all_there : length slide_notes ≡ count) where
  Tracks-Leads :
      (i j : Number) (es : List Event) (v : Notes)
      → Tracks i es j
      → All (IsInRange count) es
      → IsShownFor slide_notes v i
      → Leads slide_notes j es v
  unfolding on_events on_event
  Tracks-Leads i j [] v t r s = (v, refl, subst (IsShownFor slide_notes v) t s)
  Tracks-Leads i j (hide_slide k ∷ es) v t r s = Tracks-Leads (int (negsuc 0)) j es v t.1 r.1 before
  Tracks-Leads i j (show_slide nan ∷ es) v t r s = absurd r.0
  Tracks-Leads i j (show_slide (int (negsuc n)) ∷ es) v t r s = absurd r.0
  Tracks-Leads i j (show_slide (int (pos n)) ∷ es) v t r s =
      let l : n < length slide_notes = omega (arith, r.0, all_there) in
      let (v1, e, s1) = show_notes-at slide_notes n l in
      let (v', e', s') = Tracks-Leads (int (pos n)) j es v1 t.1 r.1 s1 in (v', rw (e, e') refl, s')
  Tracks-Leads i j (start ∷ es) v t r s = Tracks-Leads i j es v t r.1 s
  Tracks-Leads i j (slide_changed k ∷ es) v t r s = Tracks-Leads i j es v t r.1 s
  Tracks-Leads i j (force_presenter_mode ∷ es) v t r s = Tracks-Leads i j es v t r.1 s
  Tracks-Leads i j (post_to_clone k ∷ es) v t r s = Tracks-Leads i j es v t r.1 s
  Tracks-Leads i j (post_to_opener k ∷ es) v t r s = Tracks-Leads i j es v t r.1 s
  Tracks-Leads i j (open_window ∷ es) v t r s = Tracks-Leads i j es v t r.1 s
  Tracks-Leads i j (focus_clone ∷ es) v t r s = Tracks-Leads i j es v t r.1 s

-- With a slide view for each slide and the notes of the current slide shown, or before the first slide,
-- any commands whose targets are not NaN leave the notes without an error: they are those of the current
-- slide then, and the preview is the notes of the next slide or empty.
pub run-IsShownFor :
    (slide_notes : List Text) (slides : Building) (cs : List Command) (nav : Navigation) (v : Notes)
    → length slide_notes ≡ get_slide_count slides
    → All IsNumericCommand cs
    → IsOnSlide (get_slide_count slides) nav.current_slide_index
    → IsShownFor slide_notes v nav.current_slide_index
    → (v' : Notes) × (on_events slide_notes (run slides cs nav).1 v ≡ ok v')
      × IsShownFor slide_notes v' (run slides cs nav).0.current_slide_index
run-IsShownFor slide_notes slides cs nav v e p h s =
    let k = run-Keeps slides cs nav p h in
    Tracks-Leads slide_notes (get_slide_count slides) e nav.current_slide_index
      (run slides cs nav).0.current_slide_index (run slides cs nav).1 v k.tracked k.in_range s
