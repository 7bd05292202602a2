-- ===== src/View/Visible.antt =====
-- Which slide the views show, while navigation moves.
use analisis_de_protocolo_de.Prelude.{
  ℕ, ◌≤◌, ◌≡◌, refl, subst, List, [], ◌∷◌, get_elem?, arith, Bool-cases, Option-cases, inl, inr,
  All, lt-length_of_get_elem?,
}
use analisis_de_protocolo_de.Prelude.Text.{text_eq}
use analisis_de_protocolo_de.Prelude.Int.{pos, negsuc}
use analisis_de_protocolo_de.Prelude.Number.{Number, nan, int}
use analisis_de_protocolo_de.Prelude.Result.{ok, err, type_error}
use analisis_de_protocolo_de.Slideshow.{Building}
use analisis_de_protocolo_de.Navigation.{
  Navigation, Event, hide_slide, show_slide, start, slide_changed, force_presenter_mode,
  open_window, focus_clone, post_to_clone, post_to_opener, Command, run, get_slide_count,
  slides_changed,
}
use analisis_de_protocolo_de.Navigation.Range.{IsOnSlide, IsInRange, Tracks}
use analisis_de_protocolo_de.Navigation.Runs.{run-Keeps, slides_changed-same, slides_changed-past}
use analisis_de_protocolo_de.Navigation.Numeric.{IsNumericCommand}
use analisis_de_protocolo_de.Printing.{
  set_page_orientation, landscape, sized, page_width, page_height,
}
use analisis_de_protocolo_de.View.{
  View, ViewEvent, show_view, show_slide_view, on_force_presenter_mode, set_print, toggle_mode,
  presenter_mode, is_presenting, new_views, update_slide_views, on_view_event, on_view_events,
}
use analisis_de_protocolo_de.View.Bus.{view_event, view_events}
use analisis_de_protocolo_de.View.Changes.{class_at-new_views, length-new_views}
use analisis_de_protocolo_de.View.Showing.{
  IsShowing, change_view-none, show-IsShowing, hide-IsShowing,
}

-- The classes of the views are not those of the container.
force-same_views :
    (v : View)
    → (v' : View) × (on_force_presenter_mode v ≡ ok v') × (v'.slide_views ≡ v.slide_views)
unfolding on_force_presenter_mode set_print toggle_mode set_page_orientation text_eq
force-same_views v = elim (Bool-cases (is_presenting v)) [
  | inl u ↦ (v, rw u refl, refl)
  | inr u ↦ (
    record (toggle_mode presenter_mode v) { print = sized landscape page_width page_height },
    rw u refl,
    refl,
  )
]

pub IsShowing-same_views :
    (count : ℕ) (i : Number) (v v' : View)
    → v'.slide_views ≡ v.slide_views
    → IsShowing count i v
    → IsShowing count i v'
IsShowing-same_views count i v v' e s = record {
  sized = rw e s.sized;
  showing = λ j. rw e (s.showing j);
  one_fades = (s.one_fades.0, λ j h. s.one_fades.1 j (rw e at h));
}

abbrev Leads : ℕ → Number → List Event → View → Type 0
Leads count i es v =
    (v' : View) × (on_view_events (view_events es) v ≡ ok v') × IsShowing count i v'

-- One step and then the others.
and_then :
    (count : ℕ) (i j : Number) (es : List Event) (e : ViewEvent) (v : View)
    → (v1 : View) × (on_view_event e v ≡ ok v1) × IsShowing count i v1
    → ((v1 : View) → IsShowing count i v1 → Leads count j es v1)
    → (v' : View) × (on_view_events (e ∷ view_events es) v ≡ ok v') × IsShowing count j v'
unfolding on_view_events
and_then count i j es e v (v1, h, s) rest =
    let (v', h', s') = rest v1 s in (v', rw (h, h') refl, s')

Tracks-Leads :
    (count : ℕ) (i j : Number) (es : List Event) (v : View)
    → Tracks i es j
    → All (IsInRange count) es
    → IsShowing count i v
    → Leads count j es v
unfolding view_events view_event on_view_event
Tracks-Leads count i j [] v t r s =
    (v, unfold on_view_events in refl, subst (λ k. IsShowing count k v) t s)
Tracks-Leads count i j (hide_slide nan ∷ es) v t r s = absurd r.0
Tracks-Leads count i j (hide_slide (int (negsuc n)) ∷ es) v t r s = absurd r.0
Tracks-Leads count i j (hide_slide (int (pos n)) ∷ es) v t r s =
    and_then count (int (negsuc 0)) j es _ v
      (hide-IsShowing count n v r.0 (subst (λ k. IsShowing count k v) t.0 s))
      (λ v1 s1. Tracks-Leads count (int (negsuc 0)) j es v1 t.1 r.1 s1)
Tracks-Leads count i j (show_slide nan ∷ es) v t r s = absurd r.0
Tracks-Leads count i j (show_slide (int (negsuc n)) ∷ es) v t r s = absurd r.0
Tracks-Leads count i j (show_slide (int (pos n)) ∷ es) v t r s =
    and_then count (int (pos n)) j es _ v
      (show-IsShowing count n v r.0 (subst (λ k. IsShowing count k v) t.0 s))
      (λ v1 s1. Tracks-Leads count (int (pos n)) j es v1 t.1 r.1 s1)
Tracks-Leads count i j (force_presenter_mode ∷ es) v t r s =
    let (v1, h, e) = force-same_views v in
    and_then count i j es _ v (v1, h, IsShowing-same_views count i v v1 e s)
      (λ v2 s2. Tracks-Leads count i j es v2 t r.1 s2)
Tracks-Leads count i j (start ∷ es) v t r s = Tracks-Leads count i j es v t r.1 s
Tracks-Leads count i j (slide_changed k ∷ es) v t r s = Tracks-Leads count i j es v t r.1 s
Tracks-Leads count i j (post_to_clone k ∷ es) v t r s = Tracks-Leads count i j es v t r.1 s
Tracks-Leads count i j (post_to_opener k ∷ es) v t r s = Tracks-Leads count i j es v t r.1 s
Tracks-Leads count i j (open_window ∷ es) v t r s = Tracks-Leads count i j es v t r.1 s
Tracks-Leads count i j (focus_clone ∷ es) v t r s = Tracks-Leads count i j es v t r.1 s

-- Whatever commands navigation gets, but targets of NaN, the views follow it without an error: they
-- show exactly the current slide, and none before the first is shown, and at most one is fading.
pub run-IsShowing :
    (slides : Building) (cs : List Command) (nav : Navigation) (v : View)
    → All IsNumericCommand cs
    → IsOnSlide (get_slide_count slides) nav.current_slide_index
    → IsShowing (get_slide_count slides) nav.current_slide_index v
    → (v' : View) × (on_view_events (view_events (run slides cs nav).1) v ≡ ok v')
      × IsShowing (get_slide_count slides) (run slides cs nav).0.current_slide_index v'
run-IsShowing slides cs nav v p h s =
    let k = run-Keeps slides cs nav p h in
    Tracks-Leads (get_slide_count slides) nav.current_slide_index
      (run slides cs nav).0.current_slide_index (run slides cs nav).1 v k.tracked k.in_range s

pub new_views-IsShowing :
    (count : ℕ) (v : View)
    → IsShowing count (int (negsuc 0)) (record v { slide_views = new_views count })
new_views-IsShowing count v = record {
  sized = length-new_views count;
  showing = λ j. (class_at-new_views count j).0;
  one_fades = (0, λ j h. absurd (cc (h, (class_at-new_views count j).1)));
}

-- When the slides have changed the views are those of the new slides, showing exactly the current slide,
-- if that is an index of theirs or none is shown yet; and if it is an index past the last, the view
-- throws when it shows it.
pub update_slide_views-IsShowing :
    (count : ℕ) (nav : Navigation) (v : View)
    → (IsOnSlide count nav.current_slide_index
        → (v' : View) × (update_slide_views count (slides_changed count nav).current_slide_index v
            ≡ ok v')
          × IsShowing count nav.current_slide_index v')
      × ((n : ℕ)
          → nav.current_slide_index ≡ int (pos n)
          → count ≤ n
          → update_slide_views count (slides_changed count nav).current_slide_index v
            ≡ err type_error)
unfolding update_slide_views
update_slide_views-IsShowing count nav v = (
  λ h. on_slide nav.current_slide_index h (slides_changed-same count nav h),
  λ n e l. let (m, at, past) = slides_changed-past count n nav e l in rw at (throws m past),
)
  where
    views : View
    views = record v { slide_views = new_views count }

    on_slide :
        (i : Number)
        → IsOnSlide count i
        → (slides_changed count nav).current_slide_index ≡ i
        → (v' : View) × (update_slide_views count (slides_changed count nav).current_slide_index v
            ≡ ok v')
          × IsShowing count i v'
    on_slide nan h e = absurd h
    on_slide (int (negsuc n)) h e = (views, rw e refl, rw h (new_views-IsShowing count v))
    on_slide (int (pos n)) h e =
        let (v', p, s) = show-IsShowing count n views h (new_views-IsShowing count v) in
        (v', rw e p, s)

    throws : (m : ℕ) → count ≤ m → show_slide_view (int (pos m)) views ≡ err type_error
    throws m l = elim (Option-cases (get_elem? (new_views count) m)) [
      | inl u ↦ rw (change_view-none m show_view (new_views count) u, show_slide_view) refl
      | inr (c, u) ↦
          let lt = lt-length_of_get_elem? (new_views count) m u in
          absurd (omega (arith, lt, length-new_views count))
    ]
