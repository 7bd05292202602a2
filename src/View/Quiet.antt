-- ===== src/View/Quiet.antt =====
-- The events that show and hide no slide leave the views as they are.
use analisis_de_protocolo_de.Prelude.{ℕ, ◌≡◌, refl, List, [], ◌∷◌, All, ◌∙◌, Bool-cases, inl, inr}
use analisis_de_protocolo_de.Prelude.Text.{text_eq}
use analisis_de_protocolo_de.Prelude.Number.{Number}
use analisis_de_protocolo_de.Prelude.Result.{ok}
use analisis_de_protocolo_de.Printing.{
  set_page_orientation, landscape, portrait, sized, page_width, page_height,
}
use analisis_de_protocolo_de.View.{
  View, ViewEvent, toggle_presenter_mode_event, toggle_help_event, toggle_blackout_event,
  toggle_mirrored_event, hide_overlay_event, pause_event, resume_event, fading_over,
  hide_slide_event, show_slide_event, slides_changed_event, force_presenter_mode_event, end_fading,
  set_print, on_toggle_presenter_mode, toggle_mode, presenter_mode, is_presenting, on_hide_overlay,
  on_view_event, on_view_events,
}
use analisis_de_protocolo_de.View.Changes.{
  length-update_at, visible-update_at-end_fading, fading-update_at-end_fading,
}
use analisis_de_protocolo_de.View.Visible.{IsShowing-same_views}
use analisis_de_protocolo_de.View.Showing.{IsShowing}

-- The events of the inputs, of `pause` and `resume`, and the end of the fading.
abbrev pub IsQuiet : ViewEvent → Type 0
IsQuiet (hide_slide_event i) = ⊥
IsQuiet (show_slide_event i) = ⊥
IsQuiet (slides_changed_event count current) = ⊥
IsQuiet force_presenter_mode_event = ⊥
IsQuiet event = Unit

toggle-same_views :
    (v : View)
    → (v' : View) × (on_toggle_presenter_mode v ≡ ok v') × (v'.slide_views ≡ v.slide_views)
unfolding on_toggle_presenter_mode set_print toggle_mode set_page_orientation text_eq
toggle-same_views v = elim (Bool-cases (is_presenting (toggle_mode presenter_mode v))) [
  | inl u ↦ (
    record (toggle_mode presenter_mode v) { print = sized portrait page_height page_width },
    rw u refl,
    refl,
  )
  | inr u ↦ (
    record (toggle_mode presenter_mode v) { print = sized landscape page_width page_height },
    rw u refl,
    refl,
  )
]

module _ (count : ℕ) (i : Number) where
  abbrev Leads : View → List ViewEvent → Type 0
  Leads v events = (v' : View) × (on_view_events events v ≡ ok v') × IsShowing count i v'

  on_view_event-IsShowing :
      (event : ViewEvent) (v : View)
      → IsQuiet event
      → IsShowing count i v
      → (v' : View) × (on_view_event event v ≡ ok v') × IsShowing count i v'
  unfolding on_view_event toggle_mode on_hide_overlay
  on_view_event-IsShowing (hide_slide_event k) v q s = absurd q
  on_view_event-IsShowing (show_slide_event k) v q s = absurd q
  on_view_event-IsShowing (slides_changed_event n k) v q s = absurd q
  on_view_event-IsShowing force_presenter_mode_event v q s = absurd q
  on_view_event-IsShowing toggle_presenter_mode_event v q s =
      let (v', e, same) = toggle-same_views v in (v', e, IsShowing-same_views count i v v' same s)
  on_view_event-IsShowing toggle_help_event v q s =
      (_, refl, IsShowing-same_views count i v _ refl s)
  on_view_event-IsShowing toggle_blackout_event v q s =
      (_, refl, IsShowing-same_views count i v _ refl s)
  on_view_event-IsShowing toggle_mirrored_event v q s =
      (_, refl, IsShowing-same_views count i v _ refl s)
  on_view_event-IsShowing hide_overlay_event v q s =
      (_, refl, IsShowing-same_views count i v _ refl s)
  on_view_event-IsShowing pause_event v q s = (_, refl, IsShowing-same_views count i v _ refl s)
  on_view_event-IsShowing resume_event v q s = (_, refl, IsShowing-same_views count i v _ refl s)
  on_view_event-IsShowing (fading_over n) v q s = (
    _,
    refl,
    record {
      sized = length-update_at n end_fading v.slide_views ∙ s.sized;
      showing = λ j. visible-update_at-end_fading n j v.slide_views ∙ s.showing j;
      one_fades =
          (s.one_fades.0, λ j h. s.one_fades.1 j (fading-update_at-end_fading n j v.slide_views h));
    },
  )

  -- Such events throw no error, and the same slide is shown after them.
  pub quiet-IsShowing :
      (events : List ViewEvent) (v : View)
      → All IsQuiet events
      → IsShowing count i v
      → Leads v events
  unfolding on_view_events
  quiet-IsShowing [] v q s = (v, refl, s)
  quiet-IsShowing (event ∷ events) v q s =
      let (v1, e1, s1) = on_view_event-IsShowing event v q.0 s in
      let (v2, e2, s2) = quiet-IsShowing events v1 q.1 s1 in (v2, rw (e1, e2) refl, s2)
