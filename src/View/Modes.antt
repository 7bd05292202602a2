-- ===== src/View/Modes.antt =====
-- The modes of the view: the classes of its container against a switch for each mode.
use analisis_de_protocolo_de.Prelude.{
  ℕ, ◌≡◌, refl, ap, sym, ◌∙◌, Bool, true, false, not, List, [], ◌∷◌, if◌then◌else◌, Bool-cases, inl,
  inr, subst,
}
use analisis_de_protocolo_de.Prelude.Text.{Text, text_eq}
use analisis_de_protocolo_de.Prelude.Number.{Number}
use analisis_de_protocolo_de.Prelude.Result.{ok, ◌>>=◌, eq_of_ok, ok_of_bind}
use analisis_de_protocolo_de.Printing.{
  set_page_orientation, landscape, portrait, sized, page_width, page_height,
}
use analisis_de_protocolo_de.ClassList.{has_class, toggle_class, remove_class}
use analisis_de_protocolo_de.View.{
  View, presenter_mode, blackout_mode, toggle_mode, is_presenting, set_print,
  on_force_presenter_mode, on_toggle_presenter_mode, on_hide_overlay, on_hide_slide,
  hide_slide_view, show_slide_view, change_view, update_slide_views, new_views, is_shown, ViewEvent,
  hide_slide_event, show_slide_event, force_presenter_mode_event, toggle_presenter_mode_event,
  toggle_help_event, toggle_blackout_event, toggle_mirrored_event, hide_overlay_event, pause_event,
  resume_event, slides_changed_event, fading_over, on_view_event, on_view_events,
}
use analisis_de_protocolo_de.View.Switches.{
  Mode, Switches, switched, turned_off, turned_on, switch_event, switch_events, HasModes,
  toggle-HasModes, remove-HasModes, presenter, mirrored, help, pause, blackout,
}

change-container :
    (i : Number) (f : Text → Text) (views : List Text) (next : List Text → View) (v' : View)
    → (change_view i f views >>= λ vs. ok (next vs)) ≡ ok v'
    → (vs : List Text) × (next vs ≡ v')
change-container i f views next v' h =
    let (vs, e, p) = ok_of_bind (change_view i f views) (λ vs. ok (next vs)) v' h in
    (vs, eq_of_ok p)

-- Showing and hiding leave the container as it is.
show_slide_view-container :
    (i : Number) (v v' : View) → show_slide_view i v ≡ ok v' → v.container ≡ v'.container
unfolding show_slide_view
show_slide_view-container i v v' h =
    let (vs, p) = change-container i _ v.slide_views _ v' h in ap (λ (w : View). w.container) p

on_hide_slide-container :
    (i : Number) (v v' : View) → on_hide_slide i v ≡ ok v' → v.container ≡ v'.container
unfolding on_hide_slide hide_slide_view
on_hide_slide-container i v v' h =
    let (vs, p) = change-container i _ _ _ v' h in ap (λ (w : View). w.container) p

update_slide_views-container :
    (count : ℕ) (current : Number) (v v' : View)
    → update_slide_views count current v ≡ ok v'
    → v.container ≡ v'.container
unfolding update_slide_views
update_slide_views-container count current v v' h = elim (Bool-cases (is_shown current)) [
  | inl u ↦
      show_slide_view-container current (record v { slide_views = new_views count }) v' (rw u at h)
  | inr u ↦ ap (λ (w : View). w.container) (eq_of_ok (rw u at h))
]

set_print-container : (o : Text) (v v' : View) → set_print o v ≡ ok v' → v.container ≡ v'.container
unfolding set_print
set_print-container o v v' h =
    let (p, e, q) = ok_of_bind (set_page_orientation o) (λ p. ok (record v { print = p })) v' h in
    ap (λ (w : View). w.container) (eq_of_ok q)

HasModes-ext : (s t : Switches) (c : Text) → ((m : Mode) → s m ≡ t m) → HasModes s c → HasModes t c
HasModes-ext s t c e h m = ((h m).0 ∙ e m, (h m).1)

-- Presenter mode is forced only where it is off.
force-HasModes :
    (s : Switches) (v v' : View)
    → on_force_presenter_mode v ≡ ok v'
    → HasModes s v.container
    → HasModes (turned_on presenter s) v'.container
unfolding on_force_presenter_mode is_presenting toggle_mode
force-HasModes s v v' e h = by_test (has_class v.container presenter_mode) refl e
  where
    on_already : s presenter ≡ true → (m : Mode) → s m ≡ turned_on presenter s m
    on_already u presenter = u
    on_already u help = refl
    on_already u blackout = refl
    on_already u mirrored = refl
    on_already u pause = refl

    off_before : s presenter ≡ false → (m : Mode) → switched presenter s m ≡ turned_on presenter s m
    off_before u presenter = rw u refl
    off_before u help = refl
    off_before u blackout = refl
    off_before u mirrored = refl
    off_before u pause = refl

    by_test :
        (b : Bool)
        → has_class v.container presenter_mode ≡ b
        → (if not b then set_print landscape (toggle_mode presenter_mode v) else ok v) ≡ ok v'
        → HasModes (turned_on presenter s) v'.container
    by_test true u e =
        subst (HasModes (turned_on presenter s)) (ap (λ (w : View). w.container) (eq_of_ok e)) (
          HasModes-ext s (turned_on presenter s) v.container
            (on_already (sym ((h presenter).0) ∙ u)) h)
    by_test false u e =
        subst (HasModes (turned_on presenter s))
          (set_print-container landscape (toggle_mode presenter_mode v) v' e)
          (HasModes-ext (switched presenter s) (turned_on presenter s)
            (toggle_class v.container presenter_mode) (off_before (sym ((h presenter).0) ∙ u))
            (toggle-HasModes presenter s v.container h))

toggle_presenter-HasModes :
    (s : Switches) (v v' : View)
    → on_toggle_presenter_mode v ≡ ok v'
    → HasModes s v.container
    → HasModes (switched presenter s) v'.container
unfolding on_toggle_presenter_mode toggle_mode
toggle_presenter-HasModes s v v' e h =
    subst (HasModes (switched presenter s))
      (set_print-container
        (if is_presenting (toggle_mode presenter_mode v) then portrait else landscape)
        (toggle_mode presenter_mode v) v' e)
      (toggle-HasModes presenter s v.container h)

on_view_event-HasModes :
    (e : ViewEvent) (s : Switches) (v v' : View)
    → on_view_event e v ≡ ok v'
    → HasModes s v.container
    → HasModes (switch_event e s) v'.container
unfolding on_view_event switch_event toggle_mode on_hide_overlay
on_view_event-HasModes (hide_slide_event i) s v v' e h =
    subst (HasModes s) (on_hide_slide-container i v v' e) h
on_view_event-HasModes (show_slide_event i) s v v' e h =
    subst (HasModes s) (show_slide_view-container i v v' e) h
on_view_event-HasModes force_presenter_mode_event s v v' e h = force-HasModes s v v' e h
on_view_event-HasModes toggle_presenter_mode_event s v v' e h = toggle_presenter-HasModes s v v' e h
on_view_event-HasModes toggle_help_event s v v' e h =
    subst (HasModes (switched help s)) (ap (λ (w : View). w.container) (eq_of_ok e))
      (toggle-HasModes help s v.container h)
on_view_event-HasModes toggle_blackout_event s v v' e h =
    subst (HasModes (switched blackout s)) (ap (λ (w : View). w.container) (eq_of_ok e))
      (toggle-HasModes blackout s v.container h)
on_view_event-HasModes toggle_mirrored_event s v v' e h =
    subst (HasModes (switched mirrored s)) (ap (λ (w : View). w.container) (eq_of_ok e))
      (toggle-HasModes mirrored s v.container h)
on_view_event-HasModes hide_overlay_event s v v' e h =
    subst (HasModes (turned_off help (turned_off blackout s)))
      (ap (λ (w : View). w.container) (eq_of_ok e))
      (remove-HasModes help (turned_off blackout s) (remove_class v.container blackout_mode)
        (remove-HasModes blackout s v.container h))
on_view_event-HasModes pause_event s v v' e h =
    subst (HasModes (switched pause s)) (ap (λ (w : View). w.container) (eq_of_ok e))
      (toggle-HasModes pause s v.container h)
on_view_event-HasModes resume_event s v v' e h =
    subst (HasModes (switched pause s)) (ap (λ (w : View). w.container) (eq_of_ok e))
      (toggle-HasModes pause s v.container h)
on_view_event-HasModes (slides_changed_event count current) s v v' e h =
    subst (HasModes s) (update_slide_views-container count current v v' e) h
on_view_event-HasModes (fading_over n) s v v' e h =
    subst (HasModes s) (ap (λ (w : View). w.container) (eq_of_ok e)) h

-- The classes of the container implement one switch for each mode: whatever events the view has
-- handled, it has the class of a mode exactly when the events leave the switch on, and once, if it was so
-- before them.
pub on_view_events-HasModes :
    (es : List ViewEvent) (s : Switches) (v v' : View)
    → on_view_events es v ≡ ok v'
    → HasModes s v.container
    → HasModes (switch_events es s) v'.container
unfolding on_view_events switch_events
on_view_events-HasModes [] s v v' e h =
    subst (HasModes s) (ap (λ (w : View). w.container) (eq_of_ok e)) h
on_view_events-HasModes (x ∷ es) s v v' e h =
    let (w, p, q) = ok_of_bind (on_view_event x v) (on_view_events es) v' e in
    on_view_events-HasModes es (switch_event x s) w v' q (on_view_event-HasModes x s v w p h)

-- Where presenter mode is off, it begins with a landscape page when it is forced by the location
-- hash, and with a portrait page when it is toggled.
pub force-toggle_orientation :
    (s : Switches) (v : View)
    → HasModes s v.container
    → s presenter ≡ false
    → ((v' : View) × (on_force_presenter_mode v ≡ ok v')
        × (is_presenting v' ≡ true)
        × (v'.print.orientation ≡ landscape))
      × ((v' : View) × (on_toggle_presenter_mode v ≡ ok v')
          × (is_presenting v' ≡ true)
          × (v'.print.orientation ≡ portrait))
unfolding on_force_presenter_mode on_toggle_presenter_mode set_print set_page_orientation
    is_presenting toggle_mode text_eq
force-toggle_orientation s v h off =
    let c = toggle_class v.container presenter_mode in
    let before : has_class v.container presenter_mode ≡ false = (h presenter).0 ∙ off in
    let after : has_class c presenter_mode ≡ true =
      (toggle-HasModes presenter s v.container h presenter).0 ∙ rw off refl in
    (
      (
        record v { container = c; print = sized landscape page_width page_height },
        rw before refl,
        after,
        refl,
      ),
      (
        record v { container = c; print = sized portrait page_height page_width },
        rw after refl,
        after,
        refl,
      ),
    )
