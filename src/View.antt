-- ===== src/View.antt =====
-- The view of the slide show (module 28 of the bundle, `views/slideshowView.js`), with the show and hide
-- of a slide's view (module 27, `views/slideView.js`): the classes that they write, and the print
-- orientation. What the events of the view write to styles (`Scaler`) is not part of its state.
pub mod Bus
pub mod Changes
pub mod Showing
pub mod Visible
pub mod Switches
pub mod Modes
pub mod Windows
pub mod Quiet
pub mod Session
pub mod Tests
use analisis_de_protocolo_de.Prelude.{
  ℕ, zero, suc, ◌+◌, Bool, true, false, not, Option, none, some, List, [], ◌∷◌, map, if◌then◌else◌,
  get_elem?,
}
use analisis_de_protocolo_de.Prelude.Text.{Text, codes}
use analisis_de_protocolo_de.Prelude.Int.{ℤ, pos, negsuc}
use analisis_de_protocolo_de.Prelude.Number.{Number, nan, int, plus_one}
use analisis_de_protocolo_de.Prelude.Result.{Result, ok, err, type_error, ◌>>=◌}
use analisis_de_protocolo_de.ClassList.{add_class, remove_class, toggle_class, has_class}
use analisis_de_protocolo_de.Printing.{Print, set_page_orientation, landscape, portrait}

abbrev pub visible : Text
visible = codes "remark-visible"

abbrev pub fading : Text
fading = codes "remark-fading"

abbrev pub presenter_mode : Text
presenter_mode = codes "remark-presenter-mode"

abbrev pub help_mode : Text
help_mode = codes "remark-help-mode"

abbrev pub blackout_mode : Text
blackout_mode = codes "remark-blackout-mode"

abbrev pub mirrored_mode : Text
mirrored_mode = codes "remark-mirrored-mode"

abbrev pub pause_mode : Text
pause_mode = codes "remark-pause-mode"

-- The class of the slide show's container, the class of the container of each slide's view, the view
-- that the preview shows, and the printing component.
pub record View : Type 0 where
  pub container : Text
  pub slide_views : List Text
  pub preview : Option Text
  pub print : Print

-- The view of a slide, from `configureElements`.
abbrev pub new_slide_view : Text
new_slide_view = codes "remark-slide-container"

-- SlideView.prototype.show
unfoldable pub show_view : Text → Text
unfolding add_class remove_class
show_view class_name = remove_class (add_class class_name visible) fading

-- SlideView.prototype.hide, up to its timeout
unfoldable pub hide_view : Text → Text
unfolding add_class remove_class
hide_view class_name = add_class (remove_class class_name visible) fading

-- What the timeout of `hide` does.
abbrev pub end_fading : Text → Text
end_fading class_name = remove_class class_name fading

unfoldable pub update_at : ℕ → (Text → Text) → List Text → List Text
update_at i f [] = []
update_at zero f (x ∷ xs) = f x ∷ xs
update_at (suc i) f (x ∷ xs) = x ∷ update_at i f xs

-- self.slideViews[slideIndex], and its change
unfoldable pub change_view : Number → (Text → Text) → List Text → Result (List Text)
unfolding update_at
change_view nan f views = err type_error
change_view (int (negsuc n)) f views = err type_error
change_view (int (pos n)) f views = elim (get_elem? views n) [
  | none ↦ err type_error
  | some v ↦ ok (update_at n f views)
]

-- self.slideViews[slideIndex + 1]
abbrev pub view_after : Number → List Text → Option Text
view_after nan views = none
view_after (int (pos n)) views = get_elem? views (suc n)
view_after (int (negsuc zero)) views = get_elem? views 0
view_after (int (negsuc (suc n))) views = none

-- SlideshowView.prototype.showSlide
unfoldable pub show_slide_view : Number → View → Result View
unfolding change_view show_view
show_slide_view i v = change_view i show_view v.slide_views >>= λ views.
    ok (record v { slide_views = views; preview = view_after i views })

-- SlideshowView.prototype.hideSlide
unfoldable pub hide_slide_view : Number → View → Result View
unfolding change_view hide_view
hide_slide_view i v =
    change_view i hide_view v.slide_views >>= λ views. ok (record v { slide_views = views })

-- The loop over the fading views in the listener of `hideSlide`: the collection is live, so after a view
-- that leaves it the loop passes over the next one.
unfoldable pub end_each_fading : Bool → List Text → List Text
unfolding has_class
end_each_fading is_next [] = []
end_each_fading is_next (c ∷ cs) =
    let other = end_each_fading (not is_next) cs in
    let same = end_each_fading is_next cs in
    if has_class c fading then (if is_next then end_fading c else c) ∷ other else c ∷ same

-- The listener of `hideSlide`, which ends fading first.
unfoldable pub on_hide_slide : Number → View → Result View
unfolding hide_slide_view end_each_fading
on_hide_slide i v =
    hide_slide_view i (record v { slide_views = end_each_fading true v.slide_views })

unfoldable pub toggle_mode : Text → View → View
unfolding toggle_class
toggle_mode mode v = record v { container = toggle_class v.container mode }

unfoldable pub set_print : Text → View → Result View
unfolding set_page_orientation
set_print orientation v = set_page_orientation orientation >>= λ p. ok (record v { print = p })

unfoldable pub is_presenting : View → Bool
unfolding has_class
is_presenting v = has_class v.container presenter_mode

-- The listener of `forcePresenterMode`.
unfoldable pub on_force_presenter_mode : View → Result View
unfolding is_presenting toggle_mode set_print
on_force_presenter_mode v =
    if not (is_presenting v) then set_print landscape (toggle_mode presenter_mode v) else ok v

-- The listener of `togglePresenterMode`.
unfoldable pub on_toggle_presenter_mode : View → Result View
unfolding is_presenting toggle_mode set_print
on_toggle_presenter_mode v =
    let v' = toggle_mode presenter_mode v in
    set_print (if is_presenting v' then portrait else landscape) v'

-- The listener of `hideOverlay`.
unfoldable pub on_hide_overlay : View → View
unfolding remove_class
on_hide_overlay v = record v {
  container = remove_class (remove_class v.container blackout_mode) help_mode;
}

-- The views of as many slides.
unfoldable pub new_views : ℕ → List Text
new_views zero = []
new_views (suc n) = new_slide_view ∷ new_views n

abbrev pub is_shown : Number → Bool
is_shown nan = false
is_shown (int (pos n)) = true
is_shown (int (negsuc n)) = false

-- SlideshowView.prototype.updateSlideViews, for the number of slides and the current index
unfoldable pub update_slide_views : ℕ → Number → View → Result View
unfolding new_views show_slide_view
update_slide_views count current v =
    let v' = record v { slide_views = new_views count } in
    if is_shown current then show_slide_view current v' else ok v'

-- The events that the view listens to, and the timeout of a slide that was hidden.
pub data ViewEvent : Type 0 where
  hide_slide_event show_slide_event : Number → ViewEvent
  force_presenter_mode_event toggle_presenter_mode_event : ViewEvent
  toggle_help_event toggle_blackout_event toggle_mirrored_event : ViewEvent
  hide_overlay_event pause_event resume_event : ViewEvent
  slides_changed_event : ℕ → Number → ViewEvent
  fading_over : ℕ → ViewEvent

unfoldable pub on_view_event : ViewEvent → View → Result View
unfolding on_hide_slide show_slide_view on_force_presenter_mode on_toggle_presenter_mode toggle_mode
    on_hide_overlay update_slide_views update_at
on_view_event (hide_slide_event i) v = on_hide_slide i v
on_view_event (show_slide_event i) v = show_slide_view i v
on_view_event force_presenter_mode_event v = on_force_presenter_mode v
on_view_event toggle_presenter_mode_event v = on_toggle_presenter_mode v
on_view_event toggle_help_event v = ok (toggle_mode help_mode v)
on_view_event toggle_blackout_event v = ok (toggle_mode blackout_mode v)
on_view_event toggle_mirrored_event v = ok (toggle_mode mirrored_mode v)
on_view_event hide_overlay_event v = ok (on_hide_overlay v)
on_view_event pause_event v = ok (toggle_mode pause_mode v)
on_view_event resume_event v = ok (toggle_mode pause_mode v)
on_view_event (slides_changed_event count current) v = update_slide_views count current v
on_view_event (fading_over n) v =
    ok (record v { slide_views = update_at n end_fading v.slide_views })

unfoldable pub on_view_events : List ViewEvent → View → Result View
unfolding on_view_event
on_view_events [] v = ok v
on_view_events (e ∷ es) v = on_view_event e v >>= on_view_events es
