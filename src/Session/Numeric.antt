-- ===== src/Session/Numeric.antt =====
-- What the inputs and messages of a show come to: commands whose targets are not NaN.
use analisis_de_protocolo_de.Prelude.{
  false, ◌≡◌, subst, true, All, Bool-cases, inl, inr, drop, take, ◌&&◌, arith,
}
use analisis_de_protocolo_de.Prelude.Text.{Text, text_eq, codes}
use analisis_de_protocolo_de.Navigation.{Target, slide_no, slide_name, Command, is_digits}
use analisis_de_protocolo_de.Navigation.Numeric.{parse_int-digits, IsNumeric, IsNumericCommand}
use analisis_de_protocolo_de.Macros.{Inherited}
use analisis_de_protocolo_de.View.Quiet.{IsQuiet}
use analisis_de_protocolo_de.Controller.Keyboard.{
  Emitted, goto_previous_slide, goto_next_slide, goto_first_slide, goto_last_slide, goto_numbered,
}
use analisis_de_protocolo_de.Controller.Bus.{command_for}
use analisis_de_protocolo_de.Controller.Location.{hash_target, navigate_by_message, received}
use analisis_de_protocolo_de.Session.Events.{PageEvent, hash_change, view_listens}

-- A target that is not NaN, and no name that every object inherits.
abbrev pub IsPlain : Inherited → Target → Type 0
IsPlain inherited (slide_no n) = IsNumeric (slide_no n)
IsPlain inherited (slide_name t) = IsNumeric (slide_name t) × (inherited.is_name t ≡ false)

-- Of the page's events only a location hash can name a slide that is NaN, or is inherited.
abbrev pub IsPlainEvent : Inherited → PageEvent → Type 0
IsPlainEvent inherited (hash_change hash) = IsPlain inherited (hash_target hash)
IsPlainEvent inherited event = Unit

pub command_for-numeric : (event : Emitted) → All IsNumericCommand (command_for event)
unfolding command_for
command_for-numeric goto_previous_slide = (tt, tt)
command_for-numeric goto_next_slide = (tt, tt)
command_for-numeric goto_first_slide = (tt, tt)
command_for-numeric goto_last_slide = (tt, tt)
command_for-numeric (goto_numbered t) = (tt, tt)
command_for-numeric Emitted.create_clone = (tt, tt)
command_for-numeric Emitted.reset_timer = (tt, tt)
command_for-numeric Emitted.hide_overlay = tt
command_for-numeric Emitted.toggle_blackout = tt
command_for-numeric Emitted.toggle_mirrored = tt
command_for-numeric Emitted.toggle_presenter_mode = tt
command_for-numeric Emitted.toggle_fullscreen = tt
command_for-numeric Emitted.toggle_timer = tt
command_for-numeric Emitted.toggle_help = tt
command_for-numeric Emitted.prevent_default = tt

pub view_listens-IsQuiet : (event : Emitted) → All IsQuiet (view_listens event)
unfolding view_listens
view_listens-IsQuiet goto_previous_slide = tt
view_listens-IsQuiet goto_next_slide = tt
view_listens-IsQuiet goto_first_slide = tt
view_listens-IsQuiet goto_last_slide = tt
view_listens-IsQuiet (goto_numbered t) = tt
view_listens-IsQuiet Emitted.create_clone = tt
view_listens-IsQuiet Emitted.reset_timer = tt
view_listens-IsQuiet Emitted.hide_overlay = (tt, tt)
view_listens-IsQuiet Emitted.toggle_blackout = (tt, tt)
view_listens-IsQuiet Emitted.toggle_mirrored = (tt, tt)
view_listens-IsQuiet Emitted.toggle_presenter_mode = (tt, tt)
view_listens-IsQuiet Emitted.toggle_fullscreen = tt
view_listens-IsQuiet Emitted.toggle_timer = tt
view_listens-IsQuiet Emitted.toggle_help = (tt, tt)
view_listens-IsQuiet Emitted.prevent_default = tt

-- A message leads to a number.
pub received-numeric :
    (text : Text) (c : Command) → navigate_by_message text ≡ received c → IsNumericCommand c
unfolding navigate_by_message
received-numeric text c h =
    elim (Bool-cases (text_eq (take 10 text) (codes "gotoSlide:") && is_digits (drop 10 text))) [
      | inl u ↦
          let d : is_digits (drop 10 text) ≡ true = ground (arith, u) in
          subst IsNumericCommand (eq_of_received (rw u at h)) (parse_int-digits (drop 10 text) d)
      | inr u ↦ elim (Bool-cases (text_eq text (codes "toggleBlackout"))) [
        | inl v ↦ absurd (cc (rw (u, v) at h))
        | inr v ↦ absurd (cc (rw (u, v) at h))
      ]
    ]
  where
    eq_of_received : {a b : Command} → received a ≡ received b → a ≡ b
    eq_of_received e = cc
