-- ===== src/Controller/Typing.antt =====
-- A slide number that is typed at the keyboard: digits, then Return.
use analisis_de_protocolo_de.Prelude.{
  ℕ, ◌%◌, ◌≡◌, refl, Bool, ap, ◌∙◌, true, false, List, [], ◌∷◌, ◌++◌, arith, append-nil,
  append_assoc, Bool-cases, inl, inr, is_empty,
}
use analisis_de_protocolo_de.Prelude.Text.{Text, contains}
use analisis_de_protocolo_de.Prelude.Number.{is_digit}
use analisis_de_protocolo_de.Controller.{
  Input, keydown, keypress, InputOptions, Controller, new_controller, pause_and_resume, handle,
  dispatch, react, repeated,
}
use analisis_de_protocolo_de.Controller.Listeners.{
  keydown_event, keypress_event, same_name, Emitter,
}
use analisis_de_protocolo_de.Controller.Removals.{resumed}
use analisis_de_protocolo_de.Controller.Pausing.{dispatch-resumed}
use analisis_de_protocolo_de.Navigation.{all_digits}
use analisis_de_protocolo_de.Controller.Keyboard.{
  Emitted, Modifiers, prevent_default, goto_numbered, on_keydown, on_keypress,
}

abbrev no_modifiers : Modifiers
no_modifiers = record { meta = false; ctrl = false; alt = false; shift = false }

-- The inputs of a text that is typed, and the Return key.
unfoldable pub typed : Text → List Input
typed [] = keydown no_modifiers 13 ∷ []
typed (c ∷ s) = keypress no_modifiers c ∷ typed s

-- Inputs one after the other.
unfoldable pub handle_all :
    (e : Emitter) → (Text → Text) → List Input → Controller e → Controller e × List Emitted
handle_all e low [] c = (c, [])
handle_all e low (i ∷ is) c =
    let (c', emitted) = handle e low i c in
    let (c'', further) = handle_all e low is c' in (c'', emitted ++ further)

unfoldable pub prevented : Text → List Emitted → List Emitted
prevented [] es = es
prevented (c ∷ s) es = prevent_default ∷ prevented s es

-- `toLowerCase` leaves digits as they are.
abbrev pub KeepsDigits : (Text → Text) → Type 0
KeepsDigits low = (c : ℕ) → is_digit c ≡ true → low (c ∷ []) ≡ c ∷ []

-- A digit is added to those before.
on_keypress-digit :
    (low : Text → Text) (c : ℕ) (digits : Text)
    → KeepsDigits low
    → is_digit c ≡ true
    → on_keypress low no_modifiers c digits ≡ (digits ++ c ∷ [], prevent_default ∷ [])
unfolding on_keypress
on_keypress-digit low c digits k h =
    let small : c % 0x10000 ≡ c = ground arith in rw (small, k c h, h) refl

once :
    (low : Text → Text) (i : Input) (digits : Text) → repeated low i 1 digits ≡ react low i digits
unfolding repeated
once low i digits = rw (append-nil (react low i digits).1) refl

-- The keyboard has one listener for each of its events.
one_keydown : (options : InputOptions) → resumed options keydown_event ≡ 1
unfolding resumed same_name
one_keydown options = ground arith

one_keypress : (options : InputOptions) → resumed options keypress_event ≡ 1
unfolding resumed same_name
one_keypress options = ground arith

module _ (e : Emitter) where
  -- What the listeners for the keyboard's events do.
  abbrev ReactsToKeys : (Text → Text) → e.Registry → Type 0
  ReactsToKeys low r =
      (m : Modifiers) (x : ℕ) (digits : Text)
      → (dispatch e low (keydown m x) r digits ≡ react low (keydown m x) digits)
        × (dispatch e low (keypress m x) r digits ≡ react low (keypress m x) digits)

  pub pause_and_resume-ReactsToKeys :
      (low : Text → Text) (is_embedded : Bool) (options : InputOptions) (k : ℕ)
      → ReactsToKeys low
          (pause_and_resume e options k (new_controller e is_embedded options)).listeners
  unfolding same_name
  pause_and_resume-ReactsToKeys low is_embedded options k m x digits = (
    dispatch-resumed e low is_embedded options k (keydown m x) digits refl
        ∙ ap (λ n. repeated low (keydown m x) n digits) (one_keydown options)
        ∙ once low (keydown m x) digits,
    dispatch-resumed e low is_embedded options k (keypress m x) digits refl
        ∙ ap (λ n. repeated low (keypress m x) n digits) (one_keypress options)
        ∙ once low (keypress m x) digits,
  )

  pub handle_all-typed :
      (low : Text → Text) (ls : e.Registry) (s digits : Text)
      → KeepsDigits low
      → ReactsToKeys low ls
      → all_digits s ≡ true
      → is_empty (digits ++ s) ≡ false
      → handle_all e low (typed s) (record { digits = digits; listeners = ls })
        ≡ (record { digits = []; listeners = ls }, prevented s (goto_numbered (digits ++ s) ∷ []))
  unfolding handle_all handle react on_keydown contains typed prevented all_digits
  handle_all-typed low ls [] [] k r a h = cc
  handle_all-typed low ls [] (c ∷ s) k r a h = rw ((r no_modifiers 13 (c ∷ s)).0, append-nil s) refl
  handle_all-typed low ls (c ∷ s) digits k r a h = elim (Bool-cases (is_digit c)) [
    | inl u ↦
        let e = (r no_modifiers c digits).1 ∙ on_keypress-digit low c digits k u in
        let ih = handle_all-typed low ls s (digits ++ c ∷ []) k r (rw u at a) (not_empty digits) in
        rw (e, ih, append_assoc digits (c ∷ []) s) refl
    | inr u ↦ absurd (cc (rw u at a))
  ]
    where
      not_empty : (t : Text) → is_empty ((t ++ c ∷ []) ++ s) ≡ false
      not_empty [] = refl
      not_empty (b ∷ t) = refl
