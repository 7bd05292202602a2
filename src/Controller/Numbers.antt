-- ===== src/Controller/Numbers.antt =====
-- From the keys to the slide: a number that is typed, with the slides of `createSlides`.
use analisis_de_protocolo_de.Prelude.{
  ℕ, zero, suc, ◌≤◌, ◌≡◌, refl, Bool, ap, ◌∙◌, true, false, List, [], ◌∷◌,
}
use analisis_de_protocolo_de.Prelude.Text.{Text}
use analisis_de_protocolo_de.Prelude.Number.{int, parse_int}
use analisis_de_protocolo_de.Prelude.Int.{pos}
use analisis_de_protocolo_de.Slide.{Slide}
use analisis_de_protocolo_de.Slideshow.{Building}
use analisis_de_protocolo_de.Slideshow.Numbers.{numbered, IsNumbered}
use analisis_de_protocolo_de.Navigation.{Navigation, goto_number, run, all_digits}
use analisis_de_protocolo_de.Navigation.Moves.{goto_slide_number-first, run-goto_number}
use analisis_de_protocolo_de.Controller.{
  InputOptions, Controller, new_controller, pause_and_resume, resume, pause,
}
use analisis_de_protocolo_de.Controller.Listeners.{Emitter}
use analisis_de_protocolo_de.Controller.Keyboard.{Emitted, goto_numbered}
use analisis_de_protocolo_de.Controller.Bus.{commands_for}
use analisis_de_protocolo_de.Controller.Typing.{
  handle_all, typed, prevented, KeepsDigits, handle_all-typed, pause_and_resume-ReactsToKeys,
}

commands_for-prevented :
    (s : Text) (es : List Emitted) → commands_for (prevented s es) ≡ commands_for es
unfolding commands_for prevented
commands_for-prevented [] es = refl
commands_for-prevented (c ∷ s) es = commands_for-prevented s es

module _ (e : Emitter) where
  -- The digits are forgotten when the keyboard is activated.
  digits-pause_and_resume :
      (options : InputOptions) (k : ℕ) (c : Controller e)
      → c.digits ≡ []
      → (pause_and_resume e options k c).digits ≡ []
  unfolding pause_and_resume resume
  digits-pause_and_resume options zero c h = h
  digits-pause_and_resume options (suc k) c h =
      digits-pause_and_resume options k (resume e options (pause e c)) refl

  -- What is emitted when digits and Return are typed, however often the controller was paused and
  -- resumed before.
  emitted-typed :
      (low : Text → Text) (is_embedded : Bool) (options : InputOptions) (k c : ℕ) (s : Text)
      → KeepsDigits low
      → all_digits (c ∷ s) ≡ true
      → (handle_all e low
          (typed (c ∷ s))
          (pause_and_resume e options k (new_controller e is_embedded options))).1
        ≡ prevented (c ∷ s) (goto_numbered (c ∷ s) ∷ [])
  unfolding new_controller
  emitted-typed low is_embedded options k c s keeps a =
      let start = pause_and_resume e options k (new_controller e is_embedded options) in
      ap
        (λ (d : Text).
          (handle_all e low (typed (c ∷ s)) (record { digits = d; listeners = start.listeners })).1)
        (digits-pause_and_resume options k (new_controller e is_embedded options) refl)
      ∙ ap (λ (p : Controller e × List Emitted). p.1)
          (handle_all-typed e low start.listeners (c ∷ s) [] keeps
            (pause_and_resume-ReactsToKeys e low is_embedded options k) a refl)

  -- Typing the digits of a slide number that was given, and Return, moves the show to the first slide
  -- of that number, whatever slide it was on and however often the controller was paused and resumed
  -- before. The slides are numbered as `createSlides` does it, and `toLowerCase` keeps digits.
  pub typed-first :
      (low : Text → Text) (is_embedded : Bool) (options : InputOptions) (k : ℕ) (slides : Building)
      (n c : ℕ) (s : Text) (nav : Navigation)
      → KeepsDigits low
      → all_digits (c ∷ s) ≡ true
      → parse_int (c ∷ s) ≡ int (pos n)
      → IsNumbered slides.slides slides.by_number slides.slide_number
      → 1 ≤ n
      → n ≤ slides.slide_number
      → (v : Slide) × (r : List Slide) × (numbered n slides.slides ≡ v ∷ r)
        × ((run slides
              (commands_for
                (handle_all e low
                  (typed (c ∷ s))
                  (pause_and_resume e options k (new_controller e is_embedded options))).1)
              nav).0.current_slide_index
            ≡ int (pos v.index))
  typed-first low is_embedded options k slides n c s nav keeps a same_number numbers l u =
      let (v, r, p, same, bound, at) =
        goto_slide_number-first slides n (c ∷ s) false nav numbers same_number l u in
      let commands : commands_for
            (handle_all e low (typed (c ∷ s))
              (pause_and_resume e options k (new_controller e is_embedded options))).1
          ≡ goto_number (c ∷ s) false ∷ [] =
        ap commands_for (emitted-typed low is_embedded options k c s keeps a)
        ∙ commands_for-prevented (c ∷ s) (goto_numbered (c ∷ s) ∷ [])
        ∙ (unfold commands_for in refl) in
      (
        v,
        r,
        p,
        ap (λ cs. (run slides cs nav).0.current_slide_index) commands
            ∙ (ap (λ (m : Navigation). m.current_slide_index)
                  (run-goto_number slides (c ∷ s) false nav)
                ∙ at),
      )
