-- ===== src/View/Switches.antt =====
-- The modes of the view as switches, and what adding and removing a class does to them.
use analisis_de_protocolo_de.Prelude.{
  ℕ, ◌≤◌, ◌≡◌, refl, ◌∙◌, Bool, true, not, ◌&&◌, List, [], ◌∷◌, if◌then◌else◌, ◌==◌, arith,
  Bool-cases, inl, inr, subst,
}
use analisis_de_protocolo_de.Prelude.Text.{Text, text_eq, text_eq_iff, contains}
use analisis_de_protocolo_de.ClassList.{has_class, get_classes, toggle_class, remove_class}
use analisis_de_protocolo_de.ClassList.Split.{IsClass}
use analisis_de_protocolo_de.ClassList.Laws.{
  has_class-toggle_class, has_class-remove_class, occurs, occurs-toggle_class,
  occurs-remove_class-le,
}
use analisis_de_protocolo_de.View.{
  presenter_mode, help_mode, blackout_mode, mirrored_mode, pause_mode, ViewEvent, hide_slide_event,
  show_slide_event, force_presenter_mode_event, toggle_presenter_mode_event, toggle_help_event,
  toggle_blackout_event, toggle_mirrored_event, hide_overlay_event, pause_event, resume_event,
  slides_changed_event, fading_over,
}

pub data Mode : Type 0 where
  presenter help blackout mirrored pause : Mode

abbrev pub mode_class : Mode → Text
mode_class presenter = presenter_mode
mode_class help = help_mode
mode_class blackout = blackout_mode
mode_class mirrored = mirrored_mode
mode_class pause = pause_mode

abbrev order : Mode → ℕ
order presenter = 0
order help = 1
order blackout = 2
order mirrored = 3
order pause = 4

abbrev pub same_mode : Mode → Mode → Bool
same_mode a b = order a == order b

text_eq-mode_class : (a b : Mode) → text_eq (mode_class a) (mode_class b) ≡ same_mode a b
unfolding text_eq
text_eq-mode_class presenter presenter = refl
text_eq-mode_class presenter help = refl
text_eq-mode_class presenter blackout = refl
text_eq-mode_class presenter mirrored = refl
text_eq-mode_class presenter pause = refl
text_eq-mode_class help presenter = refl
text_eq-mode_class help help = refl
text_eq-mode_class help blackout = refl
text_eq-mode_class help mirrored = refl
text_eq-mode_class help pause = refl
text_eq-mode_class blackout presenter = refl
text_eq-mode_class blackout help = refl
text_eq-mode_class blackout blackout = refl
text_eq-mode_class blackout mirrored = refl
text_eq-mode_class blackout pause = refl
text_eq-mode_class mirrored presenter = refl
text_eq-mode_class mirrored help = refl
text_eq-mode_class mirrored blackout = refl
text_eq-mode_class mirrored mirrored = refl
text_eq-mode_class mirrored pause = refl
text_eq-mode_class pause presenter = refl
text_eq-mode_class pause help = refl
text_eq-mode_class pause blackout = refl
text_eq-mode_class pause mirrored = refl
text_eq-mode_class pause pause = refl

mode_class-IsClass : (m : Mode) → IsClass (mode_class m)
unfolding contains
mode_class-IsClass presenter = record { some_unit = refl; no_space = refl }
mode_class-IsClass help = record { some_unit = refl; no_space = refl }
mode_class-IsClass blackout = record { some_unit = refl; no_space = refl }
mode_class-IsClass mirrored = record { some_unit = refl; no_space = refl }
mode_class-IsClass pause = record { some_unit = refl; no_space = refl }

-- A switch for each mode.
abbrev pub Switches : Type 0
Switches = Mode → Bool

abbrev pub switched : Mode → Switches → Switches
switched a s m = if same_mode a m then not (s m) else s m

abbrev pub turned_off : Mode → Switches → Switches
turned_off a s m = s m && not (same_mode a m)

abbrev pub turned_on : Mode → Switches → Switches
turned_on a s m = if same_mode a m then true else s m

-- What an event does to the switches.
unfoldable pub switch_event : ViewEvent → Switches → Switches
switch_event (hide_slide_event i) s = s
switch_event (show_slide_event i) s = s
switch_event force_presenter_mode_event s = turned_on presenter s
switch_event toggle_presenter_mode_event s = switched presenter s
switch_event toggle_help_event s = switched help s
switch_event toggle_blackout_event s = switched blackout s
switch_event toggle_mirrored_event s = switched mirrored s
switch_event hide_overlay_event s = turned_off help (turned_off blackout s)
switch_event pause_event s = switched pause s
switch_event resume_event s = switched pause s
switch_event (slides_changed_event count current) s = s
switch_event (fading_over n) s = s

unfoldable pub switch_events : List ViewEvent → Switches → Switches
switch_events [] s = s
switch_events (e ∷ es) s = switch_events es (switch_event e s)

-- The container has the class of exactly the modes that are switched on, each once.
abbrev pub HasModes : Switches → Text → Type 0
HasModes s container =
    (m : Mode)
    → (has_class container (mode_class m) ≡ s m)
      × (occurs (mode_class m) (get_classes container) ≤ 1)

pub toggle-HasModes :
    (a : Mode) (s : Switches) (c : Text)
    → HasModes s c
    → HasModes (switched a s) (toggle_class c (mode_class a))
toggle-HasModes a s c h m =
    let t = has_class-toggle_class c (mode_class a) (mode_class m) (mode_class-IsClass a) (h a).1 in
    let e = text_eq-mode_class a m in (t.0 ∙ rw (e, (h m).0) refl, once (same_mode a m) e)
  where
    once :
        (b : Bool)
        → text_eq (mode_class a) (mode_class m) ≡ b
        → occurs (mode_class m) (get_classes (toggle_class c (mode_class a))) ≤ 1
    once b e = elim (Bool-cases (text_eq (mode_class a) (mode_class m))) [
      | inl u ↦
          let p : mode_class a ≡ mode_class m = (text_eq_iff (mode_class a) (mode_class m)).0 u in
          subst (λ d. occurs d (get_classes (toggle_class c (mode_class a))) ≤ 1) p
            (has_class-toggle_class c (mode_class a) (mode_class a) (mode_class-IsClass a)
              (h a).1).1
      | inr u ↦
          rw (occurs-toggle_class c (mode_class a) (mode_class m) (mode_class-IsClass a) u) (h m).1
    ]

pub remove-HasModes :
    (a : Mode) (s : Switches) (c : Text)
    → HasModes s c
    → HasModes (turned_off a s) (remove_class c (mode_class a))
remove-HasModes a s c h m =
    let e = text_eq-mode_class a m in
    let le = occurs-remove_class-le c (mode_class a) (mode_class m) in
    let once = (h m).1 in
    (has_class-remove_class c (mode_class a) (mode_class m) ∙ rw (e, (h m).0) refl, omega arith)
