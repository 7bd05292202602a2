-- ===== src/Navigation.antt =====
-- Moving between slides (module 21 of the bundle, `models/slideshow/navigation.js`). The events that
-- an operation emits, and the messages that it posts, are its trace; the listeners return (a
-- listener that gets the index of a slide does).
pub mod Range
pub mod Numeric
pub mod Runs
pub mod Starts
pub mod Moves
pub mod Messages
pub mod Posts
pub mod Tests
use analisis_de_protocolo_de.Prelude.{
  ℕ, zero, suc, ◌+◌, ◌-◌, Bool, true, false, ◌&&◌, not, Option, none, some, List, [], ◌∷◌, ◌++◌,
  ltb, ◌==◌, if◌then◌else◌, length,
}
use analisis_de_protocolo_de.Prelude.Text.{Text, codes, text_eq}
use analisis_de_protocolo_de.Prelude.Int.{ℤ, pos, negsuc}
use analisis_de_protocolo_de.Prelude.Number.{
  Number, nan, int, plus_one, minus_one, is_same, is_digit, parse_int, to_string,
}
use analisis_de_protocolo_de.Prelude.Dict.{get}
use analisis_de_protocolo_de.Slide.{Slide}
use analisis_de_protocolo_de.Slideshow.{Building, get_number}

-- `started`: null, false, true
pub data Started : Type 0 where
  not_shown : Started
  shown : Started
  moved : Started

-- `self.clone`: undefined, an open window, a closed one
pub data Clone : Type 0 where
  no_clone : Clone
  open_clone : Clone
  closed_clone : Clone

pub record Navigation : Type 0 where
  pub current_slide_index : Number
  pub started : Started
  pub clone : Clone
  -- whether there is a `window.opener`
  pub opener : Bool

abbrev pub start_navigation : Bool → Navigation
start_navigation opener = record {
  current_slide_index = int (negsuc 0);
  started = not_shown;
  clone = no_clone;
  opener = opener;
}

pub data Event : Type 0 where
  hide_slide : Number → Event
  start : Event
  show_slide : Number → Event
  slide_changed : Number → Event
  force_presenter_mode : Event
  -- postMessage('gotoSlide:' + …) to the clone and to the opener
  post_to_clone : Number → Event
  post_to_opener : Number → Event
  -- window.open, and clone.focus
  open_window : Event
  focus_clone : Event

-- slideIndex < 0 || slideIndex > self.getSlideCount() - 1
pub slide_out_of_range : ℕ → Number → Bool
slide_out_of_range count nan = false
slide_out_of_range count (int (pos n)) = not (ltb n count)
slide_out_of_range count (int (negsuc n)) = true

abbrev is_open : Clone → Bool
is_open no_clone = false
is_open open_clone = true
is_open closed_clone = false

-- the event `hideSlide`, where a slide is shown
pub hide_events : Number → List Event
hide_events i = if not (is_same i (int (negsuc 0))) then hide_slide i ∷ [] else []

-- the tri-state logic
pub next_started : Started → Started
next_started not_shown = shown
next_started shown = moved
next_started moved = moved

pub start_events : Started → List Event
start_events not_shown = []
start_events shown = start ∷ []
start_events moved = []

unfoldable pub messages : Bool → Navigation → Number → List Event
messages no_message nav i =
    if no_message
    then []
    else (if is_open nav.clone then post_to_clone (plus_one i) ∷ [] else [])
      ++ (if nav.opener then post_to_opener (plus_one i) ∷ [] else [])

-- gotoSlideByIndex
pub goto_slide_by_index : ℕ → Number → Bool → Navigation → Navigation × List Event
goto_slide_by_index count i no_message nav =
    if is_same i nav.current_slide_index
    then (nav, [])
    else if slide_out_of_range count i
    then (nav, [])
    else (
      record nav { current_slide_index = i; started = next_started nav.started },
      hide_events nav.current_slide_index
          ++ (start_events nav.started
              ++ (show_slide i ∷ slide_changed (plus_one i) ∷ messages no_message nav i)),
    )

-- slideNoOrName
pub data Target : Type 0 where
  slide_no : Number → Target
  slide_name : Text → Target

unfoldable pub all_digits : Text → Bool
all_digits [] = true
all_digits (c ∷ s) = is_digit c && all_digits s

-- whether a text is one digit or more, `\d+`
unfoldable pub is_digits : Text → Bool
is_digits [] = false
is_digits (c ∷ s) = all_digits (c ∷ s)

-- slideNoOrName.match(/^p\d+$/)
unfoldable pub is_presenter_name : Text → Bool
is_presenter_name [] = false
is_presenter_name (c ∷ s) = c == b'p' && is_digits s

abbrev tail : Text → Text
tail [] = []
tail (c ∷ s) = s

-- getSlideIndex, with the event that it emits. The error where `byName` has the name only because every
-- object inherits it is `finds_inherited` in Session, which comes before it there.
unfoldable pub get_slide_index : Building → Target → Number × List Event
get_slide_index slides (slide_no n) = (minus_one n, [])
get_slide_index slides (slide_name t) =
    if text_eq (to_string (parse_int t)) t
    then (minus_one (parse_int t), [])
    else if is_presenter_name t
    then (minus_one (parse_int (tail t)), force_presenter_mode ∷ [])
    else elim (get t slides.by_name) [ some s ↦ (int (pos s.index), []) | none ↦ (int (pos 0), []) ]

-- self.getSlidesByNumber(n)
pub get_slides_by_number : Building → Number → Option (List Slide)
get_slides_by_number slides nan = none
get_slides_by_number slides (int (pos n)) = get_number n slides.by_number
get_slides_by_number slides (int (negsuc n)) = none

-- self.getSlideCount()
abbrev pub get_slide_count : Building → ℕ
get_slide_count slides = length slides.slides

unfoldable pub goto_slide : Building → Target → Bool → Navigation → Navigation × List Event
goto_slide slides target no_message nav =
    let (i, before) = get_slide_index slides target in
    let (nav', after) = goto_slide_by_index (get_slide_count slides) i no_message nav in
    (nav', before ++ after)

-- gotoSlideNumber; its argument is a text from the keyboard
pub goto_slide_number : Building → Text → Bool → Navigation → Navigation × List Event
goto_slide_number slides n no_message nav = elim (get_slides_by_number slides (parse_int n)) [
  | none ↦ (nav, [])
  | some ss ↦ elim ss [
    | [] ↦ (nav, [])
    | s ∷ r ↦ goto_slide_by_index (get_slide_count slides) (int (pos s.index)) no_message nav
  ]
]

-- The index of the last slide, getSlideCount() - 1.
abbrev pub last_index : ℕ → Number
last_index zero = int (negsuc 0)
last_index (suc n) = int (pos n)

-- What the listeners of the slide show do: the events that they are registered for.
pub data Command : Type 0 where
  goto : Target → Bool → Command
  goto_number : Text → Bool → Command
  previous next first last : Command
  create_clone reset_timer : Command

abbrev go : Building → Number → Navigation → Navigation × List Event
go slides i nav = goto_slide_by_index (get_slide_count slides) i false nav

unfoldable pub perform : Building → Command → Navigation → Navigation × List Event
perform slides (goto target no_message) nav = goto_slide slides target no_message nav
perform slides (goto_number n no_message) nav = goto_slide_number slides n no_message nav
perform slides previous nav = go slides (minus_one nav.current_slide_index) nav
perform slides next nav = go slides (plus_one nav.current_slide_index) nav
perform slides first nav = go slides (int (pos 0)) nav
perform slides last nav = go slides (last_index (get_slide_count slides)) nav
perform slides create_clone nav =
    if is_open nav.clone
    then (nav, focus_clone ∷ [])
    else (record nav { clone = open_clone }, open_window ∷ [])
perform slides reset_timer nav = (record nav { started = shown }, [])

-- A run of commands, with all that they emit.
unfoldable pub run : Building → List Command → Navigation → Navigation × List Event
run slides [] nav = (nav, [])
run slides (c ∷ cs) nav =
    let (nav', events) = perform slides c nav in
    let (nav'', further) = run slides cs nav' in (nav'', events ++ further)

-- The listener of `slidesChanged`, with the new number of slides.
pub slides_changed : ℕ → Navigation → Navigation
slides_changed count nav = elim nav.current_slide_index [
  | nan ↦ nav
  | int x ↦ elim x [
    | pos n ↦ if ltb count n then record nav { current_slide_index = int (pos count) } else nav
    | negsuc n ↦ nav
  ]
]
