-- ===== src/View/Windows.antt =====
-- A show in two windows, the main one and its clone: how blacking out in one reaches the other (the listener
-- of `toggleBlackout` in `models/slideshow.js`, that of the view, and the messages).
use analisis_de_protocolo_de.Prelude.{
  ◌≤◌, ◌≡◌, refl, ap₂, ◌∙◌, Bool, true, false, not, List, [], ◌∷◌, ◌++◌, if◌then◌else◌,
}
use analisis_de_protocolo_de.Prelude.Text.{Text, codes, text_eq, contains}
use analisis_de_protocolo_de.ClassList.{has_class, get_classes}
use analisis_de_protocolo_de.ClassList.Split.{IsClass}
use analisis_de_protocolo_de.ClassList.Laws.{occurs, has_class-toggle_class}
use analisis_de_protocolo_de.Controller.Location.{
  received, received_toggle_blackout, nothing, navigate_by_message,
}
use analisis_de_protocolo_de.View.{View, toggle_mode, blackout_mode}

-- The view, whether `self.clone` is open, and whether there is `window.opener`.
pub record Window : Type 0 where
  pub view : View
  pub has_clone : Bool
  pub has_opener : Bool

pub data Posted : Type 0 where
  to_clone to_opener : Text → Posted

abbrev pub blackout_message : Text
blackout_message = codes "toggleBlackout"

-- What the show posts on `toggleBlackout`, unless `opts.propagate` is false.
unfoldable pub post_blackout : Bool → Window → List Posted
post_blackout propagate w =
    if not propagate
    then []
    else (if w.has_clone then to_clone blackout_message ∷ [] else [])
      ++ (if w.has_opener then to_opener blackout_message ∷ [] else [])

-- The event `toggleBlackout` in a window.
unfoldable pub toggle_blackout : Bool → Window → Window × List Posted
unfolding post_blackout toggle_mode
toggle_blackout propagate w =
    (record w { view = toggle_mode blackout_mode w.view }, post_blackout propagate w)

-- A message from the other window; one that moves the show is navigation's.
unfoldable pub receive : Text → Window → Window × List Posted
unfolding navigate_by_message toggle_blackout
receive message w = elim (navigate_by_message message) [
  | received c ↦ (w, [])
  | received_toggle_blackout ↦ toggle_blackout false w
  | nothing ↦ (w, [])
]

pub record Windows : Type 0 where
  pub main : Window
  pub clone : Window

-- Messages of the main window reach its clone, those of the clone its opener; the result has what was
-- posted in reply.
unfoldable pub from_main : List Posted → Windows → Windows × List Posted
unfolding receive
from_main [] ws = (ws, [])
from_main (to_opener t ∷ ps) ws = from_main ps ws
from_main (to_clone t ∷ ps) ws =
    let (w, replies) = receive t ws.clone in
    let (ws', further) = from_main ps (record ws { clone = w }) in (ws', replies ++ further)

unfoldable pub from_clone : List Posted → Windows → Windows × List Posted
unfolding receive
from_clone [] ws = (ws, [])
from_clone (to_clone t ∷ ps) ws = from_clone ps ws
from_clone (to_opener t ∷ ps) ws =
    let (w, replies) = receive t ws.main in
    let (ws', further) = from_clone ps (record ws { main = w }) in (ws', replies ++ further)

pub data Side : Type 0 where
  in_main in_clone : Side

-- The user toggles the blackout in one of the windows, and the messages arrive.
unfoldable pub toggle_in : Side → Windows → Windows × List Posted
unfolding toggle_blackout from_main from_clone
toggle_in in_main ws =
    let (w, posted) = toggle_blackout true ws.main in from_main posted (record ws { main = w })
toggle_in in_clone ws =
    let (w, posted) = toggle_blackout true ws.clone in from_clone posted (record ws { clone = w })

unfoldable pub toggle_all : List Side → Windows → Windows × List Posted
unfolding toggle_in
toggle_all [] ws = (ws, [])
toggle_all (side ∷ sides) ws =
    let (ws', replies) = toggle_in side ws in
    let (ws'', further) = toggle_all sides ws' in (ws'', replies ++ further)

abbrev pub is_blacked_out : Window → Bool
is_blacked_out w = has_class w.view.container blackout_mode

-- The windows know each other, and the class of blackouts is there at most once in each.
pub record IsConnected (ws : Windows) : Type 0 where
  pub has_clone : ws.main.has_clone ≡ true
  pub no_clone : ws.clone.has_clone ≡ false
  pub has_opener : ws.clone.has_opener ≡ true
  pub no_opener : ws.main.has_opener ≡ false
  pub once_in_main : occurs blackout_mode (get_classes ws.main.view.container) ≤ 1
  pub once_in_clone : occurs blackout_mode (get_classes ws.clone.view.container) ≤ 1

abbrev both_toggled : Windows → Windows
both_toggled ws = record {
  main = record (ws.main) { view = toggle_mode blackout_mode ws.main.view };
  clone = record (ws.clone) { view = toggle_mode blackout_mode ws.clone.view };
}

-- In whichever window, a toggle toggles both, and no message is posted in reply.
toggle_in-both :
    (side : Side) (ws : Windows) → IsConnected ws → toggle_in side ws ≡ (both_toggled ws, [])
unfolding toggle_in text_eq
toggle_in-both in_main ws h = rw (h.has_clone, h.no_opener) refl
toggle_in-both in_clone ws h = rw (h.no_clone, h.has_opener) refl

blackout_mode-IsClass : IsClass blackout_mode
unfolding contains
blackout_mode-IsClass = record { some_unit = refl; no_space = refl }

toggle_blackout_mode :
    (v : View)
    → occurs blackout_mode (get_classes v.container) ≤ 1
    → (has_class (toggle_mode blackout_mode v).container blackout_mode
        ≡ not (has_class v.container blackout_mode))
      × (occurs blackout_mode (get_classes (toggle_mode blackout_mode v).container) ≤ 1)
unfolding toggle_mode text_eq
toggle_blackout_mode v h =
    has_class-toggle_class v.container blackout_mode blackout_mode blackout_mode-IsClass h

abbrev pub differ : Bool → Bool → Bool
differ true b = not b
differ false b = b

differ-not : (a b : Bool) → differ (not a) (not b) ≡ differ a b
differ-not true true = refl
differ-not true false = refl
differ-not false true = refl
differ-not false false = refl

both_toggled-IsConnected : (ws : Windows) → IsConnected ws → IsConnected (both_toggled ws)
both_toggled-IsConnected ws h = record {
  has_clone = h.has_clone;
  no_clone = h.no_clone;
  has_opener = h.has_opener;
  no_opener = h.no_opener;
  once_in_main = (toggle_blackout_mode ws.main.view h.once_in_main).1;
  once_in_clone = (toggle_blackout_mode ws.clone.view h.once_in_clone).1;
}

-- Blackouts that are toggled in a show and its clone, in whichever of the two each time, post no message
-- in reply to one, and leave the two as they were to each other: if both were blacked out or neither was,
-- that stays so, and if just one was, then just one is from then on.
pub toggle_all-differ :
    (sides : List Side) (ws : Windows)
    → IsConnected ws
    → ((toggle_all sides ws).1 ≡ [])
      × IsConnected (toggle_all sides ws).0
      × (differ
            (is_blacked_out (toggle_all sides ws).0.main)
            (is_blacked_out (toggle_all sides ws).0.clone)
          ≡ differ (is_blacked_out ws.main) (is_blacked_out ws.clone))
unfolding toggle_all
toggle_all-differ [] ws h = (refl, h, refl)
toggle_all-differ (side ∷ sides) ws h =
    let (none_left, connected, same) =
      toggle_all-differ sides (both_toggled ws) (both_toggled-IsConnected ws h) in
    rw (toggle_in-both side ws h) (
      none_left,
      connected,
      same
          ∙ ap₂ differ (toggle_blackout_mode ws.main.view h.once_in_main).0
              (toggle_blackout_mode ws.clone.view h.once_in_clone).0
          ∙ differ-not (is_blacked_out ws.main) (is_blacked_out ws.clone),
    )
