-- ===== src/Controller/Location.antt =====
-- The location hash and the messages of another window (modules 9 and 10 of the bundle,
-- `controllers/inputs/location.js` and `message.js`), of a show that is not
-- embedded, and the first command of either kind of show.
use analisis_de_protocolo_de.Prelude.{Bool, true, false, ◌++◌, ◌&&◌, if◌then◌else◌, drop, take}
use analisis_de_protocolo_de.Prelude.Text.{Text, codes, text_eq}
use analisis_de_protocolo_de.Prelude.Number.{Number, int, parse_int, to_string}
use analisis_de_protocolo_de.Prelude.Int.{pos}
use analisis_de_protocolo_de.Navigation.{Target, Command, goto, slide_no, slide_name, is_digits}

-- The hash that `updateHash` sets, in presenter mode or not.
unfoldable pub update_hash : Bool → Number → Text
update_hash presenter slide_number =
    (if presenter then codes "#p" else codes "#") ++ to_string slide_number

-- The slide that `navigateByHash` names, of the hash, and the command that it gives.
abbrev pub hash_target : Text → Target
hash_target hash = slide_name (drop 1 hash)

unfoldable pub navigate_by_hash : Text → Command
navigate_by_hash hash = goto (hash_target hash) false

-- The first command, from `addLocationEventListeners`: an embedded show starts at its first slide.
abbrev pub first_target : Bool → Text → Target
first_target is_embedded hash = if is_embedded then slide_no (int (pos 1)) else hash_target hash

unfoldable pub first_command : Bool → Text → Command
unfolding navigate_by_hash
first_command is_embedded hash =
    if is_embedded then goto (slide_no (int (pos 1))) false else navigate_by_hash hash

-- The data of the message that navigation posts: 'gotoSlide:' + slide number.
unfoldable pub message_text : Number → Text
message_text slide_number = codes "gotoSlide:" ++ to_string slide_number

-- What `navigateByMessage` emits.
pub data Received : Type 0 where
  received : Command → Received
  received_toggle_blackout : Received
  nothing : Received

-- navigateByMessage, with /^gotoSlide:(\d+)$/
unfoldable pub navigate_by_message : Text → Received
unfolding text_eq
navigate_by_message message =
    if text_eq (take 10 message) (codes "gotoSlide:") && is_digits (drop 10 message)
    then received (goto (slide_no (parse_int (drop 10 message))) true)
    else if text_eq message (codes "toggleBlackout")
    then received_toggle_blackout
    else nothing
