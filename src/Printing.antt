-- ===== src/Printing.antt =====
-- Printing (`components/printing/printing.js`): the orientation and the size of the page. The size
-- that `styler.setPageSize` writes to the page rule of the style sheet is a field.
use analisis_de_protocolo_de.Prelude.{ℕ, Bool, Option, none, some, ◌++◌, if◌then◌else◌}
use analisis_de_protocolo_de.Prelude.Text.{Text, codes, text_eq}
use analisis_de_protocolo_de.Prelude.Number.{decimal}
use analisis_de_protocolo_de.Prelude.Result.{Result, ok, err, unknown_orientation, ◌>>=◌}

abbrev pub landscape : Text
landscape = codes "landscape"

abbrev pub portrait : Text
portrait = codes "portrait"

abbrev pub page_height : ℕ
page_height = 681

abbrev pub page_width : ℕ
page_width = 908

pub record Print : Type 0 where
  pub orientation : Text
  pub height : ℕ
  pub width : ℕ
  -- the `size` of the page rule
  pub page_size : Text

-- this._pageWidth + 'px ' + this._pageHeight + 'px'
unfoldable pub size_text : ℕ → ℕ → Text
unfolding decimal
size_text width height = decimal width ++ (codes "px " ++ (decimal height ++ codes "px"))

abbrev pub sized : Text → ℕ → ℕ → Print
sized orientation width height = record {
  orientation = orientation;
  height = height;
  width = width;
  page_size = size_text width height;
}

-- PrintComponent.prototype.setPageOrientation
unfoldable pub set_page_orientation : Text → Result Print
unfolding text_eq size_text
set_page_orientation orientation =
    if text_eq orientation portrait
    then ok (sized orientation page_height page_width)
    else if text_eq orientation landscape
    then ok (sized orientation page_width page_height)
    else err (unknown_orientation orientation)

-- PrintComponent.prototype.init: the component, and whether it listens to the media query, which depends on
-- `window.matchMedia`
unfoldable pub init : Bool → Result (Print × Bool)
unfolding set_page_orientation
init has_match_media = set_page_orientation landscape >>= λ p. ok (p, has_match_media)

pub record PrintEvent : Type 0 where
  pub is_portrait : Bool
  pub page_height : ℕ
  pub page_width : ℕ

-- PrintComponent.prototype.onPrint: the event `print`, if the media query matches
unfoldable pub on_print : Bool → Print → Option PrintEvent
unfolding text_eq
on_print matches p =
    if matches
    then some (record {
      is_portrait = text_eq p.orientation portrait;
      page_height = p.height;
      page_width = p.width;
    })
    else none
