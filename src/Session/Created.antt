-- ===== src/Session/Created.antt =====
-- From the source to the page (`create` of `api.js`): how a show is made, and what happens to it then.
use analisis_de_protocolo_de.Prelude.{◌≡◌, Option, List, ◌⊎◌}
use analisis_de_protocolo_de.Prelude.Text.{Text}
use analisis_de_protocolo_de.Prelude.Number.{Number}
use analisis_de_protocolo_de.Prelude.Result.{Result, Error, ok, err, ◌>>=◌}
use analisis_de_protocolo_de.Macros.{macros}
use analisis_de_protocolo_de.Slideshow.Loading.{Show, load_from_string}
use analisis_de_protocolo_de.Slideshow.Loaded.{LoadError}
use analisis_de_protocolo_de.View.{View}
use analisis_de_protocolo_de.Controller.Listeners.{Emitter}
use analisis_de_protocolo_de.Session.{Session, highlight_slides, on_page_events}
use analisis_de_protocolo_de.Session.Events.{Page, PageEvent}
use analisis_de_protocolo_de.Session.Keeps.{Goes}

module _ (e : Emitter) (page : Page) where
  -- How `start` ends for a show that is indexed and numbered.
  abbrev Started : Show → Result (Session e page) → Type 0
  Started show r =
      Goes e page r
      ⊎ ((x : Error) × (highlight_slides e page show.slides.slides ≡ err x) × (r ≡ err x))

  -- How the creation of a show, and the events of the page after it, end.
  pub data CreateOutcome (source : Option Text) (hash : Text) (events : List PageEvent)
      (r : Result (Session e page)) : Type 0 where
    goes : Goes e page (r >>= on_page_events e page events) → CreateOutcome source hash events r
    not_loaded :
        (x : Error)
        → load_from_string page.low
            (macros page.inherited)
            page.inherited.is_name
            2
            page.parser_options
            page.slide_options
            source
          ≡ err x
        → LoadError page.low page.inherited page.parser_options source x
        → r ≡ err x
        → CreateOutcome source hash events r
    not_highlighted :
        (show : Show) (x : Error)
        → load_from_string page.low
            (macros page.inherited)
            page.inherited.is_name
            2
            page.parser_options
            page.slide_options
            source
          ≡ ok show
        → highlight_slides e page show.slides.slides ≡ err x
        → r ≡ err x
        → CreateOutcome source hash events r
