-- ===== src/Lib.antt =====
-- Verification of remark, the slide show program of the repository's pages: the one JavaScript program
-- that is the repository's own to run, liquidsoap-master/doc/orig/fosdem2020/remark.js. It is a bundle of
-- modules; those of remark itself are modelled, the libraries in it are not.
--
-- The program. A source text, from the page or an option (Api), goes through the lexer (a list of tokens),
-- the parser (a list of parsed slides, with macros called on the way), and `createSlides`, which gives each
-- slide its template, its index and its number. Navigation then moves between the slides, and tells
-- the views, the notes, the users' listeners and a cloned window by events and messages; the controller turns
-- the inputs into the events that navigation and the view listen to. The views write classes and HTML.
--
-- The files, with the functions of remark.js that they model:
--   Prelude            lists, numbers and texts; Prelude.Text.trim is `trim` of lexer.js
--   Regex              regular expressions of the language as a backtracking matcher: `exec`, and the
--                      global matches that `replace` and a loop of `exec` go through
--   Lexer              lexer.js: `Lexer.prototype.lex`, `lex` (lex_loop), its expressions (Lexer/Patterns)
--                      and `getTextInBrackets` (Lexer/Brackets)
--   Parser             parser.js: `Parser.prototype.parse`, `appendTo`, `createSlide`,
--                      `createContentClass`, `extractProperties` (Parser/Properties), `cleanInput`
--                      (Parser/Clean), and the content of slides (Parser/Content)
--   Macros             macros.js
--   Slide              models/slide.js: the constructor with `inherit`, and `expandVariables`
--                      (Slide/Variables)
--   Slideshow          models/slideshow.js: `createSlides` and the getters that navigation uses; loading
--                      a source and the options (Slideshow/Loading), where `createSlides` throws
--                      (Slideshow/Templates), models/slideshow/events.js
--                      (Slideshow/External) and components/slide-number (Slideshow/SlideNumber)
--   Navigation         models/slideshow/navigation.js, an operation for each listener
--   Controller         controllers/defaultController.js (the constructor, `pause`, `resume`), with the
--                      inputs keyboard.js (Controller/Keyboard), mouse.js (Controller/Mouse), location.js
--                      and message.js (Controller/Location); Controller/Bus says which events navigation
--                      listens to; and touch.js (Controller/Touch, with the view's listener of taps);
--                      Controller/Calls has the functions of models/slideshow.js that emit such an
--                      event; Controller/Clone has a show and its clone, which post their moves to
--                      each other; a message arrives there before the next move
--   Session            a whole show: `create` of api.js, the forwarding of the page's events in
--                      views/slideshowView.js (`configureContainerElement`), and what an event does to
--                      the controller, navigation, the views and the notes together; Session/Created
--                      has how a show is made, where the bundled libraries return
--   Converter          converter.js: from the content of a slide to HTML
--   ClassList          utils.js: the functions on `className`
--   View               views/slideshowView.js: the modes of the container, and the views that are shown
--                      and hidden (`show`, `hide` of views/slideView.js); View/Bus says which events of
--                      navigation it listens to, View/Windows how blackouts reach a second window
--                      (the listener of `toggleBlackout` in models/slideshow.js)
--   SlideView          views/slideView.js: classes and styles from the properties of a slide, and its code
--                      blocks (SlideView/Code), with the spans in them (SlideView/Spans)
--   NotesView          views/notesView.js: the notes that are shown
--   Printing           components/printing: the orientation and the size of the page
--   Styler             components/styler: the style sheet and its page rule
--   Timer              components/timer: the clock, the states and the events; the format of the time
--                      (Timer/Format)
--   Polyfills          polyfills.js: forEach, filter and map
--   Api                api.js: `applyDefaults`, `unescape` and `convert`; `create` is in Session
--   The other files under these hold their theorems; each `Tests` has runs on small inputs.
--
-- How code becomes definitions. A text is the list of its UTF-16 code units. A loop that is not over a
-- list takes fuel: `lex` gives its loop one unit more than the source is long, and a round or a call
-- uses up a part of the source, which is why the fuel is enough; `extract_properties` has the length of its
-- source; `parse` takes as fuel how deep macros' values may call macros, since the values of a user's
-- macros need not end. What throws is an error of Prelude.Result. Objects that are used as tables
-- are association lists. Every object inherits more names (`constructor`, `valueOf`, and so on), which are a
-- parameter (Macros.Inherited). Where the program finds one in `macros`, in the templates of `createSlides`
-- or by the location hash, `macros`, Slideshow/Templates and `move_to` of Session do what it does with it;
-- Navigation, `createSlides` and the properties of slides alone have the program's own keys only, and a
-- slide that is named `__proto__` is not modelled. Numbers are exact, as they are below 2 ^ 53, and NaN is
-- a value of its own where `parseInt` can give it. The events that an operation emits and the messages that
-- it posts are its result, and listeners return. The groups of a repeated part of an expression keep what an
-- earlier round gave them; every group of a repetition in these expressions is set in each round.
--
-- The browser. The class of an element is the text `className`, and the elements of a view are the fields of
-- a record; a loop over a live collection is written as the browser runs it. The clock is given to the
-- timer with each event, and the end of a timeout is an event of its own. A coordinate of a touch is counted
-- in parts of a pixel, as many to each as its fraction needs.
--
-- Parameters: `toLowerCase`, whose table is Unicode's (`low`), the macros of the user, the bundled marked
-- (Converter) and highlight.js (SlideView/Code), and what the browser reads from an `innerHTML`; that the
-- highlighter leaves the line ends as they are, and that the browser makes one child of each wrapped line, are
-- hypotheses of the theorem about code blocks. The registry of listeners of the bundled EventEmitter is
-- an interface (Controller/Listeners): its operations, and the laws of `listenerCount` with `on` and
-- `removeAllListeners`, as that library documents them. Controller/Listed is one that meets it.
--
-- Not modelled: sizes and scaling (scaler.js, the background images of slides and the font size of the
-- notes), which are floating point numbers written to styles; full screen and the request for a source
-- URL, which only call the browser; the bundled libraries (events, extend, marked, highlight.js); the
-- other scripts of the repository, which are copies of libraries and a page script of the Icecast
-- documentation; and Icecast and Liquidsoap, which are in other languages.
pub mod Session
pub mod Api
pub mod View
pub mod SlideView
pub mod NotesView
pub mod Converter
pub mod Polyfills
pub mod Printing
pub mod Timer
pub mod Styler
pub mod ClassList
pub mod Prelude
pub mod Regex
pub mod Lexer
pub mod Parser
pub mod Macros
pub mod Slide
pub mod Slideshow
pub mod Navigation
pub mod Controller
