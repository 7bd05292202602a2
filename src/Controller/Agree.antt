-- ===== src/Controller/Agree.antt =====
-- A show and its clone stay on the same slide.
use analisis_de_protocolo_de.Prelude.{
  ℕ, ◌+◌, ◌<◌, ◌≡◌, refl, ap, sym, ◌∙◌, subst, true, false, Option, none, some, List, [], ◌∷◌, ◌++◌,
  All, All-append, append-nil,
}
use analisis_de_protocolo_de.Prelude.Int.{pos, negsuc}
use analisis_de_protocolo_de.Prelude.Number.{Number, nan, int, plus_one}
use analisis_de_protocolo_de.Slideshow.{Building}
use analisis_de_protocolo_de.Navigation.{
  Navigation, Event, hide_slide, show_slide, start, slide_changed, force_presenter_mode,
  open_window, focus_clone, post_to_clone, post_to_opener, Command, goto, goto_number, previous,
  next, first, last, create_clone, reset_timer, slide_no, perform, messages, get_slide_count,
  no_clone, open_clone,
}
use analisis_de_protocolo_de.Navigation.Range.{IsIndex, IsOnSlide}
use analisis_de_protocolo_de.Navigation.Runs.{perform-Keeps}
use analisis_de_protocolo_de.Navigation.Numeric.{IsNumericCommand}
use analisis_de_protocolo_de.Navigation.Messages.{IsNoPost, no_posts-goto, windows-goto}
use analisis_de_protocolo_de.Navigation.Posts.{IsMove, Tells, stays, moves, perform-Told}
use analisis_de_protocolo_de.Controller.Sync.{navigate_by_message-slide, current-goto_message}
use analisis_de_protocolo_de.Controller.Clone.{
  number_to_clone, number_to_opener, receive_move, tell, Shows, Place, at_main, at_clone,
  perform_at, perform_all,
}

-- Events that are no messages reach no window.
abbrev Ignores : (Event → Option Number) → Type 0
Ignores number_to = (e : Event) → IsNoPost e → number_to e ≡ none

number_to_clone-Ignores : Ignores number_to_clone
number_to_clone-Ignores (post_to_clone n) h = absurd h
number_to_clone-Ignores (post_to_opener n) h = absurd h
number_to_clone-Ignores (hide_slide i) h = refl
number_to_clone-Ignores (show_slide i) h = refl
number_to_clone-Ignores start h = refl
number_to_clone-Ignores (slide_changed i) h = refl
number_to_clone-Ignores force_presenter_mode h = refl
number_to_clone-Ignores open_window h = refl
number_to_clone-Ignores focus_clone h = refl

number_to_opener-Ignores : Ignores number_to_opener
number_to_opener-Ignores (post_to_clone n) h = absurd h
number_to_opener-Ignores (post_to_opener n) h = absurd h
number_to_opener-Ignores (hide_slide i) h = refl
number_to_opener-Ignores (show_slide i) h = refl
number_to_opener-Ignores start h = refl
number_to_opener-Ignores (slide_changed i) h = refl
number_to_opener-Ignores force_presenter_mode h = refl
number_to_opener-Ignores open_window h = refl
number_to_opener-Ignores focus_clone h = refl

module _ (number_to : Event → Option Number) (ignores : Ignores number_to) (slides : Building) where
  tell-quiet :
      (es fs : List Event) (nav : Navigation)
      → All IsNoPost es
      → tell number_to slides (es ++ fs) nav ≡ tell number_to slides fs nav
  unfolding tell
  tell-quiet [] fs nav h = refl
  tell-quiet (e ∷ es) fs nav h = rw (ignores e h.0, tell) (tell-quiet es fs nav h.1)

  tell-none :
      (es : List Event) (nav : Navigation)
      → All IsNoPost es
      → tell number_to slides es nav ≡ (nav, [])
  unfolding tell
  tell-none es nav h =
      ap (λ x. tell number_to slides x nav) (sym (append-nil es)) ∙ tell-quiet es [] nav h

  -- The message for a slide moves the window to it, and nothing else about its windows.
  tell-slide :
      (es : List Event) (e : Event) (n : ℕ) (nav : Navigation)
      → All IsNoPost es
      → number_to e ≡ some (plus_one (int (pos n)))
      → n < get_slide_count slides
      → tell number_to slides (es ++ e ∷ []) nav
        ≡ perform slides (goto (slide_no (int (pos (n + 1)))) true) nav
  unfolding tell receive_move
  tell-slide es e n nav quiet h l =
      tell-quiet es (e ∷ []) nav quiet
      ∙ rw
          (
            h,
            tell,
            navigate_by_message-slide n,
            receive_move,
            append-nil (perform slides (goto (slide_no (int (pos (n + 1)))) true) nav).1,
          )
          refl

  -- The window f follows a show that was on the same slide.
  follow-Told :
      (nav f : Navigation) (r : Navigation × List Event) (post : Number → Event)
      → ((i : Number) → number_to (post i) ≡ some (plus_one i))
      → ((i : Number) → messages false nav i ≡ post i ∷ [])
      → f.current_slide_index ≡ nav.current_slide_index
      → Tells (get_slide_count slides) nav r
      → ((tell number_to slides r.1 f).0.current_slide_index ≡ r.0.current_slide_index)
        × ((tell number_to slides r.1 f).0.clone ≡ f.clone)
        × ((tell number_to slides r.1 f).0.opener ≡ f.opener)
        × All IsNoPost (tell number_to slides r.1 f).1
  follow-Told nav f r post p m same (stays e quiet) =
      rw (tell-none r.1 f quiet) (same ∙ sym e, refl, refl, tt)
  follow-Told nav f r post p m same (moves before i quiet e) =
      rw (e, m r.0.current_slide_index) (at r.0.current_slide_index i)
    where
      at :
          (i : Number)
          → IsIndex (get_slide_count slides) i
          → ((tell number_to slides (before ++ post i ∷ []) f).0.current_slide_index ≡ i)
            × ((tell number_to slides (before ++ post i ∷ []) f).0.clone ≡ f.clone)
            × ((tell number_to slides (before ++ post i ∷ []) f).0.opener ≡ f.opener)
            × All IsNoPost (tell number_to slides (before ++ post i ∷ []) f).1
      at nan h = absurd h
      at (int (negsuc n)) h = absurd h
      at (int (pos n)) h =
          let kept = windows-goto slides (int (pos (n + 1))) true f in
          rw (tell-slide before (post (int (pos n))) n f quiet (p (int (pos n))) h) (
            current-goto_message slides n f h,
            kept.0,
            kept.1,
            no_posts-goto slides (int (pos (n + 1))) f,
          )

-- The windows know each other and no third one, and are on the same slide, or both before the first.
pub record IsPaired (slides : Building) (s : Shows) : Type 0 where
  pub has_clone : s.main.clone ≡ open_clone
  pub no_opener : s.main.opener ≡ false
  pub no_clones : s.clone.clone ≡ no_clone
  pub has_opener : s.clone.opener ≡ true
  pub same_slide : s.clone.current_slide_index ≡ s.main.current_slide_index
  pub on_slide : IsOnSlide (get_slide_count slides) s.main.current_slide_index

numeric_of_IsMove : (c : Command) → IsMove c → IsNumericCommand c
numeric_of_IsMove (goto t no_message) h = h.0
numeric_of_IsMove (goto_number n no_message) h = tt
numeric_of_IsMove previous h = tt
numeric_of_IsMove next h = tt
numeric_of_IsMove first h = tt
numeric_of_IsMove last h = tt
numeric_of_IsMove create_clone h = tt
numeric_of_IsMove reset_timer h = tt

perform-IsOnSlide :
    (slides : Building) (c : Command) (nav : Navigation)
    → IsMove c
    → IsOnSlide (get_slide_count slides) nav.current_slide_index
    → IsOnSlide (get_slide_count slides) (perform slides c nav).0.current_slide_index
perform-IsOnSlide slides c nav move h =
    (perform-Keeps slides c nav (numeric_of_IsMove c move) h).on_slide

perform_at-IsPaired :
    (slides : Building) (place : Place) (c : Command) (s : Shows)
    → IsMove c
    → IsPaired slides s
    → IsPaired slides (perform_at slides place c s).0 × All IsNoPost (perform_at slides place c s).1
unfolding perform_at
perform_at-IsPaired slides at_main c s move h =
    let told = perform-Told slides c s.main move h.on_slide in
    let (same, k, o, quiet) =
      follow-Told number_to_clone number_to_clone-Ignores slides s.main s.clone
        (perform slides c s.main) (λ i. post_to_clone (plus_one i)) (λ i. refl)
        (λ i. unfold messages in rw (h.has_clone, h.no_opener) refl) h.same_slide told.tells in
    (
      record {
        has_clone = told.same_clone ∙ h.has_clone;
        no_opener = told.same_opener ∙ h.no_opener;
        no_clones = k ∙ h.no_clones;
        has_opener = o ∙ h.has_opener;
        same_slide = same;
        on_slide = perform-IsOnSlide slides c s.main move h.on_slide;
      },
      quiet,
    )
perform_at-IsPaired slides at_clone c s move h =
    let told =
      perform-Told slides c s.clone move
        (subst (IsOnSlide (get_slide_count slides)) (sym h.same_slide) h.on_slide) in
    let (same, k, o, quiet) =
      follow-Told number_to_opener number_to_opener-Ignores slides s.clone s.main
        (perform slides c s.clone) (λ i. post_to_opener (plus_one i)) (λ i. refl)
        (λ i. unfold messages in rw (h.no_clones, h.has_opener) refl) (sym h.same_slide)
        told.tells in
    (
      record {
        has_clone = k ∙ h.has_clone;
        no_opener = o ∙ h.no_opener;
        no_clones = told.same_clone ∙ h.no_clones;
        has_opener = told.same_opener ∙ h.has_opener;
        same_slide = sym same;
        on_slide = subst (IsOnSlide (get_slide_count slides)) (sym same) (
            perform-IsOnSlide slides c s.clone move
              (subst (IsOnSlide (get_slide_count slides)) (sym h.same_slide) h.on_slide));
      },
      quiet,
    )

-- From a show and its clone on the same slide, or both before the first, the user's moves in either of the
-- two windows, in any order and to targets that are not NaN, each followed by the arrival of its messages
-- before the next move, leave both on the same slide, and a message that arrives is never answered by another.
pub perform_all-IsPaired :
    (slides : Building) (cs : List (Place × Command)) (s : Shows)
    → All (λ (p : Place × Command). IsMove p.1) cs
    → IsPaired slides s
    → IsPaired slides (perform_all slides cs s).0 × All IsNoPost (perform_all slides cs s).1
unfolding perform_all
perform_all-IsPaired slides [] s ms h = (h, tt)
perform_all-IsPaired slides ((place, c) ∷ cs) s ms h =
    let (h', quiet) = perform_at-IsPaired slides place c s ms.0 h in
    let (h'', further) = perform_all-IsPaired slides cs (perform_at slides place c s).0 ms.1 h' in
    (
      h'',
      All-append IsNoPost (perform_at slides place c s).1
          (perform_all slides cs (perform_at slides place c s).0).1 quiet further,
    )
