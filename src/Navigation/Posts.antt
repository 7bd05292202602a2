-- ===== src/Navigation/Posts.antt =====
-- What navigation tells the other windows on a command of the user.
use analisis_de_protocolo_de.Prelude.{
  ℕ, ◌≡◌, ◌≢◌, refl, ap, sym, ◌∙◌, inl, inr, false, List, [], ◌∷◌, ◌++◌, append_assoc, All,
  All-append, Bool-cases, Option-cases,
}
use analisis_de_protocolo_de.Prelude.Text.{Text, text_eq}
use analisis_de_protocolo_de.Prelude.Dict.{get}
use analisis_de_protocolo_de.Prelude.Int.{pos}
use analisis_de_protocolo_de.Prelude.Number.{
  Number, nan, int, plus_one, minus_one, is_same, parse_int, to_string,
}
use analisis_de_protocolo_de.Slide.{Slide}
use analisis_de_protocolo_de.Slideshow.{Building}
use analisis_de_protocolo_de.Navigation.{
  Navigation, Event, show_slide, slide_changed, hide_events, start_events, messages,
  slide_out_of_range, goto_slide_by_index, get_slide_index, get_slide_count, get_slides_by_number,
  goto_slide, goto_slide_number, Target, slide_no, slide_name, Command, goto, goto_number, previous,
  next, first, last, create_clone, reset_timer, perform, last_index, is_presenter_name,
}
use analisis_de_protocolo_de.Navigation.Messages.{
  IsNoPost, no_posts-hide_events, no_posts-start_events,
}
use analisis_de_protocolo_de.Navigation.Range.{IsIndex, IsOnSlide, in_range-IsIndex}
use analisis_de_protocolo_de.Navigation.Runs.{last_index-numeric}
use analisis_de_protocolo_de.Navigation.Numeric.{
  IsNumeric, int-ne-nan, plus_one-ne-nan, minus_one-ne-nan, get_slide_index-numeric,
  on_slide-ne-nan,
}

-- A move that the user asks for, to a target that is not NaN.
abbrev pub IsMove : Command → Type 0
IsMove (goto t no_message) = IsNumeric t × (no_message ≡ false)
IsMove (goto_number n no_message) = no_message ≡ false
IsMove create_clone = ⊥
IsMove previous = Unit
IsMove next = Unit
IsMove first = Unit
IsMove last = Unit
IsMove reset_timer = Unit

-- The show stays and tells nothing, or it moves and tells the slide that it moved to, last of all.
pub data Tells (count : ℕ) (nav : Navigation) (r : Navigation × List Event) : Type 0 where
  stays : r.0.current_slide_index ≡ nav.current_slide_index → All IsNoPost r.1 → Tells count nav r
  moves :
      (before : List Event)
      → IsIndex count r.0.current_slide_index
      → All IsNoPost before
      → r.1 ≡ before ++ messages false nav r.0.current_slide_index
      → Tells count nav r

-- The windows that it tells stay the same.
pub record Told (count : ℕ) (nav : Navigation) (r : Navigation × List Event) : Type 0 where
  pub same_clone : r.0.clone ≡ nav.clone
  pub same_opener : r.0.opener ≡ nav.opener
  pub tells : Tells count nav r

goto_slide_by_index-Told :
    (count : ℕ) (i : Number) (nav : Navigation)
    → i ≢ nan
    → Told count nav (goto_slide_by_index count i false nav)
unfolding goto_slide_by_index
goto_slide_by_index-Told count i nav p = elim (Bool-cases (is_same i nav.current_slide_index)) [
  | inl e ↦ rw e (record { same_clone = refl; same_opener = refl; tells = stays refl tt })
  | inr e ↦ elim (Bool-cases (slide_out_of_range count i)) [
    | inl u ↦ rw (e, u) (record { same_clone = refl; same_opener = refl; tells = stays refl tt })
    | inr u ↦
        let hidden = hide_events nav.current_slide_index in
        let started = start_events nav.started in
        let shows = show_slide i ∷ (slide_changed (plus_one i) ∷ []) in
        rw (e, u)
          (record {
            same_clone = refl;
            same_opener = refl;
            tells =
                moves (hidden ++ (started ++ shows)) (in_range-IsIndex count i p u)
                  (All-append IsNoPost hidden (started ++ shows)
                    (no_posts-hide_events nav.current_slide_index)
                    (All-append IsNoPost started shows (no_posts-start_events nav.started)
                      (tt, (tt, tt))))
                  (sym (
                    append_assoc hidden (started ++ shows) (messages false nav i)
                    ∙ ap (λ es. hidden ++ es) (append_assoc started shows (messages false nav i))));
          })
  ]
]

-- Events that tell nothing may come first.
Told-before :
    (count : ℕ) (nav : Navigation) (es : List Event) (r : Navigation × List Event)
    → All IsNoPost es
    → Told count nav r
    → Told count nav (r.0, es ++ r.1)
Told-before count nav es r h t = record {
  same_clone = t.same_clone;
  same_opener = t.same_opener;
  tells = later r t.tells;
}
  where
    later : (r : Navigation × List Event) → Tells count nav r → Tells count nav (r.0, es ++ r.1)
    later r (stays e quiet) = stays e (All-append IsNoPost es r.1 h quiet)
    later r (moves before i quiet e) =
        moves (es ++ before) i (All-append IsNoPost es before h quiet) (
          ap (λ x. es ++ x) e
          ∙ sym (append_assoc es before (messages false nav r.0.current_slide_index)))

no_posts-get_slide_index :
    (slides : Building) (target : Target) → All IsNoPost (get_slide_index slides target).1
unfolding get_slide_index
no_posts-get_slide_index slides (slide_no n) = tt
no_posts-get_slide_index slides (slide_name t) =
    elim (Bool-cases (text_eq (to_string (parse_int t)) t)) [
      | inl e ↦ rw e tt
      | inr e ↦ elim (Bool-cases (is_presenter_name t)) [
        | inl u ↦ rw (e, u) (tt, tt)
        | inr u ↦ elim (Option-cases (get t slides.by_name)) [
          | inl w ↦ rw (e, u, w) tt
          | inr (s, w) ↦ rw (e, u, w) tt
        ]
      ]
    ]

idle-Told : (count : ℕ) (nav : Navigation) → Told count nav (nav, [])
idle-Told count nav = record { same_clone = refl; same_opener = refl; tells = stays refl tt }

goto_slide_number-Told :
    (slides : Building) (n : Text) (nav : Navigation)
    → Told (get_slide_count slides) nav (goto_slide_number slides n false nav)
unfolding goto_slide_number
goto_slide_number-Told slides n nav =
    elim (Option-cases (get_slides_by_number slides (parse_int n))) [
      | inl u ↦ rw (u, goto_slide_number) (idle-Told (get_slide_count slides) nav)
      | inr (ss, u) ↦ rw (u, goto_slide_number) (by_first ss)
    ]
  where
    by_first :
        (ss : List Slide)
        → Told (get_slide_count slides) nav (elim ss as (λ _. Navigation × List Event) [
          | [] ↦ (nav, [])
          | s ∷ r ↦ goto_slide_by_index (get_slide_count slides) (int (pos s.index)) false nav
        ])
    by_first [] = idle-Told (get_slide_count slides) nav
    by_first (s ∷ r) =
        goto_slide_by_index-Told (get_slide_count slides) (int (pos s.index)) nav
          (int-ne-nan (pos s.index))

-- A move tells the other windows where the show is, if it moved at all.
pub perform-Told :
    (slides : Building) (c : Command) (nav : Navigation)
    → IsMove c
    → IsOnSlide (get_slide_count slides) nav.current_slide_index
    → Told (get_slide_count slides) nav (perform slides c nav)
unfolding perform goto_slide
perform-Told slides (goto t no_message) nav (p, q) h =
    let (i, es) = get_slide_index slides t in
    rw q (
      Told-before (get_slide_count slides) nav es
        (goto_slide_by_index (get_slide_count slides) i false nav)
        (no_posts-get_slide_index slides t)
        (goto_slide_by_index-Told (get_slide_count slides) i nav
          (get_slide_index-numeric slides t p).0))
perform-Told slides (goto_number n no_message) nav p h = rw p (goto_slide_number-Told slides n nav)
perform-Told slides previous nav p h =
    goto_slide_by_index-Told (get_slide_count slides) (minus_one nav.current_slide_index) nav (
      minus_one-ne-nan nav.current_slide_index
        (on_slide-ne-nan (get_slide_count slides) nav.current_slide_index h))
perform-Told slides next nav p h =
    goto_slide_by_index-Told (get_slide_count slides) (plus_one nav.current_slide_index) nav (
      plus_one-ne-nan nav.current_slide_index
        (on_slide-ne-nan (get_slide_count slides) nav.current_slide_index h))
perform-Told slides first nav p h =
    goto_slide_by_index-Told (get_slide_count slides) (int (pos 0)) nav (int-ne-nan (pos 0))
perform-Told slides last nav p h =
    goto_slide_by_index-Told (get_slide_count slides) (last_index (get_slide_count slides)) nav
      (last_index-numeric (get_slide_count slides))
perform-Told slides create_clone nav p h = absurd p
perform-Told slides reset_timer nav p h = record {
  same_clone = refl;
  same_opener = refl;
  tells = stays refl tt;
}
