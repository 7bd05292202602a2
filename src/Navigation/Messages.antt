-- ===== src/Navigation/Messages.antt =====
-- Moves that another window asked for.
use analisis_de_protocolo_de.Prelude.{
  ℕ, ◌<◌, ◌≡◌, refl, ap, ◌∙◌, Bool, true, All, All-append, Bool-cases, inl, inr,
}
use analisis_de_protocolo_de.Prelude.Number.{Number, int, is_same, minus_one}
use analisis_de_protocolo_de.Prelude.Int.{pos, negsuc}
use analisis_de_protocolo_de.Slideshow.{Building}
use analisis_de_protocolo_de.Navigation.{
  Navigation, Event, post_to_clone, post_to_opener, Started, not_shown, shown, moved, Target,
  slide_no, goto, perform, goto_slide, goto_slide_by_index, get_slide_index, get_slide_count,
  hide_events, start_events, messages, slide_out_of_range,
}
use analisis_de_protocolo_de.Navigation.Moves.{current-goto_slide_by_index}

-- An event that is no message to a window.
abbrev pub IsNoPost : Event → Type 0
IsNoPost (post_to_clone n) = ⊥
IsNoPost (post_to_opener n) = ⊥
IsNoPost _ = Unit

pub no_posts-hide_events : (i : Number) → All IsNoPost (hide_events i)
unfolding hide_events
no_posts-hide_events i = elim (Bool-cases (is_same i (int (negsuc 0)))) [
  | inl u ↦ rw u tt
  | inr u ↦ rw u (tt, tt)
]

pub no_posts-start_events : (s : Started) → All IsNoPost (start_events s)
unfolding start_events
no_posts-start_events not_shown = tt
no_posts-start_events shown = (tt, tt)
no_posts-start_events moved = tt

no_posts-goto_slide_by_index :
    (count : ℕ) (i : Number) (nav : Navigation)
    → All IsNoPost (goto_slide_by_index count i true nav).1
unfolding goto_slide_by_index messages
no_posts-goto_slide_by_index count i nav = elim (Bool-cases (is_same i nav.current_slide_index)) [
  | inl u ↦ rw u tt
  | inr u ↦ elim (Bool-cases (slide_out_of_range count i)) [
    | inl v ↦ rw (u, v) tt
    | inr v ↦
        rw (u, v)
          (All-append _ (hide_events nav.current_slide_index) _
            (no_posts-hide_events nav.current_slide_index)
            (All-append _ (start_events nav.started) _ (no_posts-start_events nav.started)
              (tt, (tt, tt))))
  ]
]

pub no_posts-goto :
    (slides : Building) (n : Number) (nav : Navigation)
    → All IsNoPost (perform slides (goto (slide_no n) true) nav).1
unfolding perform goto_slide get_slide_index
no_posts-goto slides n nav = no_posts-goto_slide_by_index (get_slide_count slides) (minus_one n) nav

pub current-goto :
    (slides : Building) (target : Target) (n : ℕ) (no_message : Bool) (nav : Navigation)
    → (get_slide_index slides target).0 ≡ int (pos n)
    → n < get_slide_count slides
    → (perform slides (goto target no_message) nav).0.current_slide_index ≡ int (pos n)
unfolding perform goto_slide
current-goto slides target n no_message nav e h =
    ap (λ i. (goto_slide_by_index (get_slide_count slides) i no_message nav).0.current_slide_index)
      e
    ∙ current-goto_slide_by_index (get_slide_count slides) n no_message nav h

-- A move leaves the other windows as they are.
pub windows-goto_slide_by_index :
    (count : ℕ) (i : Number) (no_message : Bool) (nav : Navigation)
    → ((goto_slide_by_index count i no_message nav).0.clone ≡ nav.clone)
      × ((goto_slide_by_index count i no_message nav).0.opener ≡ nav.opener)
unfolding goto_slide_by_index
windows-goto_slide_by_index count i no_message nav =
    elim (Bool-cases (is_same i nav.current_slide_index)) [
      | inl u ↦ rw u (refl, refl)
      | inr u ↦ elim (Bool-cases (slide_out_of_range count i)) [
        | inl v ↦ rw (u, v) (refl, refl)
        | inr v ↦ rw (u, v) (refl, refl)
      ]
    ]

pub windows-goto :
    (slides : Building) (n : Number) (no_message : Bool) (nav : Navigation)
    → ((perform slides (goto (slide_no n) no_message) nav).0.clone ≡ nav.clone)
      × ((perform slides (goto (slide_no n) no_message) nav).0.opener ≡ nav.opener)
unfolding perform goto_slide get_slide_index
windows-goto slides n no_message nav =
    windows-goto_slide_by_index (get_slide_count slides) (minus_one n) no_message nav
