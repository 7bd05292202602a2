-- ===== src/Controller/Sync.antt =====
-- That a hash and a message lead back to the slide that they were made of.
use analisis_de_protocolo_de.Prelude.{
  ℕ, ◌+◌, ◌<◌, ◌≡◌, refl, ap, Bool, true, false, [], ◌∷◌, drop, All,
}
use analisis_de_protocolo_de.Prelude.Text.{Text, text_eq, text_eq_refl}
use analisis_de_protocolo_de.Prelude.Number.{
  nan, int, plus_one, parse_int, to_string, unsigned, decimal,
}
use analisis_de_protocolo_de.Prelude.Int.{pos, pred-succ}
use analisis_de_protocolo_de.Slideshow.{Building}
use analisis_de_protocolo_de.Navigation.{
  Navigation, Command, goto, slide_no, slide_name, get_slide_index, get_slide_count, perform,
  is_digits, is_presenter_name,
}
use analisis_de_protocolo_de.Navigation.Messages.{IsNoPost, current-goto, no_posts-goto}
use analisis_de_protocolo_de.Controller.Decimal.{IsDecimal, decimal-IsDecimal, parse_int-digits}
use analisis_de_protocolo_de.Controller.Location.{
  update_hash, navigate_by_hash, message_text, received, navigate_by_message,
}

is_digits-IsDecimal : (n : ℕ) (s : Text) → IsDecimal n s → is_digits s ≡ true
unfolding is_digits
is_digits-IsDecimal n [] h = absurd (cc (h.filled))
is_digits-IsDecimal n (c ∷ s) h = h.digits

to_string-parse_int : (n : ℕ) → parse_int (decimal n) ≡ int (pos n)
to_string-parse_int n = parse_int-digits n (decimal n) (decimal-IsDecimal n)

-- The name with a `p` in front of it is no number.
parse_int-presenter : (s : Text) → parse_int (b'p' ∷ s) ≡ nan
unfolding parse_int unsigned
parse_int-presenter s = refl

-- The slide number in a hash leads to the slide.
index-update_hash :
    (slides : Building) (presenter : Bool) (n : ℕ)
    → (get_slide_index slides (slide_name (drop 1 (update_hash presenter (int (pos (n + 1))))))).0
      ≡ int (pos n)
unfolding get_slide_index update_hash to_string is_presenter_name
index-update_hash slides false n =
    rw (to_string-parse_int (n + 1), text_eq_refl (decimal (n + 1))) (ap int (pred-succ (pos n)))
index-update_hash slides true n =
    rw
      (
        parse_int-presenter (decimal (n + 1)),
        is_digits-IsDecimal (n + 1) (decimal (n + 1)) (decimal-IsDecimal (n + 1)),
        to_string-parse_int (n + 1),
      )
      (unfold text_eq in ap int (pred-succ (pos n)))

-- A slide that is in the location hash, whether in presenter mode or not, is the one that the show
-- moves to on that hash, wherever it was.
pub navigate_by_hash-update_hash :
    (slides : Building) (presenter : Bool) (n : ℕ) (nav : Navigation)
    → n < get_slide_count slides
    → (perform slides
        (navigate_by_hash (update_hash presenter (int (pos (n + 1)))))
        nav).0.current_slide_index
      ≡ int (pos n)
unfolding navigate_by_hash
navigate_by_hash-update_hash slides presenter n nav h =
    current-goto slides (slide_name (drop 1 (update_hash presenter (int (pos (n + 1)))))) n false
      nav (index-update_hash slides presenter n) h

-- What the message for a slide asks for.
pub navigate_by_message-slide :
    (n : ℕ)
    → navigate_by_message (message_text (plus_one (int (pos n))))
      ≡ received (goto (slide_no (int (pos (n + 1)))) true)
unfolding navigate_by_message message_text to_string
navigate_by_message-slide n =
    rw
      (
        is_digits-IsDecimal (n + 1) (decimal (n + 1)) (decimal-IsDecimal (n + 1)),
        to_string-parse_int (n + 1),
      )
      (unfold text_eq in refl)

pub current-goto_message :
    (slides : Building) (n : ℕ) (nav : Navigation)
    → n < get_slide_count slides
    → (perform slides (goto (slide_no (int (pos (n + 1)))) true) nav).0.current_slide_index
      ≡ int (pos n)
unfolding get_slide_index
current-goto_message slides n nav h =
    current-goto slides (slide_no (int (pos (n + 1)))) n true nav (ap int (pred-succ (pos n))) h

-- The message that a window posts for a slide makes another window of the show move to that slide,
-- wherever it was, and post no message itself.
pub navigate_by_message-message_text :
    (slides : Building) (n : ℕ) (nav : Navigation)
    → n < get_slide_count slides
    → (c : Command) × (navigate_by_message (message_text (plus_one (int (pos n)))) ≡ received c)
      × ((perform slides c nav).0.current_slide_index ≡ int (pos n))
      × All IsNoPost (perform slides c nav).1
navigate_by_message-message_text slides n nav h = (
  goto (slide_no (int (pos (n + 1)))) true,
  navigate_by_message-slide n,
  current-goto_message slides n nav h,
  no_posts-goto slides (int (pos (n + 1))) nav,
)
