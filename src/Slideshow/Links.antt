-- ===== src/Slideshow/Links.antt =====
-- The links of a show, from those of its slides.
use analisis_de_protocolo_de.Prelude.{
  ◌≡◌, refl, ap, sym, ◌∙◌, Bool, true, false, Option, none, some, List, [], ◌∷◌, ◌++◌,
  if◌then◌else◌, All, Bool-cases, Option-cases, inl, inr,
}
use analisis_de_protocolo_de.Prelude.Text.{Text, text_eq, text_eq_iff, includes}
use analisis_de_protocolo_de.Prelude.Dict.{Dict, get, put, get-put}
use analisis_de_protocolo_de.Parser.{Link}
use analisis_de_protocolo_de.Slide.{Slide}
use analisis_de_protocolo_de.Slideshow.Loading.{keys, add_links, collect_links}

abbrev or_else : Option Link → Option Link → Option Link
or_else none b = b
or_else (some a) b = some a

module _ (id : Text) (from : Dict Link) where
  get-add_links_in :
      (ids : List Text) (links : Dict Link)
      → get id (add_links ids from links)
        ≡ (if includes id ids then or_else (get id from) (get id links) else get id links)
  unfolding add_links includes
  get-add_links_in [] links = refl
  get-add_links_in (k ∷ ids) links = elim (Option-cases (get k from)) [
    | inl u ↦
        rw (u, add_links, get-add_links_in ids links)
          (elim (Bool-cases (text_eq k id)) [
            | inl same ↦
                let e : get id from ≡ none =
                  ap (λ t. get t from) (sym ((text_eq_iff k id).0 same)) ∙ u in
                rw (same, e) (at_none (includes id ids))
            | inr other ↦ rw other refl
          ])
    | inr (l, u) ↦
        rw (u, add_links, get-add_links_in ids (put k l links), get-put k id l links)
          (elim (Bool-cases (text_eq k id)) [
            | inl same ↦
                let e : get id from ≡ some l =
                  ap (λ t. get t from) (sym ((text_eq_iff k id).0 same)) ∙ u in
                rw (same, e) (at_some (includes id ids) l)
            | inr other ↦ rw other refl
          ])
  ]
    where
      at_none : (b : Bool) → (if b then get id links else get id links) ≡ get id links
      at_none true = refl
      at_none false = refl

      at_some : (b : Bool) (l : Link) → (if b then some l else some l) ≡ some l
      at_some true l = refl
      at_some false l = refl

get-not_key : (id : Text) (d : Dict Link) → includes id (keys d) ≡ false → get id d ≡ none
unfolding includes get
get-not_key id [] h = refl
get-not_key id ((k, l) ∷ d) h = elim (Bool-cases (text_eq k id)) [
  | inl u ↦ absurd (cc (rw u at h))
  | inr u ↦ rw u (get-not_key id d (rw u at h))
]

get-add_links :
    (id : Text) (from links : Dict Link)
    → get id (add_links (keys from) from links) ≡ or_else (get id from) (get id links)
get-add_links id from links =
    get-add_links_in id from (keys from) links ∙ (elim (Bool-cases (includes id (keys from))) [
      | inl u ↦ rw u refl
      | inr u ↦ rw (u, get-not_key id from u) refl
    ])

get-collect_links-none :
    (id : Text) (ss : List Slide) (links : Dict Link)
    → All (λ (s : Slide). get id s.links ≡ none) ss
    → get id (collect_links ss links) ≡ get id links
unfolding collect_links
get-collect_links-none id [] links h = refl
get-collect_links-none id (s ∷ ss) links h =
    get-collect_links-none id ss (add_links (keys s.links) s.links links) h.1
    ∙ get-add_links id s.links links
    ∙ rw h.0 refl

get-collect_links_last :
    (id : Text) (before : List Slide) (s : Slide) (after : List Slide) (l : Link)
    (links : Dict Link)
    → get id s.links ≡ some l
    → All (λ (t : Slide). get id t.links ≡ none) after
    → get id (collect_links (before ++ s ∷ after) links) ≡ some l
unfolding collect_links
get-collect_links_last id [] s after l links e h =
    get-collect_links-none id after (add_links (keys s.links) s.links links) h
    ∙ get-add_links id s.links links
    ∙ ap (λ o. or_else o (get id links)) e
get-collect_links_last id (t ∷ before) s after l links e h =
    get-collect_links_last id before s after l (add_links (keys t.links) t.links links) e h

-- A link definition of the show is that of the last slide that has one of its id, and there is none
-- where no slide has one.
pub get-collect_links :
    (id : Text) (before : List Slide) (s : Slide) (after : List Slide)
    → All (λ (t : Slide). get id t.links ≡ none) after
    → ((l : Link)
        → get id s.links ≡ some l
        → get id (collect_links (before ++ s ∷ after) []) ≡ some l)
      × (get id (collect_links after []) ≡ none)
unfolding get
get-collect_links id before s after h =
    (λ l e. get-collect_links_last id before s after l [] e h, get-collect_links-none id after [] h)
