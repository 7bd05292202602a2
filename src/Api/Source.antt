-- ===== src/Api/Source.antt =====
-- The source of a show that stands in the page: what the browser escapes in `innerHTML`, and what
-- `unescape` reads.
use analisis_de_protocolo_de.Prelude.{
  All, ℕ, ◌≡◌, refl, ap, ◌∙◌, Bool, false, ◌||◌, none, [], ◌∷◌, ◌++◌, ◌==◌, ==_iff, if◌then◌else◌,
  arith, Bool-cases, inl, inr,
}
use analisis_de_protocolo_de.Prelude.Text.{Text, codes, starts_with}
use analisis_de_protocolo_de.Api.{
  angle_entity, replace_angles, replace_entity, replace_amps, replace_quots, unescape,
}

-- a no-break space, and any other unit
abbrev space_unit : ℕ → Text
space_unit c = if c == 160 then codes "&nbsp;" else c ∷ []

abbrev escape_unit : ℕ → Text
escape_unit c =
    if c == b'&'
    then codes "&amp;"
    else if c == b'<'
    then codes "&lt;"
    else if c == b'>'
    then codes "&gt;"
    else space_unit c

-- What `innerHTML` of an element shows for a text in it: the standard's escaping of a string.
unfoldable pub escaped : Text → Text
escaped [] = []
escaped (c ∷ s) = escape_unit c ++ escaped s

-- Only the ampersands and the no-break spaces.
amps_escaped : Text → Text
amps_escaped [] = []
amps_escaped (c ∷ s) = (if c == b'&' then codes "&amp;" else space_unit c) ++ amps_escaped s

-- Only the no-break spaces.
unfoldable spaces_escaped : Text → Text
spaces_escaped [] = []
spaces_escaped (c ∷ s) = space_unit c ++ spaces_escaped s

spaces_escaped-same : (s : Text) → All (λ (c : ℕ). (c == 160) ≡ false) s → spaces_escaped s ≡ s
unfolding spaces_escaped
spaces_escaped-same [] h = refl
spaces_escaped-same (c ∷ s) h = rw h.0 (ap (c ∷◌) (spaces_escaped-same s h.1))

angle_entity-other : (c : ℕ) (s : Text) → (c == b'&') ≡ false → angle_entity (c ∷ s) ≡ none
unfolding angle_entity
angle_entity-other c [] h = refl
angle_entity-other c (d ∷ []) h = refl
angle_entity-other c (d ∷ (e ∷ [])) h = refl
angle_entity-other c (d ∷ (e ∷ (f ∷ s))) h = rw h refl

replace_angles-other :
    (c : ℕ) (s : Text) → (c == b'&') ≡ false → replace_angles 0 (c ∷ s) ≡ c ∷ replace_angles 0 s
unfolding replace_angles
replace_angles-other c s h = rw (angle_entity-other c s h, replace_angles) refl

replace_angles-amp :
    (t : Text) → replace_angles 0 (codes "&amp;" ++ t) ≡ codes "&amp;" ++ replace_angles 0 t
unfolding replace_angles angle_entity
replace_angles-amp t = ap (b'&' ∷◌) (
    replace_angles-other b'a' (b'm' ∷ (b'p' ∷ (b';' ∷ t))) refl
    ∙ ap (b'a' ∷◌) (
        replace_angles-other b'm' (b'p' ∷ (b';' ∷ t)) refl
        ∙ ap (b'm' ∷◌) (
            replace_angles-other b'p' (b';' ∷ t) refl
            ∙ ap (b'p' ∷◌) (replace_angles-other b';' t refl))))

replace_angles-nbsp :
    (t : Text) → replace_angles 0 (codes "&nbsp;" ++ t) ≡ codes "&nbsp;" ++ replace_angles 0 t
unfolding replace_angles angle_entity
replace_angles-nbsp t = ap (b'&' ∷◌) (
    replace_angles-other b'n' (codes "bsp;" ++ t) refl
    ∙ ap (b'n' ∷◌) (
        replace_angles-other b'b' (codes "sp;" ++ t) refl
        ∙ ap (b'b' ∷◌) (
            replace_angles-other b's' (codes "p;" ++ t) refl
            ∙ ap (b's' ∷◌) (
                replace_angles-other b'p' (codes ";" ++ t) refl
                ∙ ap (b'p' ∷◌) (replace_angles-other b';' t refl)))))

-- A unit that is no ampersand.
replace_angles-space_unit :
    (c : ℕ) (s : Text)
    → (c == b'&') ≡ false
    → replace_angles 0 (space_unit c ++ s) ≡ space_unit c ++ replace_angles 0 s
replace_angles-space_unit c s h = elim (Bool-cases (c == 160)) [
  | inl u ↦ rw u (replace_angles-nbsp s)
  | inr u ↦ rw u (replace_angles-other c s h)
]

replace_angles-less : (t : Text) → replace_angles 0 (codes "&lt;" ++ t) ≡ b'<' ∷ replace_angles 0 t
unfolding replace_angles angle_entity
replace_angles-less t = refl

replace_angles-greater :
    (t : Text) → replace_angles 0 (codes "&gt;" ++ t) ≡ b'>' ∷ replace_angles 0 t
unfolding replace_angles angle_entity
replace_angles-greater t = refl

replace_angles-escaped : (s : Text) → replace_angles 0 (escaped s) ≡ amps_escaped s
unfolding escaped amps_escaped
replace_angles-escaped [] = unfold replace_angles in refl
replace_angles-escaped (c ∷ s) = elim (Bool-cases (c == b'&')) [
  | inl u ↦
      rw u
        (replace_angles-amp (escaped s) ∙ ap (λ t. codes "&amp;" ++ t) (replace_angles-escaped s))
  | inr u ↦ elim (Bool-cases (c == b'<')) [
    | inl v ↦
        rw (u, v)
          (replace_angles-less (escaped s)
            ∙ (rw ((==_iff c b'<').0 v) (ap (b'<' ∷◌) (replace_angles-escaped s))))
    | inr v ↦ elim (Bool-cases (c == b'>')) [
      | inl w ↦
          rw (u, v, w)
            (replace_angles-greater (escaped s)
              ∙ (rw ((==_iff c b'>').0 w) (ap (b'>' ∷◌) (replace_angles-escaped s))))
      | inr w ↦
          rw (u, v, w)
            (replace_angles-space_unit c (escaped s) u
              ∙ ap (λ t. space_unit c ++ t) (replace_angles-escaped s))
    ]
  ]
]

==_false_sym : (a b : ℕ) → (a == b) ≡ false → (b == a) ≡ false
==_false_sym a b h = ground (arith, ==_iff a b, ==_iff b a, h)

replace_amps-amp : (t : Text) → replace_amps (codes "&amp;" ++ t) ≡ b'&' ∷ replace_amps t
unfolding replace_amps replace_entity starts_with
replace_amps-amp t = refl

replace_amps-other :
    (c : ℕ) (t : Text) → (c == b'&') ≡ false → replace_amps (c ∷ t) ≡ c ∷ replace_amps t
unfolding replace_amps replace_entity starts_with
replace_amps-other c t h = rw (replace_amps, replace_entity, ==_false_sym c b'&' h) refl

replace_amps-nbsp :
    (t : Text) → replace_amps (codes "&nbsp;" ++ t) ≡ codes "&nbsp;" ++ replace_amps t
unfolding replace_amps replace_entity starts_with
replace_amps-nbsp t = refl

replace_amps-space_unit :
    (c : ℕ) (s : Text)
    → (c == b'&') ≡ false
    → replace_amps (space_unit c ++ s) ≡ space_unit c ++ replace_amps s
replace_amps-space_unit c s h = elim (Bool-cases (c == 160)) [
  | inl u ↦ rw u (replace_amps-nbsp s)
  | inr u ↦ rw u (replace_amps-other c s h)
]

replace_amps-escaped : (s : Text) → replace_amps (amps_escaped s) ≡ spaces_escaped s
unfolding amps_escaped spaces_escaped
replace_amps-escaped [] = unfold replace_amps replace_entity in refl
replace_amps-escaped (c ∷ s) = elim (Bool-cases (c == b'&')) [
  | inl u ↦ rw u (
      replace_amps-amp (amps_escaped s)
      ∙ rw ((==_iff c b'&').0 u) (ap (b'&' ∷◌) (replace_amps-escaped s)))
  | inr u ↦ rw u (
      replace_amps-space_unit c (amps_escaped s) u
      ∙ ap (λ t. space_unit c ++ t) (replace_amps-escaped s))
]

-- whether a text contains another
unfoldable pub contains_text : Text → Text → Bool
unfolding starts_with
contains_text p [] = starts_with p []
contains_text p (c ∷ s) = starts_with p (c ∷ s) || contains_text p s

replace_entity-same :
    (entity : Text) (extra unit : ℕ) (s : Text)
    → contains_text entity s ≡ false
    → replace_entity entity extra unit 0 s ≡ s
unfolding replace_entity contains_text
replace_entity-same entity extra unit [] h = refl
replace_entity-same entity extra unit (c ∷ s) h = elim (Bool-cases (starts_with entity (c ∷ s))) [
  | inl u ↦ ground (arith, u, h)
  | inr u ↦
      rw (u, replace_entity)
        (ap (c ∷◌) (replace_entity-same entity extra unit s (rw (u, contains_text) at h)))
]

-- A text that stands in the page as the browser escapes it is read back by unescape as it was, if the
-- text has no no-break space and does not contain `&quot;` as such.
pub unescape-escaped :
    (s : Text)
    → contains_text (codes "&quot;") s ≡ false
    → All (λ (c : ℕ). (c == 160) ≡ false) s
    → unescape (escaped s) ≡ s
unfolding unescape replace_quots
unescape-escaped s h k =
    rw (replace_angles-escaped s, replace_amps-escaped s, spaces_escaped-same s k)
      (replace_entity-same (codes "&quot;") 5 34 s h)

-- A text that starts with `&quot;` is read back with a quotation mark in its place.
pub unescape-quot :
    (s : Text) → unescape (escaped (codes "&quot;" ++ s)) ≡ 34 ∷ unescape (escaped s)
unfolding unescape spaces_escaped
unescape-quot s =
    rw
      (
        replace_angles-escaped (codes "&quot;" ++ s),
        replace_amps-escaped (codes "&quot;" ++ s),
        replace_angles-escaped s,
        replace_amps-escaped s,
      )
      refl
