-- ===== src/ClassList/Laws.antt =====
-- What `hasClass` finds after a class was added, removed or toggled.
use analisis_de_protocolo_de.Prelude.{
  ℕ, ◌+◌, ◌≤◌, ◌≡◌, refl, ap, ◌∙◌, Bool, true, false, not, ◌||◌, ◌&&◌, List, [], ◌∷◌, ◌++◌,
  if◌then◌else◌, All, All-append, arith, Bool-cases, inl, inr,
}
use analisis_de_protocolo_de.Prelude.Text.{Text, text_eq, text_eq_iff, text_eq_refl, includes}
use analisis_de_protocolo_de.ClassList.{
  get_classes, add_class, without, remove_class, without_first, toggle_class, has_class,
}
use analisis_de_protocolo_de.ClassList.Split.{IsClass, get_classes-IsClass, get_classes-join}

includes-append :
    (d : Text) (xs ys : List Text) → includes d (xs ++ ys) ≡ (includes d xs || includes d ys)
unfolding includes
includes-append d [] ys = refl
includes-append d (x ∷ xs) ys = ground (arith, includes-append d xs ys)

includes-without :
    (c d : Text) (xs : List Text) → includes d (without c xs) ≡ (includes d xs && not (text_eq c d))
unfolding includes without
includes-without c d [] = refl
includes-without c d (x ∷ xs) =
    ground (arith, includes-without c d xs, text_eq_iff x c, text_eq_iff x d, text_eq_iff c d)

includes-without_first :
    (c d : Text) (xs : List Text)
    → text_eq c d ≡ false
    → includes d (without_first c xs) ≡ includes d xs
unfolding includes without_first
includes-without_first c d [] h = refl
includes-without_first c d (x ∷ xs) h =
    ground
      (arith, includes-without_first c d xs h, text_eq_iff x c, text_eq_iff x d, text_eq_iff c d)

-- How often a class is listed.
unfoldable pub occurs : Text → List Text → ℕ
occurs c [] = 0
occurs c (x ∷ xs) = (if text_eq x c then 1 else 0) + occurs c xs

includes-occurs :
    (c : Text) (xs : List Text)
    → (occurs c xs ≡ 0 → includes c xs ≡ false) × (includes c xs ≡ false → occurs c xs ≡ 0)
unfolding includes occurs
includes-occurs c [] = (λ _. refl, λ _. refl)
includes-occurs c (x ∷ xs) = elim (Bool-cases (text_eq x c)) [
  | inl u ↦ rw u (λ h. absurd (omega arith), λ h. cc)
  | inr u ↦
      rw u (
        λ h. (includes-occurs c xs).0 (omega arith),
        λ h. omega (arith, (includes-occurs c xs).1 h),
      )
]

occurs-append : (c : Text) (xs ys : List Text) → occurs c (xs ++ ys) ≡ occurs c xs + occurs c ys
unfolding occurs
occurs-append c [] ys = omega arith
occurs-append c (x ∷ xs) ys = omega (arith, occurs-append c xs ys)

occurs-without_first :
    (c : Text) (xs : List Text)
    → includes c xs ≡ true
    → occurs c (without_first c xs) + 1 ≡ occurs c xs
unfolding includes occurs without_first
occurs-without_first c [] h = cc
occurs-without_first c (x ∷ xs) h = elim (Bool-cases (text_eq x c)) [
  | inl u ↦ rw u (omega arith)
  | inr u ↦ let h' = h in rw u (rw u (omega (arith, occurs-without_first c xs (rw u at h'))))
]

All-without : (c : Text) (xs : List Text) → All IsClass xs → All IsClass (without c xs)
unfolding without
All-without c [] h = tt
All-without c (x ∷ xs) h = elim (Bool-cases (text_eq x c)) [
  | inl u ↦ rw u (All-without c xs h.1)
  | inr u ↦ rw u (h.0, All-without c xs h.1)
]

All-without_first : (c : Text) (xs : List Text) → All IsClass xs → All IsClass (without_first c xs)
unfolding without_first
All-without_first c [] h = tt
All-without_first c (x ∷ xs) h = elim (Bool-cases (text_eq x c)) [
  | inl u ↦ rw u h.1
  | inr u ↦ rw u (h.0, All-without_first c xs h.1)
]

pub get_classes-add_class :
    (class_name c : Text)
    → IsClass c
    → get_classes (add_class class_name c) ≡ get_classes class_name ++ c ∷ []
unfolding add_class
get_classes-add_class n c h =
    get_classes-join (get_classes n ++ c ∷ [])
      (All-append IsClass (get_classes n) (c ∷ []) (get_classes-IsClass n) (h, tt))

pub get_classes-remove_class :
    (class_name c : Text)
    → get_classes (remove_class class_name c) ≡ without c (get_classes class_name)
unfolding remove_class
get_classes-remove_class n c =
    get_classes-join (without c (get_classes n))
      (All-without c (get_classes n) (get_classes-IsClass n))

pub has_class-add_class :
    (class_name c d : Text)
    → IsClass c
    → has_class (add_class class_name c) d ≡ (has_class class_name d || text_eq c d)
unfolding has_class
has_class-add_class n c d h =
    ap (includes d) (get_classes-add_class n c h)
    ∙ includes-append d (get_classes n) (c ∷ [])
    ∙ ap (λ b. includes d (get_classes n) || b) (unfold includes in or_false (text_eq c d))
  where
    or_false : (b : Bool) → (b || false) ≡ b
    or_false true = refl
    or_false false = refl

pub has_class-remove_class :
    (class_name c d : Text)
    → has_class (remove_class class_name c) d ≡ (has_class class_name d && not (text_eq c d))
unfolding has_class
has_class-remove_class n c d =
    ap (includes d) (get_classes-remove_class n c) ∙ includes-without c d (get_classes n)

-- After a class is added, exactly the classes before and that one are there; after one is removed,
-- exactly the classes before other than it. The class that is added is not empty and has no space.
pub has_class-changed :
    (class_name c d : Text)
    → IsClass c
    → (has_class (add_class class_name c) d ≡ (has_class class_name d || text_eq c d))
      × (has_class (remove_class class_name c) d ≡ (has_class class_name d && not (text_eq c d)))
has_class-changed n c d h = (has_class-add_class n c d h, has_class-remove_class n c d)

get_classes-toggle_class :
    (class_name c : Text)
    → IsClass c
    → get_classes (toggle_class class_name c) ≡ (
        if includes c (get_classes class_name)
        then without_first c (get_classes class_name)
        else get_classes class_name ++ c ∷ [])
unfolding toggle_class
get_classes-toggle_class n c h = elim (Bool-cases (includes c (get_classes n))) [
  | inl u ↦ rw u (
      get_classes-join (without_first c (get_classes n))
        (All-without_first c (get_classes n) (get_classes-IsClass n)))
  | inr u ↦ rw u (
      get_classes-join (get_classes n ++ c ∷ [])
        (All-append IsClass (get_classes n) (c ∷ []) (get_classes-IsClass n) (h, tt)))
]

-- Toggling a class that is there at most once turns it on or off, leaves every other as it was, and
-- leaves it there at most once.
pub has_class-toggle_class :
    (class_name c d : Text)
    → IsClass c
    → occurs c (get_classes class_name) ≤ 1
    → (has_class (toggle_class class_name c) d
        ≡ (if text_eq c d then not (has_class class_name d) else has_class class_name d))
      × (occurs c (get_classes (toggle_class class_name c)) ≤ 1)
unfolding has_class
has_class-toggle_class n c d h once = elim (Bool-cases (includes c (get_classes n))) [
  | inl u ↦
      let e = get_classes-toggle_class n c h in
      let fewer = occurs-without_first c (get_classes n) u in
      let gone : includes c (without_first c (get_classes n)) ≡ false =
        (includes-occurs c (without_first c (get_classes n))).0 (omega arith) in
      rw (e, u)
        (
          elim (Bool-cases (text_eq c d)) [
            | inl same ↦
                let p : c ≡ d = (text_eq_iff c d).0 same in rw (same, ← p) (rw (gone, u) refl)
            | inr other ↦ rw (other, includes-without_first c d (get_classes n) other) refl
          ],
          omega arith,
        )
  | inr u ↦
      let e = get_classes-toggle_class n c h in
      let none_there = (includes-occurs c (get_classes n)).1 u in
      rw (e, u)
        (
          elim (Bool-cases (text_eq c d)) [
            | inl same ↦
                let p : c ≡ d = (text_eq_iff c d).0 same in
                rw (same, ← p, includes-append c (get_classes n) (c ∷ []), u)
                  (unfold includes in rw (text_eq_refl c) refl)
            | inr other ↦
                rw (other, includes-append d (get_classes n) (c ∷ []))
                  (unfold includes in rw other (or_false (includes d (get_classes n))))
          ],
          rw (occurs-append c (get_classes n) (c ∷ []), none_there)
              (unfold occurs in rw (text_eq_refl c) (omega arith)),
        )
]
  where
    or_false : (b : Bool) → (b || false) ≡ b
    or_false true = refl
    or_false false = refl

occurs-without_first_other :
    (c d : Text) (xs : List Text)
    → text_eq c d ≡ false
    → occurs d (without_first c xs) ≡ occurs d xs
unfolding occurs without_first
occurs-without_first_other c d [] h = refl
occurs-without_first_other c d (x ∷ xs) h =
    ground (
      arith,
      occurs-without_first_other c d xs h,
      text_eq_iff x c,
      text_eq_iff x d,
      text_eq_iff c d,
    )

-- Another class is there as often as before.
pub occurs-toggle_class :
    (class_name c d : Text)
    → IsClass c
    → text_eq c d ≡ false
    → occurs d (get_classes (toggle_class class_name c)) ≡ occurs d (get_classes class_name)
occurs-toggle_class n c d h other =
    ap (occurs d) (get_classes-toggle_class n c h)
    ∙ (elim (Bool-cases (includes c (get_classes n))) [
      | inl u ↦ rw u (occurs-without_first_other c d (get_classes n) other)
      | inr u ↦
          rw (u, occurs-append d (get_classes n) (c ∷ [])) (unfold occurs in rw other (omega arith))
    ])

occurs-without-le : (c d : Text) (xs : List Text) → occurs d (without c xs) ≤ occurs d xs
unfolding occurs without
occurs-without-le c d [] = omega arith
occurs-without-le c d (x ∷ xs) = elim (Bool-cases (text_eq x c)) [
  | inl u ↦ rw u (omega (arith, occurs-without-le c d xs))
  | inr u ↦ rw u (omega (arith, occurs-without-le c d xs))
]

pub occurs-remove_class-le :
    (class_name c d : Text)
    → occurs d (get_classes (remove_class class_name c)) ≤ occurs d (get_classes class_name)
occurs-remove_class-le n c d =
    rw (get_classes-remove_class n c) (occurs-without-le c d (get_classes n))
