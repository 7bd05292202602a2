-- ===== src/Polyfills/Indexed.antt =====
-- The index that the functions are given.
use analisis_de_protocolo_de.Prelude.{
  ℕ, ◌+◌, ◌≡◌, refl, ap, sym, ◌∙◌, Bool, List, [], ◌∷◌, ◌++◌, append_assoc, append-nil, length,
  length-append, ◌==◌, if◌then◌else◌, Bool-cases, inl, inr,
}
use analisis_de_protocolo_de.Polyfills.{for_each, filter, map}

module _ {ℓ κ} {A : Type ℓ} {B : Type κ} where
  -- Each element with its index.
  unfoldable pub map_from : (A → ℕ → B) → ℕ → List A → List B
  map_from f i [] = []
  map_from f i (x ∷ xs) = f x i ∷ map_from f (i + 1) xs

  map_loop :
      (f : A → ℕ → B) (i : ℕ) (xs : List A) (result : List B)
      → for_each (λ element i result. result ++ f element (length result) ∷ []) i xs result
        ≡ result ++ map_from f (length result) xs
  unfolding for_each map_from
  map_loop f i [] result = sym (append-nil result)
  map_loop f i (x ∷ xs) result =
      map_loop f (i + 1) xs (result ++ f x (length result) ∷ [])
      ∙ append_assoc result (f x (length result) ∷ [])
          (map_from f (length (result ++ f x (length result) ∷ [])) xs)
      ∙ ap (λ n. result ++ f x (length result) ∷ map_from f n xs)
          (length-append result (f x (length result) ∷ []))

  -- map gives each element its index in the list.
  pub map-indexed : (f : A → ℕ → B) (xs : List A) → map f xs ≡ map_from f 0 xs
  unfolding map
  map-indexed f xs = map_loop f 0 xs []

module _ {ℓ} {A : Type ℓ} where
  -- The elements that a test keeps, where it is given how many were kept before.
  unfoldable pub filter_from : (A → ℕ → Bool) → ℕ → List A → List A
  filter_from f k [] = []
  filter_from f k (x ∷ xs) =
      let kept = x ∷ filter_from f (k + 1) xs in
      let dropped = filter_from f k xs in if f x k then kept else dropped

  filter_loop :
      (f : A → ℕ → Bool) (i : ℕ) (xs result : List A)
      → for_each
          (λ element i result. if f element (length result) then result ++ element ∷ [] else result)
          i
          xs
          result
        ≡ result ++ filter_from f (length result) xs
  unfolding for_each filter_from
  filter_loop f i [] result = sym (append-nil result)
  filter_loop f i (x ∷ xs) result = elim (Bool-cases (f x (length result))) [
    | inl u ↦ rw u (
        filter_loop f (i + 1) xs (result ++ x ∷ [])
        ∙ append_assoc result (x ∷ []) (filter_from f (length (result ++ x ∷ [])) xs)
        ∙ ap (λ n. result ++ x ∷ filter_from f n xs) (length-append result (x ∷ [])))
    | inr u ↦ rw u (filter_loop f (i + 1) xs result)
  ]

  filter_from-one : (xs : List A) → filter_from (λ x i. i == 1) 0 xs ≡ []
  unfolding filter_from
  filter_from-one [] = refl
  filter_from-one (x ∷ xs) = filter_from-one xs

  -- The test of filter is given the number of elements kept before in place of the element's index; so
  -- a test for the index 1 keeps nothing of any list.
  pub filter-kept :
      (f : A → ℕ → Bool) (xs : List A)
      → (filter f xs ≡ filter_from f 0 xs) × (filter (λ x i. i == 1) xs ≡ [])
  unfolding filter
  filter-kept f xs =
      (filter_loop f 0 xs [], filter_loop (λ x i. i == 1) 0 xs [] ∙ filter_from-one xs)
