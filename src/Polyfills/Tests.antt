-- ===== src/Polyfills/Tests.antt =====
-- The functions on a list of numbers, and the theorems at it.
use analisis_de_protocolo_de.Prelude.{ℕ, ◌+◌, ◌≡◌, refl, ◌∙◌, [], ◌∷◌, ◌==◌, ltb}
use analisis_de_protocolo_de.Polyfills.{filter, map}
use analisis_de_protocolo_de.Polyfills.Indexed.{map_from, filter_from, map-indexed, filter-kept}

test_map : map (λ (x i : ℕ). x + i) (5 ∷ 5 ∷ []) ≡ 5 ∷ 6 ∷ []
test_map = map-indexed (λ (x i : ℕ). x + i) (5 ∷ 5 ∷ []) ∙ unfold map_from in refl

test_filter :
    (filter (λ (x i : ℕ). ltb x 4) (5 ∷ 3 ∷ []) ≡ filter_from (λ (x i : ℕ). ltb x 4) 0 (5 ∷ 3 ∷ []))
    × (filter (λ (x i : ℕ). i == 1) (5 ∷ 3 ∷ []) ≡ [])
test_filter = filter-kept (λ (x i : ℕ). ltb x 4) (5 ∷ 3 ∷ [])
