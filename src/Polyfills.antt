-- ===== src/Polyfills.antt =====
-- The functions that old browsers lack on lists of nodes (module 4 of the bundle, `polyfills.js`).
pub mod Indexed
pub mod Tests
use analisis_de_protocolo_de.Prelude.{
  ℕ, ◌+◌, Bool, true, false, List, [], ◌∷◌, ◌++◌, length, if◌then◌else◌,
}

-- forEach(list, f) from the index on, where f changes a state
unfoldable pub for_each {ℓ κ} :
    {A : Type ℓ} {State : Type κ} → (A → ℕ → State → State) → ℕ → List A → State → State
for_each f i [] s = s
for_each f i (x ∷ xs) s = for_each f (i + 1) xs (f x i s)

-- prototype.filter
unfoldable pub filter {ℓ} : {A : Type ℓ} → (A → ℕ → Bool) → List A → List A
unfolding for_each
filter f xs =
    for_each
      (λ element i result. if f element (length result) then result ++ element ∷ [] else result) 0
      xs []

-- prototype.map
unfoldable pub map {ℓ κ} : {A : Type ℓ} {B : Type κ} → (A → ℕ → B) → List A → List B
unfolding for_each
map f xs = for_each (λ element i result. result ++ f element (length result) ∷ []) 0 xs []
