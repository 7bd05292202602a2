-- ===== src/ClassList.antt =====
-- The classes of an element (module 25 of the bundle, `utils.js`): the functions on `className`.
pub mod Split
pub mod Laws
pub mod Tests
use analisis_de_protocolo_de.Prelude.{
  Bool, true, false, not, List, [], ◌∷◌, ◌++◌, ◌==◌, if◌then◌else◌, is_empty,
}
use analisis_de_protocolo_de.Prelude.Text.{Text, codes, text_eq, split, join, includes}

-- xs.filter(s => s !== '')
unfoldable pub filled : List Text → List Text
filled [] = []
filled (x ∷ xs) = if is_empty x then filled xs else x ∷ filled xs

-- getClasses, of `className`
unfoldable pub get_classes : Text → List Text
unfolding filled split
get_classes class_name = filled (split (λ c. c == 32) class_name)

unfoldable pub add_class : Text → Text → Text
unfolding get_classes join
add_class class_name name = join (codes " ") (get_classes class_name ++ name ∷ [])

-- xs.filter(klass => klass !== name)
unfoldable pub without : Text → List Text → List Text
without name [] = []
without name (x ∷ xs) = if text_eq x name then without name xs else x ∷ without name xs

unfoldable pub remove_class : Text → Text → Text
unfolding get_classes without join
remove_class class_name name = join (codes " ") (without name (get_classes class_name))

-- xs.splice(xs.indexOf(name), 1), where the name occurs
unfoldable pub without_first : Text → List Text → List Text
without_first name [] = []
without_first name (x ∷ xs) = if text_eq x name then xs else x ∷ without_first name xs

unfoldable pub toggle_class : Text → Text → Text
unfolding get_classes without_first includes join
toggle_class class_name name =
    let classes = get_classes class_name in
    join (codes " ")
      (if includes name classes then without_first name classes else classes ++ name ∷ [])

unfoldable pub has_class : Text → Text → Bool
unfolding get_classes includes
has_class class_name name = includes name (get_classes class_name)
