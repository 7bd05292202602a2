-- ===== src/ClassList/Tests.antt =====
-- Classes of an element, and the theorems at them.
use analisis_de_protocolo_de.Prelude.{◌≡◌, refl}
use analisis_de_protocolo_de.Prelude.Text.{codes, text_eq}
use analisis_de_protocolo_de.ClassList.{add_class, remove_class, toggle_class}

test_add : add_class (codes "a  b") (codes "c") ≡ codes "a b c"
unfolding add_class
test_add = refl

test_remove : remove_class (codes "a b a") (codes "a") ≡ codes "b"
unfolding remove_class text_eq
test_remove = refl

test_toggle : toggle_class (codes "a b a") (codes "a") ≡ codes "b a"
unfolding toggle_class text_eq
test_toggle = refl
