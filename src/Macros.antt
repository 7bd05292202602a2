-- ===== src/Macros.antt =====
-- The macros that come with the program (module 17 of the bundle, `macros.js`).
use analisis_de_protocolo_de.Prelude.{Bool, some, if◌then◌else◌}
use analisis_de_protocolo_de.Prelude.Text.{Text, codes, text_eq}
use analisis_de_protocolo_de.Parser.{Macros, markdown}

-- What every object inherits: its functions by their names, and all names. The names are those of
-- `Object.prototype`, as `constructor`, `valueOf` and `__proto__`, and the strings that its functions return
-- call no macro.
pub record Inherited : Type 0 where
  pub functions : Macros
  pub is_name : Text → Bool

-- `macros[name]`, where it is a function: `macros` is an object, and has the functions that it inherits.
unfoldable pub macros : Inherited → Macros
unfolding text_eq
macros inherited name =
    if text_eq name (codes "hello")
    then some (λ _ _. markdown (codes "hello!"))
    else inherited.functions name
