-- ===== src/Prelude/Result.antt =====
-- Results of code that may throw: `TypeError` from the language, or an `Error` of the program.
use mathlib.Core.Path.{◌≡◌, refl}
use analisis_de_protocolo_de.Prelude.Text.{Text}

pub data Error : Type 0 where
  -- a property of `undefined` is read
  type_error : Error
  -- `throw new Error('Macro "…" not found. …')`
  macro_not_found : Text → Error
  -- a macro threw
  thrown_by_macro : Error
  -- `throw new Error('Unknown print orientation: …')`
  unknown_orientation : Text → Error
  -- `throw Error(xhr.statusText)`
  load_error : Text → Error
  -- `throw new Error('Illegal value for `highlightSpans`')`, or of an expression without the flag g
  illegal_spans : Error
  -- the fuel of the model ran out
  out_of_fuel : Error

-- What a call returns, or what it throws.
pub data Result {ℓ} (Value : Type ℓ) : Type ℓ where
  err : Error → Result Value
  ok : Value → Result Value

infixl 5 ◌>>=◌
abbrev pub ◌>>=◌ {ℓ₁ ℓ₂} :
    {Value : Type ℓ₁} {Next : Type ℓ₂} → Result Value → (Value → Result Next) → Result Next
err thrown >>= next = err thrown
ok value >>= next = next value

pub eq_of_ok {ℓ} : {Value : Type ℓ} {a b : Value} → ok a ≡ ok b → a ≡ b
eq_of_ok h = cc

-- A chain that returns: its first part does.
pub ok_of_bind {ℓ₁ ℓ₂} :
    {Value : Type ℓ₁} {Next : Type ℓ₂} (first : Result Value) (next : Value → Result Next)
    (n : Next)
    → (first >>= next) ≡ ok n
    → (value : Value) × (first ≡ ok value) × (next value ≡ ok n)
ok_of_bind (err thrown) next n h = absurd (cc)
ok_of_bind (ok value) next n h = (value, refl, h)
