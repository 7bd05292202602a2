-- ===== src/Prelude/Int.antt =====
-- Signed whole numbers over the native ones.
use Prim.Native.Nat.{ℕ, zero, suc, ◌+◌}
use mathlib.Core.Path.{◌≡◌}
use mathlib.Core.Bool.{Bool, false}
use native.Mathlib.Omega.{arith}
use analisis_de_protocolo_de.Prelude.Tests.{◌==◌}

-- `negsuc n` is -(n + 1).
pub data ℤ : Type 0 where
  pos : ℕ → ℤ
  negsuc : ℕ → ℤ

-- x + 1 and x - 1
abbrev pub succ : ℤ → ℤ
succ (pos n) = pos (n + 1)
succ (negsuc zero) = pos 0
succ (negsuc (suc n)) = negsuc n

abbrev pub pred : ℤ → ℤ
pred (pos zero) = negsuc 0
pred (pos (suc n)) = pos n
pred (negsuc n) = negsuc (n + 1)

abbrev pub neg : ℤ → ℤ
neg (pos zero) = pos 0
neg (pos (suc n)) = negsuc n
neg (negsuc n) = pos (n + 1)

abbrev pub eqb : ℤ → ℤ → Bool
eqb (pos a) (pos b) = a == b
eqb (negsuc a) (negsuc b) = a == b
eqb (pos a) (negsuc b) = false
eqb (negsuc a) (pos b) = false

pub succ-pred : (x : ℤ) → succ (pred x) ≡ x
succ-pred (pos zero) = ground arith
succ-pred (pos (suc n)) = ground arith
succ-pred (negsuc n) = ground arith

pub pred-succ : (x : ℤ) → pred (succ x) ≡ x
pred-succ (pos n) = ground arith
pred-succ (negsuc zero) = ground arith
pred-succ (negsuc (suc n)) = ground arith
