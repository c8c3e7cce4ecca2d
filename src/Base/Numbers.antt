-- ===== src/Base/Numbers.antt =====
-- Signed integers (the C `int`), as far as the program uses them.
use Prim.Native.Nat.{ℕ, zero, suc}
use mathlib.Core.Path.{◌≡◌, refl, ap}
use mathlib.Core.Bool.{Bool, true, false}
use native.Mathlib.Omega.{arith}
use minix_server_of_mutex_an.Base.Tests.{◌==◌, ==_ne}

-- `negsuc n` is -(n + 1).
pub data ℤ : Type 0 where
  pos : ℕ → ℤ
  negsuc : ℕ → ℤ

-- Unary minus.
abbrev pub neg : ℤ → ℤ
neg (pos zero) = pos 0
neg (pos (suc n)) = negsuc n
neg (negsuc n) = pos (suc n)

-- `a == b` on `int`.
abbrev pub equals : ℤ → ℤ → Bool
equals (pos a) (pos b) = a == b
equals (negsuc a) (negsuc b) = a == b
equals (pos a) (negsuc b) = false
equals (negsuc a) (pos b) = false

-- `a < 0`.
abbrev pub is_negative : ℤ → Bool
is_negative (pos n) = false
is_negative (negsuc n) = true

pub equals_refl : (a : ℤ) → equals a a ≡ true
equals_refl (pos n) = ground arith
equals_refl (negsuc n) = ground arith

pub equals→eq : (a b : ℤ) → equals a b ≡ true → a ≡ b
equals→eq (pos a) (pos b) h = ground arith
equals→eq (negsuc a) (negsuc b) h = ground arith
equals→eq (pos a) (negsuc b) h = ground arith
equals→eq (negsuc a) (pos b) h = ground arith

pub equals_ne : (a b : ℤ) → (a ≡ b → ⊥) → equals a b ≡ false
equals_ne (pos a) (pos b) h = ==_ne a b λ e. h (ap pos e)
equals_ne (negsuc a) (negsuc b) h = ==_ne a b λ e. h (ap negsuc e)
equals_ne (pos a) (negsuc b) h = refl
equals_ne (negsuc a) (pos b) h = refl
