-- ===== src/Prelude/Int.antt =====
-- The C `int`s of the program as signed integers over the native numbers.
use Prim.Native.Nat.{ℕ}
use mathlib.Core.Path.{◌≡◌, refl}
use mathlib.Core.Logic.{◌↔◌}
use mathlib.Core.Bool.{Bool, true, false}
use native.Mathlib.Omega.{arith}
use pjsocky.Prelude.Tests.{ltb, ◌==◌}

-- `negsuc n` is -(n + 1).
pub data ℤ : Type 0 where
  pos : ℕ → ℤ
  negsuc : ℕ → ℤ

abbrev pub is_equal : ℤ → ℤ → Bool
is_equal (pos a) (pos b) = a == b
is_equal (pos a) (negsuc b) = false
is_equal (negsuc a) (pos b) = false
is_equal (negsuc a) (negsuc b) = a == b

abbrev pub is_negative : ℤ → Bool
is_negative (pos a) = false
is_negative (negsuc a) = true

abbrev pub ltb_ℤ : ℤ → ℤ → Bool
ltb_ℤ (pos a) (pos b) = ltb a b
ltb_ℤ (pos a) (negsuc b) = false
ltb_ℤ (negsuc a) (pos b) = true
ltb_ℤ (negsuc a) (negsuc b) = ltb b a

pub is_equal_iff : (a b : ℤ) → (is_equal a b ≡ true) ↔ (a ≡ b)
is_equal_iff (pos a) (pos b) = ground arith
is_equal_iff (pos a) (negsuc b) = ground arith
is_equal_iff (negsuc a) (pos b) = ground arith
is_equal_iff (negsuc a) (negsuc b) = ground arith

pub is_equal_refl : (a : ℤ) → is_equal a a ≡ true
is_equal_refl a = (is_equal_iff a a).1 refl
