-- ===== src/Prelude/Int.antt =====
-- Integers over the native numbers; `negsuc n` is -(n + 1).
use Prim.Native.Nat.{ℕ}
use mathlib.Core.Bool.{Bool, true, false, ◌&&◌}
use mathlib.Core.Option.{Option, none, some}
use mathlib.Core.Path.{◌≡◌}
use native.Mathlib.Omega.{arith}
use hyperwake_core.Prelude.Tests.{nat_beq, leb, if◌then◌else◌}

pub data ℤ : Type 0 where
  pos : ℕ → ℤ
  negsuc : ℕ → ℤ

abbrev pub int_beq : ℤ → ℤ → Bool
int_beq (pos a) (pos b) = nat_beq a b
int_beq (negsuc a) (negsuc b) = nat_beq a b
int_beq _ _ = false

pub int_beq_self : (a : ℤ) → int_beq a a ≡ true
int_beq_self (pos a) = ground arith
int_beq_self (negsuc a) = ground arith

-- The number, if it lies between two bounds that are not negative.
abbrev pub between : ℕ → ℕ → ℤ → Option ℕ
between lo hi (pos n) = if leb lo n && leb n hi then some n else none
between lo hi (negsuc n) = none
