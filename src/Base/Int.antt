-- ===== src/Base/Int.antt =====
-- Go's `int` and `int64` over the native numbers: `negsuc n` is -(n + 1). Division and remainder
-- truncate toward zero, as in Go, and division by zero panics.
use Prim.Native.Nat.{ℕ, suc, ◌+◌, ◌-◌, ◌*◌, ◌/◌, ◌%◌}
use mathlib.Core.Bool.{Bool, false}
use mathlib.Core.Option.{Option, none, some}
use rule_110_arcade.Base.Tests.{leb, ◌==◌, if◌then◌else◌}

pub data ℤ : Type 0 where
  pos : ℕ → ℤ
  negsuc : ℕ → ℤ

-- a - b, as an integer.
abbrev pub sub_ℕ : ℕ → ℕ → ℤ
sub_ℕ a b = if leb b a then pos (a - b) else negsuc (b - a - 1)

-- -a
abbrev pub neg_ℕ : ℕ → ℤ
neg_ℕ a = sub_ℕ 0 a

infixl 65 ◌+ℤ◌
abbrev pub ◌+ℤ◌ : ℤ → ℤ → ℤ
pos a +ℤ pos b = pos (a + b)
pos a +ℤ negsuc b = sub_ℕ a (suc b)
negsuc a +ℤ pos b = sub_ℕ b (suc a)
negsuc a +ℤ negsuc b = negsuc (suc (a + b))

infixl 70 ◌*ℤ◌
abbrev pub ◌*ℤ◌ : ℤ → ℤ → ℤ
pos a *ℤ pos b = pos (a * b)
pos a *ℤ negsuc b = neg_ℕ (a * suc b)
negsuc a *ℤ pos b = neg_ℕ (suc a * b)
negsuc a *ℤ negsuc b = pos (suc a * suc b)

abbrev pub quot : ℤ → ℤ → Option ℤ
quot (pos a) (pos b) = if b == 0 then none else some (pos (a / b))
quot (pos a) (negsuc b) = some (neg_ℕ (a / suc b))
quot (negsuc a) (pos b) = if b == 0 then none else some (neg_ℕ (suc a / b))
quot (negsuc a) (negsuc b) = some (pos (suc a / suc b))

abbrev pub rem : ℤ → ℤ → Option ℤ
rem (pos a) (pos b) = if b == 0 then none else some (pos (a % b))
rem (pos a) (negsuc b) = some (pos (a % suc b))
rem (negsuc a) (pos b) = if b == 0 then none else some (neg_ℕ (suc a % b))
rem (negsuc a) (negsuc b) = some (neg_ℕ (suc a % suc b))

abbrev pub int_eq : ℤ → ℤ → Bool
int_eq (pos a) (pos b) = a == b
int_eq (pos a) (negsuc b) = false
int_eq (negsuc a) (pos b) = false
int_eq (negsuc a) (negsuc b) = a == b
