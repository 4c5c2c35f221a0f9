-- ===== src/Base/Int.antt =====
-- `int`: process ids, file descriptors, wait statuses and the counter of running processes.
-- No operation of the program takes a value out of the range of 32 bits but the conversions.
use Prim.Native.Nat.{ℕ, zero, suc, ◌+◌, ◌-◌, ◌%◌, ◌<◌}
use mathlib.Core.Path.{◌≡◌, refl}
use mathlib.Core.Logic.{◌↔◌}
use mathlib.Core.Bool.{Bool, true, false}
use native.Mathlib.Omega.{arith}
use scinit.Base.Tests.{◌==◌, ltb, if◌then◌else◌}

-- `negsuc n` is -(n + 1).
pub data ℤ : Type 0 where
  pos : ℕ → ℤ
  negsuc : ℕ → ℤ

abbrev pub int_beq : ℤ → ℤ → Bool
int_beq (pos a) (pos b) = a == b
int_beq (negsuc a) (negsuc b) = a == b
int_beq _ _ = false

abbrev pub int_ltb : ℤ → ℤ → Bool
int_ltb (pos a) (pos b) = ltb a b
int_ltb (negsuc a) (negsuc b) = ltb b a
int_ltb (negsuc _) (pos _) = true
int_ltb (pos _) (negsuc _) = false

pub int_beq_iff : (a b : ℤ) → (int_beq a b ≡ true) ↔ (a ≡ b)
int_beq_iff (pos a) (pos b) = ground arith
int_beq_iff (negsuc a) (negsuc b) = ground arith
int_beq_iff (pos a) (negsuc b) = ground arith
int_beq_iff (negsuc a) (pos b) = ground arith

-- `i++` and `i--`.
abbrev pub inc : ℤ → ℤ
inc (pos n) = pos (suc n)
inc (negsuc zero) = pos 0
inc (negsuc (suc n)) = negsuc n

abbrev pub dec : ℤ → ℤ
dec (pos zero) = negsuc 0
dec (pos (suc n)) = pos n
dec (negsuc n) = negsuc (suc n)

-- A function, so that no term holds the numeral 2 ^ 32 unfolded.
abbrev pub u32_mod : ℕ
u32_mod = 4294967296

-- The conversion of an `int` to an `unsigned int`, and the one back.
pub to_unsigned : ℤ → ℕ
to_unsigned (pos n) = n % u32_mod
to_unsigned (negsuc n) = u32_mod - 1 - n % u32_mod

pub to_signed : ℕ → ℤ
to_signed u = if ltb u 2147483648 then pos u else negsuc (u32_mod - 1 - u)

pub to_unsigned-to_signed : (u : ℕ) → u < u32_mod → to_unsigned (to_signed u) ≡ u
unfolding to_unsigned to_signed
to_unsigned-to_signed u h = ground arith

pub to_unsigned_minus_one : to_unsigned (negsuc 0) ≡ 4294967295
unfolding to_unsigned
to_unsigned_minus_one = refl

-- `unsigned int` decrement: 0 wraps around.
abbrev pub dec_u32 : ℕ → ℕ
dec_u32 n = (n + u32_mod - 1) % u32_mod
