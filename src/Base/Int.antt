-- ===== src/Base/Int.antt =====
-- Signed integers over the native numbers, as error codes and counters are: `negsuc n` is -(n + 1).
use jrpc.Base.Equality.{Comparable, nat_eq, leb, ltb, if◌then◌else◌}
use Prim.Native.Nat.{ℕ, suc, ◌≤◌, ◌+◌, ◌-◌, ◌%◌, ◌^◌}
use mathlib.Core.Path.{◌≡◌}
use mathlib.Core.Logic.{◌↔◌}
use mathlib.Core.Bool.{Bool, true, false}
use native.Mathlib.Omega.{arith}

pub data ℤ : Type 0 where
  pos : ℕ → ℤ
  negsuc : ℕ → ℤ

abbrev pub int_eq : ℤ → ℤ → Bool
int_eq (pos a) (pos b) = nat_eq a b
int_eq (pos a) (negsuc b) = false
int_eq (negsuc a) (pos b) = false
int_eq (negsuc a) (negsuc b) = nat_eq a b

pub int_eq_iff : (a b : ℤ) → (int_eq a b ≡ true) ↔ (a ≡ b)
int_eq_iff (pos a) (pos b) = ground arith
int_eq_iff (pos a) (negsuc b) = ground arith
int_eq_iff (negsuc a) (pos b) = ground arith
int_eq_iff (negsuc a) (negsuc b) = ground arith

instance abbrev pub Eq-ℤ : Comparable ℤ
Eq-ℤ = record { same = int_eq; same_iff = int_eq_iff }

-- a - b, as an integer.
abbrev pub sub_ℕ : ℕ → ℕ → ℤ
sub_ℕ a b = if leb b a then pos (a - b) else negsuc (b - a - 1)

abbrev pub pos_part : ℤ → ℕ
pos_part (pos n) = n
pos_part (negsuc n) = 0

abbrev pub neg_part : ℤ → ℕ
neg_part (pos n) = 0
neg_part (negsuc n) = suc n

-- The `int64` whose bit pattern is the number, below 2 ^ 64.
abbrev pub of_bits64 : ℕ → ℤ
of_bits64 r = if ltb r (2 ^ 63) then pos r else negsuc (2 ^ 64 - 1 - r)

-- The value of an exact result in an `int64`.
unfoldable pub wrap64 : ℤ → ℤ
wrap64 (pos n) = of_bits64 (n % 2 ^ 64)
wrap64 (negsuc n) = of_bits64 (2 ^ 64 - 1 - n % 2 ^ 64)

-- Addition of `int64` values.
unfoldable pub add64 : ℤ → ℤ → ℤ
unfolding wrap64
add64 a b = wrap64 (sub_ℕ (pos_part a + pos_part b) (neg_part a + neg_part b))

abbrev pub ltb_ℤ : ℤ → ℤ → Bool
ltb_ℤ a b = ltb (pos_part a + neg_part b) (pos_part b + neg_part a)

pub add64-one : (n : ℕ) → n + 1 ≤ 2 ^ 63 - 1 → add64 (pos n) (pos 1) ≡ pos (n + 1)
unfolding add64 wrap64
add64-one n h = ground arith
