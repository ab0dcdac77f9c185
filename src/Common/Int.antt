-- ===== src/Common/Int.antt =====
-- Go's `int` and `int64`: integers over the native numbers, with the wrap of `++` and `--` at the
-- ends of the range written out.
use Prim.Native.Nat.{ℕ, zero, suc, ◌+◌, ◌-◌, ◌≤◌, ◌%◌}
use mathlib.Core.Path.{◌≡◌, refl}
use mathlib.Core.Bool.{Bool}
use native.Mathlib.Omega.{arith}
use luci_app_gowan.Common.Tests.{ltb, leb, ◌==◌, if◌then◌else◌}

-- `negsuc n` is -(n + 1).
pub data ℤ : Type 0 where
  pos : ℕ → ℤ
  negsuc : ℕ → ℤ

abbrev pub pos_part : ℤ → ℕ
pos_part (pos n) = n
pos_part (negsuc n) = 0

abbrev pub neg_part : ℤ → ℕ
neg_part (pos n) = 0
neg_part (negsuc n) = suc n

-- a - b, as an integer.
abbrev pub sub_ℕ : ℕ → ℕ → ℤ
sub_ℕ a b = if leb b a then pos (a - b) else negsuc (b - a - 1)

infixl 65 ◌+ℤ◌
infix 50 ◌≤ℤ◌
unfoldable pub ◌+ℤ◌ : ℤ → ℤ → ℤ
a +ℤ b = sub_ℕ (pos_part a + pos_part b) (neg_part a + neg_part b)

abbrev pub ◌≤ℤ◌ : ℤ → ℤ → Type 0
a ≤ℤ b = pos_part a + neg_part b ≤ pos_part b + neg_part a

abbrev pub ltb_ℤ : ℤ → ℤ → Bool
ltb_ℤ a b = ltb (pos_part a + neg_part b) (pos_part b + neg_part a)

abbrev pub leb_ℤ : ℤ → ℤ → Bool
leb_ℤ a b = leb (pos_part a + neg_part b) (pos_part b + neg_part a)

abbrev pub eq_ℤ : ℤ → ℤ → Bool
eq_ℤ a b = (pos_part a + neg_part b) == (pos_part b + neg_part a)

pub +ℤ_parts :
    (a b : ℤ)
    → pos_part (a +ℤ b) + neg_part a + neg_part b ≡ neg_part (a +ℤ b) + pos_part a + pos_part b
unfolding ◌+ℤ◌
+ℤ_parts a b = ground arith

pub eq_of_parts : (a b : ℤ) → pos_part a + neg_part b ≡ pos_part b + neg_part a → a ≡ b
eq_of_parts a b h = ground arith

pub ruleset int_laws = (arith, +ℤ_parts, eq_of_parts)

-- 2 ^ 63 - 1, the greatest int64.
abbrev pub int_max : ℕ
int_max = 0x7fff_ffff_ffff_ffff

-- `x++` on an int64.
abbrev pub incr : ℤ → ℤ
incr (pos n) = if n == int_max then negsuc int_max else pos (suc n)
incr (negsuc zero) = pos 0
incr (negsuc (suc n)) = negsuc n

-- `x--` on an int64.
abbrev pub decr : ℤ → ℤ
decr (pos zero) = negsuc 0
decr (pos (suc n)) = pos n
decr (negsuc n) = if n == int_max then pos int_max else negsuc (suc n)

-- 2 ^ 64, the modulus of uint64.
abbrev pub u64 : ℕ
u64 = 0x1_0000_0000_0000_0000

-- a + b on uint64.
abbrev pub add64 : ℕ → ℕ → ℕ
add64 a b = (a + b) % u64

-- The integers that an int64 holds.
abbrev pub InInt64 : ℤ → Type 0
InInt64 (pos n) = n ≤ int_max
InInt64 (negsuc n) = n ≤ int_max

pub decr-incr : (a : ℤ) → InInt64 a → decr (incr a) ≡ a
decr-incr (pos n) h = ground arith
decr-incr (negsuc zero) h = refl
decr-incr (negsuc (suc n)) h = ground arith

-- -a
abbrev pub negate : ℕ → ℤ
negate zero = pos 0
negate (suc n) = negsuc n
