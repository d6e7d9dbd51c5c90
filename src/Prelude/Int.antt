-- ===== src/Prelude/Int.antt =====
-- Signed integers over the native numbers, and Go's int64 with its wrap-around.
use Prim.Native.Nat.{ℕ, suc, ◌+◌, ◌-◌, ◌*◌, ◌/◌, ◌%◌, ◌≤◌, ◌<◌}
use mathlib.Core.Path.{◌≡◌, refl}
use mathlib.Core.Bool.{Bool}
use native.Mathlib.Omega.{arith}
use n0ding.Prelude.Tests.{ltb, leb, if◌then◌else◌}

-- `negsuc n` is -(n + 1).
pub data ℤ : Type 0 where
  pos : ℕ → ℤ
  negsuc : ℕ → ℤ

abbrev pub pos_part : ℤ → ℕ
pos_part (pos n) = n
pos_part (negsuc n) = 0

abbrev pub neg_part : ℤ → ℕ
neg_part (pos n) = 0
neg_part (negsuc n) = suc n

abbrev pub sub_ℕ : ℕ → ℕ → ℤ
sub_ℕ a b = if leb b a then pos (a - b) else negsuc (b - a - 1)

infixl 65 ◌+ℤ◌ ◌-ℤ◌
infix 50 ◌≤ℤ◌ ◌<ℤ◌
unfoldable pub ◌+ℤ◌ : ℤ → ℤ → ℤ
a +ℤ b = sub_ℕ (pos_part a + pos_part b) (neg_part a + neg_part b)

unfoldable pub ◌-ℤ◌ : ℤ → ℤ → ℤ
a -ℤ b = sub_ℕ (pos_part a + neg_part b) (neg_part a + pos_part b)

infixl 70 ◌*ℤ◌ ◌/ℤ◌ ◌%ℤ◌
unfoldable pub ◌*ℤ◌ : ℤ → ℤ → ℤ
a *ℤ b =
    sub_ℕ (pos_part a * pos_part b + neg_part a * neg_part b)
      (pos_part a * neg_part b + neg_part a * pos_part b)

-- Go's division by a positive number, which rounds towards zero, and its remainder.
unfoldable pub ◌/ℤ◌ : ℤ → ℕ → ℤ
pos n /ℤ k = pos (n / k)
negsuc n /ℤ k = sub_ℕ 0 (suc n / k)

unfoldable pub ◌%ℤ◌ : ℤ → ℕ → ℤ
pos n %ℤ k = pos (n % k)
negsuc n %ℤ k = sub_ℕ 0 (suc n % k)

-- Go's min
abbrev pub min_ℤ : ℤ → ℤ → ℤ
min_ℤ a b = if ltb (pos_part a + neg_part b) (pos_part b + neg_part a) then a else b

abbrev pub ◌≤ℤ◌ : ℤ → ℤ → Type 0
a ≤ℤ b = pos_part a + neg_part b ≤ pos_part b + neg_part a

abbrev pub ◌<ℤ◌ : ℤ → ℤ → Type 0
a <ℤ b = pos_part a + neg_part b < pos_part b + neg_part a

abbrev pub ltb_ℤ : ℤ → ℤ → Bool
ltb_ℤ a b = ltb (pos_part a + neg_part b) (pos_part b + neg_part a)

abbrev pub leb_ℤ : ℤ → ℤ → Bool
leb_ℤ a b = leb (pos_part a + neg_part b) (pos_part b + neg_part a)

-- With these the operations stay shut under `omega`.
pub +ℤ_parts :
    (a b : ℤ)
    → pos_part (a +ℤ b) + neg_part a + neg_part b ≡ neg_part (a +ℤ b) + pos_part a + pos_part b
unfolding ◌+ℤ◌
+ℤ_parts a b = ground arith

pub -ℤ_parts :
    (a b : ℤ)
    → pos_part (a -ℤ b) + neg_part a + pos_part b ≡ neg_part (a -ℤ b) + pos_part a + neg_part b
unfolding ◌-ℤ◌
-ℤ_parts a b = ground arith

pub eq_of_parts : (a b : ℤ) → pos_part a + neg_part b ≡ pos_part b + neg_part a → a ≡ b
eq_of_parts a b h = ground arith

-- The range of an int64.
abbrev pub max_int64 : ℕ
max_int64 = 9223372036854775807

abbrev pub InInt64 : ℤ → Type 0
InInt64 z = (pos_part z ≤ max_int64) × (neg_part z ≤ 9223372036854775808)

-- The int64 with the bit pattern of an integer's low 64 bits.
abbrev of_bits : ℕ → ℤ
of_bits n = if leb n max_int64 then pos n else negsuc (18446744073709551615 - n)

unfoldable pub int64 : ℤ → ℤ
int64 (pos n) = of_bits (n % 18446744073709551616)
int64 (negsuc n) = of_bits (18446744073709551615 - n % 18446744073709551616)

-- A value in range is not changed.
pub int64_exact : (z : ℤ) → InInt64 z → int64 z ≡ z
unfolding int64
int64_exact (pos n) h = ground arith
int64_exact (negsuc n) h = ground arith

-- The result of the wrap is in range.
pub int64-InInt64 : (z : ℤ) → InInt64 (int64 z)
unfolding int64
int64-InInt64 (pos n) = ground arith
int64-InInt64 (negsuc n) = ground arith

pub ruleset int_laws = (arith, +ℤ_parts, -ℤ_parts, eq_of_parts)

pub *ℤ-pos : (a b : ℕ) → pos a *ℤ pos b ≡ pos (a * b)
unfolding ◌*ℤ◌
*ℤ-pos a b = ground arith

pub +ℤ-pos : (a b : ℕ) → pos a +ℤ pos b ≡ pos (a + b)
unfolding ◌+ℤ◌
+ℤ-pos a b = ground arith

pub int64-pos : (a : ℕ) → a ≤ max_int64 → int64 (pos a) ≡ pos a
unfolding int64
int64-pos a h = ground arith

pub int64-sub : (a b : ℕ) → b ≤ a → a ≤ max_int64 → int64 (pos a -ℤ pos b) ≡ pos (a - b)
unfolding int64 ◌-ℤ◌
int64-sub a b h k = ground arith

-- The low 64 bits of an integer.
abbrev bits : ℤ → ℕ
bits (pos n) = n % 18446744073709551616
bits (negsuc n) = 18446744073709551615 - n % 18446744073709551616

int64-bits : (z : ℤ) → int64 z ≡ of_bits (bits z)
unfolding int64
int64-bits (pos n) = refl
int64-bits (negsuc n) = refl

bits-of_bits : (n : ℕ) → n < 18446744073709551616 → bits (of_bits n) ≡ n
bits-of_bits n h = ground arith

bits-lt : (z : ℤ) → bits z < 18446744073709551616
bits-lt (pos n) = omega arith
bits-lt (negsuc n) = omega arith

bits-+ℤ : (a b : ℤ) → bits (a +ℤ b) ≡ (bits a + bits b) % 18446744073709551616
unfolding ◌+ℤ◌
bits-+ℤ (pos a) (pos b) = ground arith
bits-+ℤ (pos a) (negsuc b) = ground arith
bits-+ℤ (negsuc a) (pos b) = ground arith
bits-+ℤ (negsuc a) (negsuc b) = ground arith

bits-int64 : (z : ℤ) → bits (int64 z) ≡ bits z
bits-int64 z = rw (int64-bits z) (bits-of_bits (bits z) (bits-lt z))

-- Sums may be wrapped at any time.
pub int64-+ℤ : (a b : ℤ) → int64 (int64 a +ℤ int64 b) ≡ int64 (a +ℤ b)
int64-+ℤ a b = rw (
  int64-bits (int64 a +ℤ int64 b),
  int64-bits (a +ℤ b),
  bits-+ℤ (int64 a) (int64 b),
  bits-+ℤ a b,
  bits-int64 a,
  bits-int64 b,
)
